-- ===== src/Message/Revoke/Stranger.antt =====
-- A revocation by a user who is not in the group (internal/rpc/msg/revoke.go).
use open_im_server.Base.{
  ◌≡◌, ◌≢◌, inr, refl, ◌==◌, false, err_record_not_found, Bytes, bytes_discrete, [], ◌∷◌, none,
  some, Map, lookup, err_nil_pointer, ok, err, arith,
}
use open_im_server.Auth.Access.{Config, is_app_manager_uid}
use open_im_server.Auth.Access.Laws.{check_access_v3_iff}
use open_im_server.Processor.Conversation.{super_group_chat_type}
use open_im_server.Message.Model.{Constants, MsgData}
use open_im_server.Message.Verify.{GroupMember}
use open_im_server.Message.Revoke.{
  RevokeReq, RevokeServices, UserInfo, get_group_member_info_map, check_roles, group_role,
  revoke_role, authorize, authorize_found, revoke_msg, check_revoke_args,
}

-- A member that may not revoke: the code reads a role of a nil pointer.
check_roles-panics :
    (k : Constants) (members : Map Bytes GroupMember) (user_id send_id : Bytes)
    → (lookup bytes_discrete user_id members ≡ none)
    → check_roles k members user_id send_id ≡ err err_nil_pointer
unfolding check_roles
check_roles-panics k members user_id send_id h = ground arith

group_role_panics :
    (k : Constants) (sv : RevokeServices) (req : RevokeReq) (m : MsgData)
    (members : Map Bytes GroupMember)
    → get_group_member_info_map sv.get_group_member m.group_id
        (sv.distinct (req.user_id ∷ m.send_id ∷ []))
      ≡ ok members
    → lookup bytes_discrete req.user_id members ≡ none
    → req.user_id ≢ m.send_id
    → group_role k sv req m ≡ err err_nil_pointer
unfolding group_role
group_role_panics k sv req m members read absent other =
    ground (arith, check_roles-panics k members req.user_id m.send_id absent)

-- The map has the sender alone.
sender_alone :
    (sv : RevokeServices) (req : RevokeReq) (m : MsgData) (sender : GroupMember)
    → sv.get_group_member m.group_id req.user_id ≡ err err_record_not_found
    → sv.get_group_member m.group_id m.send_id ≡ ok sender
    → get_group_member_info_map sv.get_group_member m.group_id (req.user_id ∷ m.send_id ∷ [])
      ≡ ok ((m.send_id, sender) ∷ [])
unfolding get_group_member_info_map
sender_alone sv req m sender gone there =
    let alone : get_group_member_info_map sv.get_group_member m.group_id (m.send_id ∷ [])
        ≡ ok ((m.send_id, sender) ∷ []) =
      ground (arith, there) in
    ground (arith, gone, alone)

other_key : (a b : Bytes) (g : GroupMember) → a ≢ b → lookup bytes_discrete a ((b, g) ∷ []) ≡ none
unfolding lookup
other_key a b g n = ground (arith, n)

revoke_role_panics :
    (k : Constants) (config : Config) (sv : RevokeServices) (op_user_id : Bytes) (req : RevokeReq)
    (user : UserInfo) (m : MsgData)
    → is_app_manager_uid config op_user_id ≡ false
    → m.session_type ≡ super_group_chat_type
    → group_role k sv req m ≡ err err_nil_pointer
    → revoke_role k config sv op_user_id req user m ≡ err err_nil_pointer
unfolding revoke_role
revoke_role_panics k config sv op req user m plain super h = rw (plain, super) h

-- A user who is not in the group (any more) and asks for himself to revoke a group message of a
-- member, which is stored and not yet revoked, makes `RevokeMsg` read a role through a nil pointer
-- where it should refuse; nothing is changed before. He is no app manager, and the request is well
-- formed.
pub stranger_panics :
    (k : Constants) (config : Config) (sv : RevokeServices) (op_user_id : Bytes) (req : RevokeReq)
    (user : UserInfo) (m : MsgData) (sender : GroupMember)
    → is_app_manager_uid config op_user_id ≡ false
    → op_user_id ≡ req.user_id
    → check_revoke_args req ≡ ok tt
    → sv.get_user_info req.user_id ≡ ok user
    → sv.get_msg_by_seq req.user_id req.conversation_id req.seq ≡ ok (some m)
    → m.content_type ≢ k.msg_revoke_notification
    → m.session_type ≡ super_group_chat_type
    → sv.distinct (req.user_id ∷ m.send_id ∷ []) ≡ req.user_id ∷ m.send_id ∷ []
    → req.user_id ≢ m.send_id
    → sv.get_group_member m.group_id req.user_id ≡ err err_record_not_found
    → sv.get_group_member m.group_id m.send_id ≡ ok sender
    → revoke_msg k config sv op_user_id req ≡ ([], err err_nil_pointer)
unfolding revoke_msg authorize authorize_found
stranger_panics k config sv op req user m sender plain own args info stored fresh super dist other
      gone there =
    let access = (check_access_v3_iff config op req.user_id).1 (inr own) in
    let members = sender_alone sv req m sender gone there in
    let nil =
      group_role_panics k sv req m ((m.send_id, sender) ∷ []) (rw dist members)
        (other_key req.user_id m.send_id sender other) other in
    let role = revoke_role_panics k config sv op req user m plain super nil in
    let unrevoked : (m.content_type == k.msg_revoke_notification) ≡ false = ground (arith, fresh) in
    rw (args, access, info, stored, unrevoked, role) refl
