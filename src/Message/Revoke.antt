-- ===== src/Message/Revoke.antt =====
-- Revoking a message (internal/rpc/msg/revoke.go), with `GetGroupMemberInfoMap` of pkg/rpccache/group.go.
-- `op_user_id` is mcontext.GetOpUserID(ctx). A group member that is not in the map is a nil pointer, and
-- to read its role panics.
pub mod Laws
pub mod Stranger
use open_im_server.Base.{
  ℕ, ◌==◌, Bool, true, false, not, ◌&&◌, ◌||◌, Bytes, bytes_discrete, List, [], ◌∷◌, ◌++◌, Option,
  none, some, Map, lookup, insert, contains, dec_true, if◌then◌else◌, Error, err_args,
  err_no_permission, err_record_not_found, err_internal_server, err_msg_already_revoke,
  err_nil_pointer, is_record_not_found, Result, ok, err, ◌>>=◌, ◌>>◌, require,
}
use open_im_server.Base.Int.{ℤ, pos, negsuc}
use open_im_server.Auth.Access.{Config, check_access_v3, is_app_manager_uid}
use open_im_server.Processor.Conversation.{SessionType, single_chat_type, super_group_chat_type}
use open_im_server.Message.Model.{Constants, MsgData}
use open_im_server.Message.Verify.{GroupMember}

pub record RevokeReq : Type 0 where
  pub user_id : Bytes
  pub conversation_id : Bytes
  pub seq : ℤ

pub record UserInfo : Type 0 where
  pub nickname : Bytes
  pub app_manger_level : ℕ

-- unrelationtb.RevokeModel
pub record RevokeModel : Type 0 where
  pub role : ℕ
  pub user_id : Bytes
  pub nickname : Bytes
  pub time : ℕ

-- sdkws.RevokeMsgTips
pub record RevokeMsgTips : Type 0 where
  pub revoker_user_id : Bytes
  pub client_msg_id : Bytes
  pub revoke_time : ℕ
  pub seq : ℤ
  pub session_type : SessionType
  pub conversation_id : Bytes
  pub is_admin_revoke : Bool

pub record RevokeServices : Type 0 where
  pub get_user_info : Bytes → Result UserInfo
  -- MsgDatabase.GetMsgBySeqs at one number: the first message, or none
  pub get_msg_by_seq : Bytes → Bytes → ℤ → Result (Option MsgData)
  pub get_group_member : Bytes → Bytes → Result GroupMember
  -- utils.Distinct
  pub distinct : List Bytes → List Bytes
  pub revoke_answer : Result (Unit {0})
  pub notification_answer : Result (Unit {0})
  pub callback_after_revoke_msg : Result (Unit {0})
  pub now : ℕ

pub data RevokeEffect : Type 0 where
  revoked : Bytes → ℤ → RevokeModel → RevokeEffect
  notified : Bytes → Bytes → RevokeMsgTips → RevokeEffect

-- The map of the members that are found; any error but a missing record ends it.
unfoldable pub get_group_member_info_map :
    (Bytes → Bytes → Result GroupMember) → Bytes → List Bytes → Result (Map Bytes GroupMember)
get_group_member_info_map get group_id [] = ok []
get_group_member_info_map get group_id (id ∷ ids) =
    let rest = get_group_member_info_map get group_id ids in
    elim (get group_id id) [
      | ok member ↦ (do m ← rest; ok ((id, member) ∷ m))
      | err e ↦ if is_record_not_found e then rest else err e
    ]

abbrev pub is_empty : Bytes → Bool
is_empty [] = true
is_empty (x ∷ s) = false

abbrev pub is_negative : ℤ → Bool
is_negative (pos n) = false
is_negative (negsuc n) = true

unfoldable pub check_revoke_args : RevokeReq → Result (Unit {0})
check_revoke_args req = do
  require (not (is_empty req.user_id)) err_args
  require (not (is_empty req.conversation_id)) err_args
  require (not (is_negative req.seq)) err_args

-- `members[id].RoleLevel`
abbrev pub role_level_of : Option GroupMember → Result ℕ
role_level_of none = err err_nil_pointer
role_level_of (some g) = ok g.role_level

abbrev pub role_level_or_zero : Option GroupMember → ℕ
role_level_or_zero none = 0
role_level_or_zero (some g) = g.role_level

-- The nested `switch` on the roles, for a message of somebody else.
unfoldable pub check_roles : Constants → Map Bytes GroupMember → Bytes → Bytes → Result (Unit {0})
check_roles k members user_id send_id = do
  role ← role_level_of (lookup bytes_discrete user_id members)
  if role == k.group_owner
      then ok tt
      else if role == k.group_admin
      then (do
        sender_role ← role_level_of (lookup bytes_discrete send_id members)
        require (sender_role == k.group_ordinary_users) err_no_permission)
      else err err_no_permission

unfoldable pub group_role : Constants → RevokeServices → RevokeReq → MsgData → Result ℕ
unfolding check_roles get_group_member_info_map
group_role k sv req m = do
  members ←
      get_group_member_info_map sv.get_group_member m.group_id
        (sv.distinct (req.user_id ∷ m.send_id ∷ []))
  if dec_true (bytes_discrete req.user_id m.send_id)
      then ok tt
      else check_roles k members req.user_id m.send_id
  ok (role_level_or_zero (lookup bytes_discrete req.user_id members))

abbrev pub session_role :
    SessionType
    → Constants
    → Config
    → RevokeServices
    → Bytes
    → RevokeReq
    → UserInfo
    → MsgData
    → Result ℕ
session_role single_chat_type k config sv op_user_id req user m = do
  check_access_v3 config op_user_id m.send_id
  ok user.app_manger_level
session_role super_group_chat_type k config sv op_user_id req user m = group_role k sv req m
session_role _ k config sv op_user_id req user m = err err_internal_server

-- The role that is recorded, or why the message may not be revoked.
unfoldable pub revoke_role :
    Constants → Config → RevokeServices → Bytes → RevokeReq → UserInfo → MsgData → Result ℕ
unfolding group_role
revoke_role k config sv op_user_id req user m =
    if is_app_manager_uid config op_user_id
    then ok 0
    else session_role m.session_type k config sv op_user_id req user m

abbrev pub found_msg : Option MsgData → Result MsgData
found_msg none = err err_record_not_found
found_msg (some m) = ok m

-- What is done with the message that the database finds.
unfoldable pub authorize_found :
    Constants
    → Config
    → RevokeServices
    → Bytes
    → RevokeReq
    → UserInfo
    → Option MsgData
    → Result (UserInfo × MsgData × ℕ)
unfolding revoke_role
authorize_found k config sv op_user_id req user none = err err_record_not_found
authorize_found k config sv op_user_id req user (some m) = do
  require (not (m.content_type == k.msg_revoke_notification)) err_msg_already_revoke
  role ← revoke_role k config sv op_user_id req user m
  ok (user, m, role)

-- Everything before the database is changed.
unfoldable pub authorize :
    Constants → Config → RevokeServices → Bytes → RevokeReq → Result (UserInfo × MsgData × ℕ)
unfolding check_revoke_args authorize_found
authorize k config sv op_user_id req = do
  check_revoke_args req
  check_access_v3 config op_user_id req.user_id
  user ← sv.get_user_info req.user_id
  found ← sv.get_msg_by_seq req.user_id req.conversation_id req.seq
  authorize_found k config sv op_user_id req user found

-- The flag in the tips: the managers alone, if there are any, and the IM admins if there are none.
abbrev pub admin_flag : Bytes → List Bytes → List Bytes → Bool
admin_flag id [] admins = contains bytes_discrete id admins
admin_flag id (a ∷ managers) admins = contains bytes_discrete id (a ∷ managers)

abbrev pub recv_id_of : SessionType → MsgData → Bytes
recv_id_of super_group_chat_type m = m.group_id
recv_id_of _ m = m.recv_id

abbrev pub model_of : RevokeServices → RevokeReq → UserInfo → ℕ → RevokeModel
model_of sv req user role = record {
  role = role;
  user_id = req.user_id;
  nickname = user.nickname;
  time = sv.now;
}

abbrev pub tips_of : Config → RevokeServices → Bytes → RevokeReq → MsgData → RevokeMsgTips
tips_of config sv op_user_id req m = record {
  revoker_user_id = op_user_id;
  client_msg_id = m.client_msg_id;
  revoke_time = sv.now;
  seq = req.seq;
  session_type = m.session_type;
  conversation_id = req.conversation_id;
  is_admin_revoke = admin_flag op_user_id config.manager config.im_admin;
}

-- The change, the notification and the callback; the first error ends it.
unfoldable pub carry_out :
    Config
    → RevokeServices
    → Bytes
    → RevokeReq
    → UserInfo × MsgData × ℕ
    → List RevokeEffect × Result (Unit {0})
carry_out config sv op_user_id req (user, m, role) =
    let change = revoked req.conversation_id req.seq (model_of sv req user role) in
    let notice =
      notified req.user_id (recv_id_of m.session_type m) (tips_of config sv op_user_id req m) in
    elim sv.revoke_answer [
      | err e ↦ ([], err e)
      | ok u ↦ elim sv.notification_answer [
        | err e ↦ (change ∷ [], err e)
        | ok u' ↦ (change ∷ notice ∷ [], sv.callback_after_revoke_msg)
      ]
    ]

abbrev pub if_authorized :
    Result (UserInfo × MsgData × ℕ)
    → (UserInfo × MsgData × ℕ → List RevokeEffect × Result (Unit {0}))
    → List RevokeEffect × Result (Unit {0})
if_authorized (err e) k = ([], err e)
if_authorized (ok a) k = k a

unfoldable pub revoke_msg :
    Constants → Config → RevokeServices → Bytes → RevokeReq → List RevokeEffect × Result (Unit {0})
unfolding authorize carry_out
revoke_msg k config sv op_user_id req =
    if_authorized (authorize k config sv op_user_id req) (carry_out config sv op_user_id req)
