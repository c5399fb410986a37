-- ===== src/Group/Invite.antt =====
-- Inviting users to a group: InviteUserToGroup of internal/rpc/group/group.go.
pub mod Laws
pub mod Entry
use open_im_server.Base.{
  ℕ, ◌==◌, Bool, true, false, not, ◌&&◌, ◌||◌, Bytes, List, [], ◌∷◌, map, Option, none, some,
  length, if◌then◌else◌, Error, err_args, err_no_permission, err_record_not_found,
  err_dismissed_already, err_group_request_handled, is_record_not_found, Result, ok, err, ◌>>=◌,
  ◌>>◌, require,
}
use open_im_server.Group.Model.{
  GroupModel, GroupMemberModel, GroupRequestModel, UserInfo, Db, GroupServices, GroupEffect,
  join_group_application_notification, member_invited_notification, member_enter_notification,
  group_application_accepted_notification, group_application_rejected_notification,
  group_chat_first_create_conversation,
}
use open_im_server.Group.Db.{
  take_group, take_group_member, take_group_request, create_group_rows, create_group_request,
  handler_group_request,
}
use open_im_server.Group.Outcome.{Steps, did, asked, ◌next◌, Outcome, failed, guarded, committed}
use open_im_server.Group.People.{
  is_empty, key_set, no_ids, is_manager_op, get_users_info, get_user_info, populate_group_member,
  callback_join, is_owner_or_admin,
}
use open_im_server.Group.Join.{conversation_created}

pub record InviteReq : Type 0 where
  pub group_id : Bytes
  pub invited_user_ids : List Bytes

-- The one who acts, without an identifier for an app manager, and its role.
abbrev pub inviter : GroupServices → Bytes → Db → Result (Bytes × Option ℕ)
inviter sv group_id db = if is_manager_op sv then ok ([], none) else do
  member ← take_group_member sv group_id sv.op_user_id db
  populated ← populate_group_member sv (member ∷ [])
  ok (sv.op_user_id, some member.role_level)

abbrev pub role_may_add : GroupServices → Option ℕ → Bool
role_may_add sv none = true
role_may_add sv (some role) = is_owner_or_admin sv.k role

unfoldable pub check_invite_req :
    GroupServices → InviteReq → Db → Result (GroupModel × Bytes × Option ℕ)
unfolding get_users_info populate_group_member
check_invite_req sv req db = do
  require (not (no_ids req.invited_user_ids)) err_args
  require (not (sv.duplicate req.invited_user_ids)) err_args
  group ← take_group sv req.group_id db
  require (not (group.status == sv.k.group_status_dismissed)) err_dismissed_already
  users ← get_users_info sv req.invited_user_ids
  require (length (key_set (map (λ u. u.user_id) users)) == length req.invited_user_ids)
      err_record_not_found
  op ← inviter sv req.group_id db
  sv.callback_before_invite_user_to_group
  ok (group, op.0, op.1)

abbrev pub invite_request : GroupServices → Bytes → Bytes → Bytes → GroupRequestModel
invite_request sv group_id op_user_id user_id = record {
  user_id = user_id;
  group_id = group_id;
  handle_result = 0;
  req_msg = [];
  handled_msg = [];
  req_time = sv.now;
  handle_user_id = [];
  handled_time = 0;
  join_source = sv.k.join_by_invitation;
  inviter_user_id = op_user_id;
  ex = [];
}

abbrev pub invited_member : GroupServices → Bytes → Bytes → Bytes → GroupMemberModel
invited_member sv group_id op_user_id user_id = record {
  group_id = group_id;
  user_id = user_id;
  nickname = [];
  face_url = [];
  role_level = sv.k.group_ordinary_users;
  join_time = sv.now;
  join_source = sv.k.join_by_invitation;
  inviter_user_id = op_user_id;
  operator_user_id = op_user_id;
  mute_end_time = 0;
  ex = [];
}

-- The loop over CallbackBeforeMemberJoinGroup.
abbrev pub callback_joins :
    GroupServices → Bytes → List GroupMemberModel → Result (List GroupMemberModel)
callback_joins sv group_ex [] = ok []
callback_joins sv group_ex (m ∷ ms) = do
  member ← callback_join sv group_ex m
  rest ← callback_joins sv group_ex ms
  ok (member ∷ rest)

abbrev pub request_notifications : Bytes → Bytes → List Bytes → List GroupEffect
request_notifications group_id op_user_id [] = []
request_notifications group_id op_user_id (id ∷ ids) =
    join_group_application_notification group_id op_user_id
    ∷ request_notifications group_id op_user_id ids

unfoldable pub add_invited : GroupServices → InviteReq → GroupModel → Bytes → Db → Outcome
unfolding create_group_rows
add_invited sv req group op_user_id db =
    let members = map (invited_member sv req.group_id op_user_id) req.invited_user_ids in
    guarded db (callback_joins sv group.ex members) λ replaced.
      committed db (create_group_rows sv [] replaced db) (
        conversation_created sv req.group_id req.invited_user_ids
        next did (member_invited_notification req.group_id req.invited_user_ids))

unfoldable pub invite_user_to_group : GroupServices → InviteReq → Db → Outcome
unfolding check_invite_req create_group_request add_invited
invite_user_to_group sv req db = guarded db (check_invite_req sv req db) λ found.
    let (group, op_user_id, role) = found in
    if group.need_verification == sv.k.all_need_verification && not (role_may_add sv role)
    then committed db
        (create_group_request sv
          (map (invite_request sv req.group_id op_user_id) req.invited_user_ids) db)
        (request_notifications req.group_id op_user_id req.invited_user_ids, ok tt)
    else add_invited sv req group op_user_id db
