-- ===== src/Group/Join.antt =====
-- Entering a group: JoinGroup of internal/rpc/group/group.go.
pub mod Laws
pub mod Entry
use open_im_server.Base.{
  ℕ, ◌==◌, Bool, true, false, not, ◌&&◌, ◌||◌, Bytes, List, [], ◌∷◌, map, Option, none, some,
  length, if◌then◌else◌, Error, err_args, err_no_permission, err_record_not_found,
  err_dismissed_already, err_group_request_handled, is_record_not_found, Result, ok, err, ◌>>=◌,
  ◌>>◌, require,
}
use open_im_server.Group.Model.{
  GroupModel, GroupMemberModel, GroupRequestModel, UserInfo, Db, GroupServices, GroupEffect,
  join_group_application_notification, member_invited_notification, member_enter_notification,
  group_application_accepted_notification, group_application_rejected_notification,
  group_chat_first_create_conversation,
}
use open_im_server.Group.Db.{
  take_group, take_group_member, take_group_request, create_group_rows, create_group_request,
  handler_group_request,
}
use open_im_server.Group.Outcome.{Steps, did, asked, ◌next◌, Outcome, failed, guarded, committed}
use open_im_server.Group.People.{
  is_empty, no_ids, is_manager_op, get_users_info, get_user_info, populate_group_member,
  callback_join, is_owner_or_admin,
}

pub record JoinReq : Type 0 where
  pub group_id : Bytes
  pub req_message : Bytes
  pub join_source : ℕ
  pub inviter_user_id : Bytes
  pub ex : Bytes

abbrev pub conversation_created : GroupServices → Bytes → List Bytes → Steps
conversation_created sv group_id user_ids = (
  group_chat_first_create_conversation group_id user_ids ∷ [],
  sv.group_chat_first_create_conversation_answer,
)

-- `TakeGroupMember` has to fail, and with a missing record.
abbrev pub check_not_member : Result GroupMemberModel → Result (Unit {0})
check_not_member (ok m) = err err_args
check_not_member (err e) = if is_record_not_found e then ok tt else err e

abbrev pub new_member : GroupServices → JoinReq → GroupModel → UserInfo → GroupMemberModel
new_member sv req group user = record {
  group_id = group.group_id;
  user_id = user.user_id;
  nickname = [];
  face_url = [];
  role_level = sv.k.group_ordinary_users;
  join_time = sv.now;
  join_source = 0;
  inviter_user_id = req.inviter_user_id;
  operator_user_id = sv.op_user_id;
  mute_end_time = 0;
  ex = [];
}

abbrev pub join_request : GroupServices → JoinReq → GroupRequestModel
join_request sv req = record {
  user_id = req.inviter_user_id;
  group_id = req.group_id;
  handle_result = 0;
  req_msg = req.req_message;
  handled_msg = [];
  req_time = sv.now;
  handle_user_id = [];
  handled_time = 0;
  join_source = req.join_source;
  inviter_user_id = [];
  ex = req.ex;
}

-- Who joins what, when nothing stands against it.
unfoldable pub check_join_req : GroupServices → JoinReq → Db → Result (UserInfo × GroupModel)
unfolding get_user_info
check_join_req sv req db = do
  user ← get_user_info sv req.inviter_user_id
  group ← take_group sv req.group_id db
  require (not (group.status == sv.k.group_status_dismissed)) err_dismissed_already
  sv.callback_apply_join_group_before
  check_not_member (take_group_member sv req.group_id req.inviter_user_id db)
  ok (user, group)

unfoldable pub join_directly : GroupServices → JoinReq → GroupModel → UserInfo → Db → Outcome
unfolding create_group_rows
join_directly sv req group user db =
    guarded db (callback_join sv group.ex (new_member sv req group user)) λ member.
      committed db (create_group_rows sv [] (member ∷ []) db) (
        conversation_created sv req.group_id (req.inviter_user_id ∷ [])
        next did (member_enter_notification req.group_id req.inviter_user_id)
        next asked sv.callback_after_join_group)

unfoldable pub join_group : GroupServices → JoinReq → Db → Outcome
unfolding check_join_req join_directly create_group_request
join_group sv req db = guarded db (check_join_req sv req db) λ found.
    if found.1.need_verification == sv.k.directly
    then join_directly sv req found.1 found.0 db
    else committed db (create_group_request sv (join_request sv req ∷ []) db)
        (did (join_group_application_notification req.group_id req.inviter_user_id))
