-- ===== src/Group/Answer.antt =====
-- Answering a join request: GroupApplicationResponse of internal/rpc/group/group.go.
pub mod Laws
pub mod Once
pub mod Entry
use open_im_server.Base.{
  ℕ, ◌==◌, Bool, true, false, not, ◌&&◌, ◌||◌, Bytes, List, [], ◌∷◌, map, Option, none, some,
  length, if◌then◌else◌, Error, err_args, err_no_permission, err_record_not_found,
  err_dismissed_already, err_group_request_handled, is_record_not_found, Result, ok, err, ◌>>=◌,
  ◌>>◌, require,
}
use open_im_server.Group.Model.{
  GroupModel, GroupMemberModel, GroupRequestModel, UserInfo, Db, GroupServices, GroupEffect,
  join_group_application_notification, member_invited_notification, member_enter_notification,
  group_application_accepted_notification, group_application_rejected_notification,
  group_chat_first_create_conversation,
}
use open_im_server.Group.Db.{
  take_group, take_group_member, take_group_request, create_group_rows, create_group_request,
  handler_group_request,
}
use open_im_server.Group.Outcome.{Steps, did, asked, ◌next◌, Outcome, failed, guarded, committed}
use open_im_server.Group.People.{
  is_empty, no_ids, is_manager_op, get_users_info, get_user_info, populate_group_member,
  callback_join, check_group_admin, is_owner_or_admin,
}
use open_im_server.Group.Join.{conversation_created}

pub record ApplicationReq : Type 0 where
  pub group_id : Bytes
  pub from_user_id : Bytes
  pub handle_result : ℕ

-- What is found for an answer: the group, the request, and whether the user is a member.
pub record Application : Type 0 where
  pub group : GroupModel
  pub request : GroupRequestModel
  pub in_group : Bool

abbrev pub member_exists : Result GroupMemberModel → Result Bool
member_exists (ok m) = ok true
member_exists (err e) = if is_record_not_found e then ok false else err e

unfoldable pub check_application : GroupServices → ApplicationReq → Db → Result Application
unfolding check_group_admin
check_application sv req db = do
  require
      (req.handle_result == sv.k.group_response_agree
        || req.handle_result == sv.k.group_response_refuse)
      err_args
  check_group_admin sv req.group_id db
  group ← take_group sv req.group_id db
  request ← take_group_request sv req.group_id req.from_user_id db
  require (request.handle_result == 0) err_group_request_handled
  present ← member_exists (take_group_member sv req.group_id req.from_user_id db)
  user ← sv.get_public_user_info req.from_user_id
  ok record { group = group; request = request; in_group = present }

abbrev pub accepted_member : GroupServices → ApplicationReq → GroupRequestModel → GroupMemberModel
accepted_member sv req request = record {
  group_id = req.group_id;
  user_id = req.from_user_id;
  nickname = [];
  face_url = [];
  role_level = sv.k.group_ordinary_users;
  join_time = sv.now;
  join_source = request.join_source;
  inviter_user_id = request.inviter_user_id;
  operator_user_id = sv.op_user_id;
  mute_end_time = 0;
  ex = request.ex;
}

-- The new member, if there is one.
abbrev pub member_to_add :
    GroupServices → ApplicationReq → Application → Result (Option GroupMemberModel)
member_to_add sv req app =
    if not app.in_group && req.handle_result == sv.k.group_response_agree
    then (do
      member ← callback_join sv app.group.ex (accepted_member sv req app.request)
      ok (some member))
    else ok none

abbrev pub entered : ApplicationReq → Option GroupMemberModel → Steps
entered req none = ([], ok tt)
entered req (some m) = did (member_enter_notification req.group_id req.from_user_id)

unfoldable pub after_answer : GroupServices → ApplicationReq → Option GroupMemberModel → Steps
after_answer sv req member =
    if req.handle_result == sv.k.group_response_agree
    then conversation_created sv req.group_id (req.from_user_id ∷ [])
      next did (group_application_accepted_notification req.group_id req.from_user_id)
      next entered req member
    else if req.handle_result == sv.k.group_response_refuse
    then did (group_application_rejected_notification req.group_id req.from_user_id)
    else ([], ok tt)

unfoldable pub group_application_response : GroupServices → ApplicationReq → Db → Outcome
unfolding check_application handler_group_request after_answer
group_application_response sv req db = guarded db (check_application sv req db) λ app.
    guarded db (member_to_add sv req app) λ member.
      committed db
        (handler_group_request sv req.group_id req.from_user_id req.handle_result member db)
        (after_answer sv req member)
