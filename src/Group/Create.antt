-- ===== src/Group/Create.antt =====
-- Creating a group: GenGroupID and CreateGroup of internal/rpc/group/group.go, Pb2DBGroupInfo of
-- pkg/common/convert/group.go. Of the tips the model keeps the group and the number of members that they
-- tell; the notifications of a super group, sent concurrently, are one entry.
pub mod Laws
pub mod Entry
use open_im_server.Base.{
  ℕ, zero, suc, ◌+◌, ◌==◌, ◌%◌, ◌^◌, Bool, true, false, not, ◌&&◌, ◌||◌, Bytes, bytes_discrete,
  List, [], ◌∷◌, ◌++◌, map, contains, length, if◌then◌else◌, Error, err_args, err_data,
  err_group_id_existed, err_user_id_not_found, is_record_not_found, Result, ok, err, ◌>>=◌, ◌>>◌,
  require,
}
use open_im_server.Auth.Access.{check_access_v3}
use open_im_server.Group.Model.{
  GroupModel, GroupMemberModel, Db, GroupServices, group_created_notification,
  super_group_notification,
}
use open_im_server.Group.Db.{take_group, create_group_rows}
use open_im_server.Group.Outcome.{Steps, did, asked, ◌next◌, Outcome, guarded, committed}
use open_im_server.Group.People.{is_empty, key_set, get_users_info, callback_join}
use open_im_server.Group.Invite.{callback_joins}

pub record CreateReq : Type 0 where
  pub member_user_ids : List Bytes
  pub admin_user_ids : List Bytes
  pub owner_user_id : Bytes
  -- sdkws.GroupInfo, with the fields of a row
  pub group_info : GroupModel

-- Pb2DBGroupInfo with the identifier that is found.
abbrev pub group_row : GroupServices → GroupModel → Bytes → GroupModel
group_row sv g group_id = record {
  group_id = group_id;
  group_name = g.group_name;
  notification = g.notification;
  introduction = g.introduction;
  face_url = g.face_url;
  create_time = sv.now;
  ex = g.ex;
  status = g.status;
  creator_user_id = g.creator_user_id;
  group_type = g.group_type;
  need_verification = g.need_verification;
  look_member_info = g.look_member_info;
  apply_member_friend = g.apply_member_friend;
  notification_update_time = g.notification_update_time;
  notification_user_id = g.notification_user_id;
}

-- An identifier that is given must be free.
abbrev pub free_id : Bytes → Result GroupModel → Result Bytes
free_id group_id (ok g) = err err_group_id_existed
free_id group_id (err e) = if is_record_not_found e then ok group_id else err e

abbrev pub free_or : Bytes → Result GroupModel → Result Bytes → Result Bytes
free_or group_id (ok g) rest = rest
free_or group_id (err e) rest = if is_record_not_found e then ok group_id else err e

-- The loop of ten rounds, from round i on.
unfoldable pub try_ids : GroupServices → Db → ℕ → ℕ → Result Bytes
try_ids sv db i zero = err err_data
try_ids sv db i (suc n) =
    let rest = try_ids sv db (i + 1) n in
    free_or (sv.random_group_id i) (take_group sv (sv.random_group_id i) db) rest

unfoldable pub gen_group_id : GroupServices → Bytes → Db → Result Bytes
unfolding try_ids
gen_group_id sv group_id db =
    if is_empty group_id then try_ids sv db 0 10 else free_id group_id (take_group sv group_id db)

-- `userIDs`: the members to be, and the one who acts.
abbrev pub all_user_ids : GroupServices → CreateReq → List Bytes
all_user_ids sv req =
    let ids = (req.member_user_ids ++ req.admin_user_ids) ++ req.owner_user_id ∷ [] in
    if contains bytes_discrete sv.op_user_id ids then ids else ids ++ sv.op_user_id ∷ []

abbrev pub first_row : GroupServices → Bytes → ℕ → Bytes → GroupMemberModel
first_row sv group_id role user_id = record {
  group_id = group_id;
  user_id = user_id;
  nickname = [];
  face_url = [];
  role_level = role;
  join_time = sv.now;
  join_source = sv.k.join_by_invitation;
  inviter_user_id = sv.op_user_id;
  operator_user_id = sv.op_user_id;
  mute_end_time = 0;
  ex = [];
}

-- The rows of `joinGroup`, before the webhook: the owner, the admins, the others.
abbrev pub first_rows : GroupServices → CreateReq → Bytes → List GroupMemberModel
first_rows sv req group_id =
    first_row sv group_id sv.k.group_owner req.owner_user_id
    ∷ (map (first_row sv group_id sv.k.group_admin) req.admin_user_ids
        ++ map (first_row sv group_id sv.k.group_ordinary_users) req.member_user_ids)

unfoldable pub check_create : GroupServices → CreateReq → Result (Unit {0})
unfolding check_access_v3 get_users_info
check_create sv req = do
  require (req.group_info.group_type == sv.k.working_group) err_args
  require (not (is_empty req.owner_user_id)) err_args
  check_access_v3 sv.config sv.op_user_id req.owner_user_id
  require (not (sv.duplicate (all_user_ids sv req))) err_args
  users ← get_users_info sv (all_user_ids sv req)
  require (length (key_set (map (λ u. u.user_id) users)) == length (all_user_ids sv req))
      err_user_id_not_found

-- The rows to insert.
unfoldable pub plan_create :
    GroupServices → CreateReq → Db → Result (GroupModel × List GroupMemberModel)
unfolding check_create gen_group_id
plan_create sv req db = do
  check_create sv req
  info ← sv.callback_before_create_group req.group_info
  group_id ← gen_group_id sv info.group_id db
  members ← callback_joins sv info.ex (first_rows sv req group_id)
  ok (group_row sv info group_id, members)

abbrev pub created_steps : GroupServices → CreateReq → GroupModel → Steps
created_steps sv req group =
    if group.group_type == sv.k.super_group
    then did (super_group_notification (all_user_ids sv req))
    else did (group_created_notification group.group_id (length (all_user_ids sv req) % 2 ^ 32))

unfoldable pub create_group : GroupServices → CreateReq → Db → Outcome
unfolding plan_create create_group_rows
create_group sv req db = guarded db (plan_create sv req db) λ plan.
    committed db (create_group_rows sv (plan.0 ∷ []) plan.1 db)
      (created_steps sv req plan.0 next asked sv.callback_after_create_group)
