-- ===== src/Group/Rule.antt =====
-- Ruling a group: TransferGroupOwner, DismissGroup, MuteGroupMember, CancelMuteGroupMember, MuteGroup and
-- CancelMuteGroup of internal/rpc/group/group.go.
pub mod Laws
pub mod Swap
pub mod Transfer
pub mod Kept
pub mod Mute
pub mod Status
use open_im_server.Base.{
  ℕ, ◌+◌, ◌*◌, ◌==◌, Bool, true, false, not, ◌&&◌, ◌||◌, Bytes, bytes_discrete, List, [], ◌∷◌, map,
  Option, none, some, dec_true, if◌then◌else◌, err_args, err_no_permission, err_dismissed_already,
  Result, ok, err, ◌>>=◌, ◌>>◌, require,
}
use open_im_server.Group.Model.{
  GroupModel, GroupMemberModel, Db, GroupServices, GroupConstants,
  group_owner_transferred_notification, group_dismissed_notification,
  group_member_muted_notification, group_member_cancel_muted_notification, group_muted_notification,
  group_cancel_muted_notification,
}
use open_im_server.Group.Rows.{set_mute_end_time}
use open_im_server.Group.Db.{
  take_group, take_group_member, take_group_owner, find_group_members, find_group_member_num,
  find_group_member_user_id, update_group_member, update_group_status, dismiss_group_rows,
  transfer_group_owner_rows,
}
use open_im_server.Group.Outcome.{
  Steps, did, asked, ◌next◌, Outcome, guarded, committed, committed_then, with_answer,
}
use open_im_server.Group.People.{no_ids, is_manager_op, populate_group_member, check_group_admin}
use open_im_server.Group.Leave.{member_of}

pub record TransferReq : Type 0 where
  pub group_id : Bytes
  pub old_owner_user_id : Bytes
  pub new_owner_user_id : Bytes

pub record DismissReq : Type 0 where
  pub group_id : Bytes
  pub delete_member : Bool

pub record MuteReq : Type 0 where
  pub group_id : Bytes
  pub user_id : Bytes
  pub muted_seconds : ℕ

-- A nil member is refused.
abbrev pub not_nil : Option GroupMemberModel → Result GroupMemberModel
not_nil none = err err_args
not_nil (some m) = ok m

-- The members of the two users in the request.
unfoldable pub find_two :
    GroupServices → TransferReq → Db → Result (GroupMemberModel × GroupMemberModel)
unfolding find_group_members populate_group_member
find_two sv req db = do
  let ids = req.old_owner_user_id ∷ req.new_owner_user_id ∷ []
  members ← find_group_members sv req.group_id ids db
  populated ← populate_group_member sv members
  require (no_ids (sv.single ids (map (λ m. m.user_id) populated))) err_args
  old_owner ← not_nil (member_of req.old_owner_user_id populated)
  new_owner ← not_nil (member_of req.new_owner_user_id populated)
  ok (old_owner, new_owner)

unfoldable pub check_transfer :
    GroupServices → TransferReq → Db → Result (GroupMemberModel × GroupMemberModel)
unfolding find_two
check_transfer sv req db = do
  group ← take_group sv req.group_id db
  require (not (group.status == sv.k.group_status_dismissed)) err_dismissed_already
  require (not (dec_true (bytes_discrete req.old_owner_user_id req.new_owner_user_id))) err_args
  two ← find_two sv req db
  require
      (is_manager_op sv
        || (dec_true (bytes_discrete sv.op_user_id two.0.user_id)
            && two.0.role_level == sv.k.group_owner))
      err_no_permission
  ok two

unfoldable pub transfer_group_owner : GroupServices → TransferReq → Db → Outcome
unfolding check_transfer transfer_group_owner_rows
transfer_group_owner sv req db = guarded db (check_transfer sv req db) λ two.
    committed db
      (transfer_group_owner_rows sv req.group_id req.old_owner_user_id req.new_owner_user_id
        two.1.role_level db)
      (asked sv.callback_after_transfer_group_owner
        next did (
            group_owner_transferred_notification req.group_id req.old_owner_user_id
              req.new_owner_user_id))

unfoldable pub check_dismiss : GroupServices → DismissReq → Db → Result (Bytes × GroupModel)
unfolding take_group_owner populate_group_member
check_dismiss sv req db = do
  owner ← take_group_owner sv req.group_id db
  require (is_manager_op sv || dec_true (bytes_discrete owner.user_id sv.op_user_id))
      err_no_permission
  populated ← populate_group_member sv (owner ∷ [])
  group ← take_group sv req.group_id db
  require (not (not req.delete_member && group.status == sv.k.group_status_dismissed))
      err_dismissed_already
  ok (owner.user_id, group)

abbrev pub dismissed_steps : GroupServices → DismissReq → Bytes → Db → Steps
dismissed_steps sv req owner_id db =
    if req.delete_member
    then ([], ok tt)
    else with_answer (find_group_member_num sv req.group_id db)
        (λ num. did (group_dismissed_notification req.group_id owner_id))

unfoldable pub dismiss_group : GroupServices → DismissReq → Db → Outcome
unfolding check_dismiss dismiss_group_rows find_group_member_num find_group_member_user_id
dismiss_group sv req db = guarded db (check_dismiss sv req db) λ found.
    committed_then db (dismiss_group_rows sv req.group_id req.delete_member db) λ new.
      dismissed_steps sv req found.0 new
      next with_answer (find_group_member_user_id sv found.1.group_id new)
          (λ members. asked (sv.callback_dismiss_group found.0 members))

-- The `switch` on the role of the member that is muted.
abbrev pub check_mute_roles : GroupConstants → ℕ → ℕ → Result (Unit {0})
check_mute_roles k op_role role =
    if role == k.group_owner
    then err err_no_permission
    else if role == k.group_admin
    then require (op_role == k.group_owner) err_no_permission
    else if role == k.group_ordinary_users
    then require (op_role == k.group_admin || op_role == k.group_owner) err_no_permission
    else ok tt

-- The checks that muting and unmuting a member share.
unfoldable pub check_mute : GroupServices → Bytes → Bytes → Db → Result (Unit {0})
unfolding populate_group_member
check_mute sv group_id user_id db = do
  member ← take_group_member sv group_id user_id db
  populated ← populate_group_member sv (member ∷ [])
  if is_manager_op sv then ok tt else do
    op_member ← take_group_member sv group_id sv.op_user_id db
    check_mute_roles sv.k op_member.role_level member.role_level

unfoldable pub mute_group_member : GroupServices → MuteReq → Db → Outcome
unfolding check_mute
mute_group_member sv req db = guarded db (check_mute sv req.group_id req.user_id db) λ checked.
    committed db
      (update_group_member sv req.group_id req.user_id
        (set_mute_end_time (sv.now + 1000 * req.muted_seconds)) db)
      (did (group_member_muted_notification req.group_id req.user_id req.muted_seconds))

unfoldable pub cancel_mute_group_member : GroupServices → Bytes → Bytes → Db → Outcome
unfolding check_mute
cancel_mute_group_member sv group_id user_id db =
    guarded db (check_mute sv group_id user_id db) λ checked.
      committed db (update_group_member sv group_id user_id (set_mute_end_time 0) db)
        (did (group_member_cancel_muted_notification group_id user_id))

unfoldable pub mute_group : GroupServices → Bytes → Db → Outcome
unfolding check_group_admin
mute_group sv group_id db = guarded db (check_group_admin sv group_id db) λ checked.
    committed db (update_group_status sv group_id sv.k.group_status_muted db)
      (did (group_muted_notification group_id))

unfoldable pub cancel_mute_group : GroupServices → Bytes → Db → Outcome
unfolding check_group_admin
cancel_mute_group sv group_id db = guarded db (check_group_admin sv group_id db) λ checked.
    committed db (update_group_status sv group_id sv.k.group_ok db)
      (did (group_cancel_muted_notification group_id))
