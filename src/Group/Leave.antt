-- ===== src/Group/Leave.antt =====
-- Leaving a group: KickGroupMember, QuitGroup and deleteMemberAndSetConversationSeq of
-- internal/rpc/group/group.go. The tips of a notification are the group and the users that it is about.
pub mod Rows
pub mod Laws
pub mod Owner
pub mod Entry
use open_im_server.Base.{
  ℕ, ◌==◌, Bool, true, false, not, ◌||◌, Bytes, bytes_discrete, List, [], ◌∷◌, ◌++◌, Option, none,
  some, contains, dec_true, if◌then◌else◌, err_args, err_no_permission, err_user_id_not_found,
  Result, ok, err, ◌>>=◌, ◌>>◌, require,
}
use open_im_server.Auth.Access.{check_access_v3}
use open_im_server.Processor.Conversation.{
  super_group_chat_type, get_conversation_id_by_session_type,
}
use open_im_server.Group.Model.{
  GroupModel, GroupMemberModel, Db, GroupServices, GroupConstants, member_kicked_notification,
  member_quit_notification, set_conversation_max_seq,
}
use open_im_server.Group.Db.{
  take_group, take_group_member, find_group_members, find_group_member_num,
  get_group_role_level_member_ids, delete_group_member,
}
use open_im_server.Group.Outcome.{Steps, did, asked, ◌next◌, Outcome, guarded, committed}
use open_im_server.Group.People.{
  is_empty, no_ids, is_manager_op, populate_group_member, is_owner_or_admin,
}

pub record KickReq : Type 0 where
  pub group_id : Bytes
  pub kicked_user_ids : List Bytes

pub record QuitReq : Type 0 where
  pub group_id : Bytes
  pub user_id : Bytes

abbrev pub last_or : Option GroupMemberModel → Option GroupMemberModel → Option GroupMemberModel
last_or none o = o
last_or (some m) o = some m

-- `memberMap[id]`: a later member replaces an earlier one.
abbrev pub member_of : Bytes → List GroupMemberModel → Option GroupMemberModel
member_of id [] = none
member_of id (m ∷ ms) =
    last_or (member_of id ms) (if dec_true (bytes_discrete m.user_id id) then some m else none)

-- The `switch` on the role of the member that acts.
abbrev pub check_outranks : GroupConstants → GroupMemberModel → GroupMemberModel → Result (Unit {0})
check_outranks k op_member member =
    if op_member.role_level == k.group_owner
    then ok tt
    else if op_member.role_level == k.group_admin
    then require (not (is_owner_or_admin k member.role_level)) err_no_permission
    else err err_no_permission

abbrev pub check_operator :
    GroupConstants → Option GroupMemberModel → GroupMemberModel → Result (Unit {0})
check_operator k none member = err err_no_permission
check_operator k (some op_member) member = check_outranks k op_member member

abbrev pub check_kick :
    GroupServices → Option GroupMemberModel → Option GroupMemberModel → Result (Unit {0})
check_kick sv op_member none = err err_user_id_not_found
check_kick sv op_member (some member) =
    if is_manager_op sv then ok tt else check_operator sv.k op_member member

-- The loop over the users to remove.
unfoldable pub check_kicks : GroupServices → List GroupMemberModel → List Bytes → Result (Unit {0})
check_kicks sv members [] = ok tt
check_kicks sv members (id ∷ ids) = do
  check_kick sv (member_of sv.op_user_id members) (member_of id members)
  check_kicks sv members ids

unfoldable pub check_kick_args : GroupServices → KickReq → Result (Unit {0})
check_kick_args sv req = do
  require (not (no_ids req.kicked_user_ids)) err_args
  require (not (sv.duplicate req.kicked_user_ids)) err_args
  require (not (contains bytes_discrete sv.op_user_id req.kicked_user_ids)) err_args

-- Everything before the members are deleted.
unfoldable pub check_kick_req : GroupServices → KickReq → Db → Result (Unit {0})
unfolding check_kicks check_kick_args find_group_members populate_group_member find_group_member_num
    get_group_role_level_member_ids
check_kick_req sv req db = do
  group ← take_group sv req.group_id db
  checked ← check_kick_args sv req
  members ← find_group_members sv req.group_id (req.kicked_user_ids ++ sv.op_user_id ∷ []) db
  populated ← populate_group_member sv members
  allowed ← check_kicks sv populated req.kicked_user_ids
  num ← find_group_member_num sv req.group_id db
  owner_user_ids ← get_group_role_level_member_ids sv req.group_id sv.k.group_owner db
  ok tt

abbrev pub set_max_seq : GroupServices → List Bytes → Bytes → Result ℕ → Steps
set_max_seq sv user_ids conversation_id (err e) = ([], err e)
set_max_seq sv user_ids conversation_id (ok max_seq) = (
  set_conversation_max_seq user_ids conversation_id max_seq ∷ [],
  sv.set_conversation_max_seq_answer,
)

unfoldable pub delete_member_and_set_conversation_seq : GroupServices → Bytes → List Bytes → Steps
unfolding get_conversation_id_by_session_type
delete_member_and_set_conversation_seq sv group_id user_ids =
    let conversation_id =
      get_conversation_id_by_session_type super_group_chat_type (group_id ∷ []) in
    set_max_seq sv user_ids conversation_id (sv.get_conversation_max_seq conversation_id)

unfoldable pub kick_group_member : GroupServices → KickReq → Db → Outcome
unfolding check_kick_req delete_member_and_set_conversation_seq
kick_group_member sv req db = guarded db (check_kick_req sv req db) λ checked.
    committed db (delete_group_member sv req.group_id req.kicked_user_ids db) (
      did (member_kicked_notification req.group_id req.kicked_user_ids)
      next delete_member_and_set_conversation_seq sv req.group_id req.kicked_user_ids
      next asked sv.callback_kill_group_member)

-- The user who quits: without one in the request, the one who acts.
abbrev pub quitting_user : GroupServices → QuitReq → Bytes
quitting_user sv req = if is_empty req.user_id then sv.op_user_id else req.user_id

unfoldable pub check_quit_req : GroupServices → QuitReq → Db → Result (List GroupMemberModel)
unfolding check_access_v3 populate_group_member
check_quit_req sv req db = do
  if is_empty req.user_id then ok tt else check_access_v3 sv.config sv.op_user_id req.user_id
  member ← take_group_member sv req.group_id (quitting_user sv req) db
  require (not (member.role_level == sv.k.group_owner)) err_no_permission
  populate_group_member sv (member ∷ [])

unfoldable pub quit_group : GroupServices → QuitReq → Db → Outcome
unfolding check_quit_req delete_member_and_set_conversation_seq
quit_group sv req db =
    let user_id = quitting_user sv req in
    guarded db (check_quit_req sv req db) λ populated.
      committed db (delete_group_member sv req.group_id (user_id ∷ []) db) (
        did (member_quit_notification req.group_id user_id)
        next delete_member_and_set_conversation_seq sv req.group_id (user_id ∷ [])
        next asked sv.callback_quit_group)
