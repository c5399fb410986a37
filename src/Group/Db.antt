-- ===== src/Group/Db.antt =====
-- The tables of the group service: the queries of pkg/common/db/mgo/{group,group_member,group_request}.go, the
-- reads of pkg/common/db/cache/group.go, which stand for the collection that they cache, and the writes of
-- pkg/common/db/controller/group.go. A transaction that fails leaves the tables as they are; what the
-- writes drop from the cache is left out.
pub mod Laws
use open_im_server.Base.{
  ℕ, ◌%◌, ◌^◌, Bool, true, false, ◌&&◌, Bytes, bytes_discrete, List, [], ◌∷◌, map, Option, none,
  some, contains, dec_true, if◌then◌else◌, err_record_not_found, is_record_not_found, Result, ok,
  err, ◌>>=◌,
}
use open_im_server.Group.Driver.{Driver}
use open_im_server.Group.Rows.{
  with_groups, with_members, with_requests, set_role_level, set_status, set_handled,
}
use open_im_server.Group.Model.{
  GroupModel, GroupMemberModel, GroupRequestModel, Db, GroupServices, is_group, is_member,
  is_request, has_role,
}

-- Reads.

abbrev pub take_group : GroupServices → Bytes → Db → Result GroupModel
take_group sv id db = sv.groups.find_one (is_group id) db.groups

abbrev pub take_group_member : GroupServices → Bytes → Bytes → Db → Result GroupMemberModel
take_group_member sv group_id user_id db =
    sv.members.find_one (is_member (group_id, user_id)) db.members

abbrev pub take_group_request : GroupServices → Bytes → Bytes → Db → Result GroupRequestModel
take_group_request sv group_id user_id db =
    sv.requests.find_one (is_request (group_id, user_id)) db.requests

-- A round of batchGetCache2: a member that is not found is left out.
abbrev pub add_found :
    Result GroupMemberModel → Result (List GroupMemberModel) → Result (List GroupMemberModel)
add_found (ok m) rest = do ms ← rest; ok (m ∷ ms)
add_found (err e) rest = if is_record_not_found e then rest else err e

unfoldable pub find_group_members :
    GroupServices → Bytes → List Bytes → Db → Result (List GroupMemberModel)
find_group_members sv group_id [] db = ok []
find_group_members sv group_id (id ∷ ids) db =
    add_found (take_group_member sv group_id id db) (find_group_members sv group_id ids db)

abbrev pub in_group : Bytes → GroupMemberModel → Bool
in_group group_id m = dec_true (bytes_discrete m.group_id group_id)

unfoldable pub find_group_member_user_id : GroupServices → Bytes → Db → Result (List Bytes)
find_group_member_user_id sv group_id db = do
  ms ← sv.members.find (in_group group_id) db.members
  ok (map (λ m. m.user_id) ms)

-- `uint32(num)`
unfoldable pub find_group_member_num : GroupServices → Bytes → Db → Result ℕ
find_group_member_num sv group_id db = do
  num ← sv.members.count_documents (in_group group_id) db.members
  ok (num % 2 ^ 32)

unfoldable pub get_group_role_level_member_ids :
    GroupServices → Bytes → ℕ → Db → Result (List Bytes)
get_group_role_level_member_ids sv group_id role db = do
  ms ← sv.members.find (has_role group_id role) db.members
  ok (map (λ m. m.user_id) ms)

abbrev pub head_or_not_found : List GroupMemberModel → Result GroupMemberModel
head_or_not_found [] = err err_record_not_found
head_or_not_found (m ∷ ms) = ok m

unfoldable pub take_group_owner : GroupServices → Bytes → Db → Result GroupMemberModel
unfolding find_group_members get_group_role_level_member_ids
take_group_owner sv group_id db = do
  ids ← get_group_role_level_member_ids sv group_id sv.k.group_owner db
  ms ← find_group_members sv group_id ids db
  head_or_not_found ms

-- Writes.

-- GroupMemberMgo.Update
abbrev pub update_group_member :
    GroupServices → Bytes → Bytes → (GroupMemberModel → GroupMemberModel) → Db → Result Db
update_group_member sv group_id user_id f db = do
  ms ← sv.members.update_one (is_member (group_id, user_id)) f db.members
  ok (with_members db ms)

-- GroupMemberMgo.Delete: an empty list of users is the whole group.
abbrev pub delete_filter : Bytes → List Bytes → GroupMemberModel → Bool
delete_filter group_id [] m = in_group group_id m
delete_filter group_id (id ∷ ids) m =
    in_group group_id m && contains bytes_discrete m.user_id (id ∷ ids)

abbrev pub delete_group_member : GroupServices → Bytes → List Bytes → Db → Result Db
delete_group_member sv group_id user_ids db = do
  ms ← sv.members.delete_many (delete_filter group_id user_ids) db.members
  ok (with_members db ms)

abbrev pub create_groups : GroupServices → List GroupModel → Db → Result Db
create_groups sv [] db = ok db
create_groups sv (g ∷ gs) db = do
  rows ← sv.groups.insert_many (g ∷ gs) db.groups
  ok (with_groups db rows)

abbrev pub create_members : GroupServices → List GroupMemberModel → Db → Result Db
create_members sv [] db = ok db
create_members sv (m ∷ ms) db = do
  rows ← sv.members.insert_many (m ∷ ms) db.members
  ok (with_members db rows)

-- `CreateGroup` of the controller; with nothing to create it answers at once.
unfoldable pub create_group_rows :
    GroupServices → List GroupModel → List GroupMemberModel → Db → Result Db
create_group_rows sv groups members db = create_groups sv groups db >>= create_members sv members

-- `UpdateGroup` with UpdateGroupStatusMap
abbrev pub update_group_status : GroupServices → Bytes → ℕ → Db → Result Db
update_group_status sv group_id status db = do
  gs ← sv.groups.update_one (is_group group_id) (set_status status) db.groups
  ok (with_groups db gs)

unfoldable pub dismiss_group_rows : GroupServices → Bytes → Bool → Db → Result Db
unfolding find_group_member_user_id
dismiss_group_rows sv group_id false db =
    update_group_status sv group_id sv.k.group_status_dismissed db
dismiss_group_rows sv group_id true db = do
  dismissed ← update_group_status sv group_id sv.k.group_status_dismissed db
  user_ids ← find_group_member_user_id sv group_id db
  delete_group_member sv group_id [] dismissed

abbrev pub create_member : GroupServices → Option GroupMemberModel → Db → Result Db
create_member sv none db = ok db
create_member sv (some m) db = create_members sv (m ∷ []) db

unfoldable pub handler_group_request :
    GroupServices → Bytes → Bytes → ℕ → Option GroupMemberModel → Db → Result Db
handler_group_request sv group_id user_id handle_result member db = do
  rs ←
      sv.requests.update_one (is_request (group_id, user_id)) (set_handled handle_result)
        db.requests
  create_member sv member (with_requests db rs)

unfoldable pub transfer_group_owner_rows :
    GroupServices → Bytes → Bytes → Bytes → ℕ → Db → Result Db
transfer_group_owner_rows sv group_id old_owner_user_id new_owner_user_id role_level db = do
  lowered ← update_group_member sv group_id old_owner_user_id (set_role_level role_level) db
  update_group_member sv group_id new_owner_user_id (set_role_level sv.k.group_owner) lowered

unfoldable pub delete_group_requests : GroupServices → List GroupRequestModel → Db → Result Db
delete_group_requests sv [] db = ok db
delete_group_requests sv (r ∷ rs) db = do
  rows ← sv.requests.delete_one (is_request (r.group_id, r.user_id)) db.requests
  delete_group_requests sv rs (with_requests db rows)

unfoldable pub create_group_request : GroupServices → List GroupRequestModel → Db → Result Db
unfolding delete_group_requests
create_group_request sv requests db = do
  cleared ← delete_group_requests sv requests db
  rows ← sv.requests.insert_many requests cleared.requests
  ok (with_requests cleared rows)
