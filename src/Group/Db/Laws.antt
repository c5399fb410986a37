-- ===== src/Group/Db/Laws.antt =====
-- What the reads find and what the writes of the tables leave.
use open_im_server.Base.{
  ◌≡◌, inl, inr, ap, ◌∙◌, true, not, Bytes, bytes_discrete, List, [], ◌∷◌, ◌++◌, Option, some, keep,
  All, is_record_not_found, Result, ok, err, >>=-eq-ok, Bool-cases, arith,
}
use mathlib.Core.List.{append-nil}
use open_im_server.Group.Driver.{DriverLaws, IsUnique, first, set_first}
use open_im_server.Group.Driver.Laws.{first-passes}
use open_im_server.Group.Model.{
  GroupMemberModel, Db, GroupServices, is_group, is_member, is_request,
}
use open_im_server.Group.Rows.{with_members}
use open_im_server.Group.Db.{
  take_group_member, find_group_members, add_found, update_group_member, delete_filter,
  delete_group_member, create_members,
}

-- What the service relies on of its three collections.
pub record TableLaws (sv : GroupServices) : Type 0 where
  pub group_laws : DriverLaws is_group sv.groups
  pub member_laws : DriverLaws is_member sv.members
  pub request_laws : DriverLaws is_request sv.requests

-- The row of a user in a group.
abbrev pub member_row : Bytes → Bytes → Db → Option GroupMemberModel
member_row group_id user_id db = first (is_member (group_id, user_id)) db.members

abbrev pub key_of : GroupMemberModel → Bytes × Bytes
key_of m = (m.group_id, m.user_id)

pub is_member-key_of : (m : GroupMemberModel) → is_member (key_of m) m ≡ true
unfolding bytes_discrete
is_member-key_of m = ground arith

-- Every member that a read of several users gives is the row of one of them.
abbrev pub IsRow : Bytes → Db → GroupMemberModel → Type 0
IsRow group_id db m = member_row group_id m.user_id db ≡ some m

pub take_group_member-ok :
    (sv : GroupServices) (laws : TableLaws sv) (group_id user_id : Bytes) (db : Db)
    (m : GroupMemberModel)
    → take_group_member sv group_id user_id db ≡ ok m
    → (member_row group_id user_id db ≡ some m) × (m.user_id ≡ user_id) × (m.group_id ≡ group_id)
take_group_member-ok sv laws group_id user_id db m h =
    let row = laws.member_laws.find_one-ok (is_member (group_id, user_id)) db.members m h in
    (
      row,
      ground (arith, first-passes (is_member (group_id, user_id)) db.members m row),
      ground (arith, first-passes (is_member (group_id, user_id)) db.members m row),
    )

taken-IsRow :
    (sv : GroupServices) (laws : TableLaws sv) (group_id user_id : Bytes) (db : Db)
    (m : GroupMemberModel)
    → take_group_member sv group_id user_id db ≡ ok m
    → IsRow group_id db m
taken-IsRow sv laws group_id user_id db m h =
    let found = take_group_member-ok sv laws group_id user_id db m h in
    ap (λ u. member_row group_id u db) found.1 ∙ found.0

add_found-All :
    {P : GroupMemberModel → Type 0} (r : Result GroupMemberModel)
    (rest : Result (List GroupMemberModel)) (ms : List GroupMemberModel)
    → ((m : GroupMemberModel) → r ≡ ok m → P m)
    → ((ns : List GroupMemberModel) → rest ≡ ok ns → All P ns)
    → add_found r rest ≡ ok ms
    → All P ms
add_found-All (ok m) (ok ns) (x ∷ ms) h hs e = ground (arith, h m, hs ns)
add_found-All (ok m) (ok ns) [] h hs e = tt
add_found-All (ok m) (err f) ms h hs e = ground arith
add_found-All (err f) rest ms h hs e = elim (Bool-cases (is_record_not_found f)) [
  | inl t ↦ hs ms (ground arith)
  | inr t ↦ ground arith
]

pub find_group_members-All :
    (sv : GroupServices) (laws : TableLaws sv) (group_id : Bytes) (ids : List Bytes) (db : Db)
    (ms : List GroupMemberModel)
    → find_group_members sv group_id ids db ≡ ok ms
    → All (IsRow group_id db) ms
unfolding find_group_members
find_group_members-All sv laws group_id [] db [] h = tt
find_group_members-All sv laws group_id [] db (m ∷ ms) h = ground arith
find_group_members-All sv laws group_id (id ∷ ids) db ms h =
    add_found-All (take_group_member sv group_id id db) (find_group_members sv group_id ids db) ms
      (λ m e. taken-IsRow sv laws group_id id db m e)
      (λ ns e. find_group_members-All sv laws group_id ids db ns e) h

-- The writes of members.

pub delete_group_member-ok :
    (sv : GroupServices) (laws : TableLaws sv) (group_id : Bytes) (ids : List Bytes) (db new : Db)
    → delete_group_member sv group_id ids db ≡ ok new
    → new ≡ with_members db (keep (λ m. not (delete_filter group_id ids m)) db.members)
delete_group_member-ok sv laws group_id ids db new h =
    let deleted = sv.members.delete_many (delete_filter group_id ids) db.members in
    let (ms, e, e') = >>=-eq-ok deleted (λ ms. ok (with_members db ms)) h in
    let rows = laws.member_laws.delete_many-ok (delete_filter group_id ids) db.members ms e in
    ground (arith, rows)

pub update_group_member-ok :
    (sv : GroupServices) (laws : TableLaws sv) (group_id user_id : Bytes)
    (f : GroupMemberModel → GroupMemberModel) (db new : Db)
    → update_group_member sv group_id user_id f db ≡ ok new
    → (new ≡ with_members db (set_first (is_member (group_id, user_id)) f db.members))
      × ((m : GroupMemberModel) × (member_row group_id user_id db ≡ some m))
update_group_member-ok sv laws group_id user_id f db new h =
    let p = is_member (group_id, user_id) in
    let (ms, e, e') =
      >>=-eq-ok (sv.members.update_one p f db.members) (λ ms. ok (with_members db ms)) h in
    let rows = laws.member_laws.update_one-ok p f db.members ms e in
    (ground (arith, rows.0), rows.1)

pub create_members-ok :
    (sv : GroupServices) (laws : TableLaws sv) (ms : List GroupMemberModel) (db new : Db)
    → create_members sv ms db ≡ ok new
    → (new ≡ with_members db (db.members ++ ms))
      × (IsUnique is_member db.members → IsUnique is_member new.members)
create_members-ok sv laws [] db new h =
    (ground (arith, append-nil db.members), λ u k. ground (arith, u k))
create_members-ok sv laws (m ∷ ms) db new h =
    let inserted = sv.members.insert_many (m ∷ ms) db.members in
    let (rows, e, e') = >>=-eq-ok inserted (λ rows. ok (with_members db rows)) h in
    let (all_rows, unique) = laws.member_laws.insert_many-ok (m ∷ ms) db.members rows e in
    (ground (arith, all_rows), λ u k. ground (arith, unique k))
