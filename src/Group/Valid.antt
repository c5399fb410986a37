-- ===== src/Group/Valid.antt =====
-- The invariant of the members' table, through the writes: a user stands once in a group, and a group has one
-- owner at most.
use open_im_server.Base.{
  ℕ, ◌≤◌, ◌≡◌, ap, ◌==◌, Bool, true, false, not, Bytes, List, [], ◌∷◌, some, All, ok, arith,
}
use open_im_server.Group.Driver.{IsUnique, count, first, set_first}
use open_im_server.Group.Driver.Laws.{
  count-append, count-keep, count-set_first, keep-IsUnique, set_first-IsUnique,
}
use open_im_server.Group.Model.{
  GroupMemberModel, Db, GroupServices, GroupConstants, is_member, has_role,
}
use open_im_server.Group.Db.{
  update_group_member, delete_filter, delete_group_member, create_members,
}
use open_im_server.Group.Db.Laws.{
  TableLaws, delete_group_member-ok, update_group_member-ok, create_members-ok,
}

-- The number of owners of a group.
abbrev pub owners : GroupConstants → Bytes → Db → ℕ
owners k group_id db = count (has_role group_id k.group_owner) db.members

abbrev pub IsValid : GroupConstants → Db → Type 0
IsValid k db = IsUnique is_member db.members × ((g : Bytes) → owners k g db ≤ 1)

-- A change of a row that keeps its key and makes no owner.
abbrev pub IsTame : GroupConstants → (GroupMemberModel → GroupMemberModel) → Type 0
IsTame k f =
    (m : GroupMemberModel)
    → ((f m).group_id ≡ m.group_id)
      × ((f m).user_id ≡ m.user_id)
      × (((f m).role_level == k.group_owner) ≡ true → (m.role_level == k.group_owner) ≡ true)

pub rows_of :
    {db new : Db}
    → new ≡ db
    → (p : GroupMemberModel → Bool) → count p new.members ≡ count p db.members
rows_of eq p = ap (λ d. count p d.members) eq

pub delete_group_member-IsValid :
    (sv : GroupServices) (laws : TableLaws sv) (group_id : Bytes) (ids : List Bytes) (db new : Db)
    → delete_group_member sv group_id ids db ≡ ok new
    → IsValid sv.k db
    → IsValid sv.k new
delete_group_member-IsValid sv laws group_id ids db new h v =
    let eq = delete_group_member-ok sv laws group_id ids db new h in
    let q = λ (m : GroupMemberModel). not (delete_filter group_id ids m) in
    (
      λ key.
          omega (arith, rows_of eq (is_member key), keep-IsUnique is_member q db.members v.0 key),
      λ g. omega (
        arith,
        rows_of eq (has_role g sv.k.group_owner),
        v.1 g,
        count-keep (has_role g sv.k.group_owner) q db.members,
      ),
    )

set_tame-owners :
    (k : GroupConstants) (group_id user_id g : Bytes) (f : GroupMemberModel → GroupMemberModel)
    (xs : List GroupMemberModel) (d : GroupMemberModel)
    → IsTame k f
    → first (is_member (group_id, user_id)) xs ≡ some d
    → count (has_role g k.group_owner) (set_first (is_member (group_id, user_id)) f xs)
      ≤ count (has_role g k.group_owner) xs
set_tame-owners k group_id user_id g f xs d tame h =
    let p = has_role g k.group_owner in
    ground (arith, tame d, count-set_first p (is_member (group_id, user_id)) f xs d h)

tame_keeps_key :
    (k : GroupConstants) (f : GroupMemberModel → GroupMemberModel)
    → IsTame k f
    → (key : Bytes × Bytes) (a : GroupMemberModel) → is_member key (f a) ≡ is_member key a
tame_keeps_key k f tame key a = ground (arith, tame a)

pub update_group_member-IsValid :
    (sv : GroupServices) (laws : TableLaws sv) (group_id user_id : Bytes)
    (f : GroupMemberModel → GroupMemberModel) (db new : Db)
    → IsTame sv.k f
    → update_group_member sv group_id user_id f db ≡ ok new
    → IsValid sv.k db
    → IsValid sv.k new
update_group_member-IsValid sv laws group_id user_id f db new tame h v =
    let p = is_member (group_id, user_id) in
    let (eq, (m, row)) = update_group_member-ok sv laws group_id user_id f db new h in
    let same = tame_keeps_key sv.k f tame in
    (
      λ key. omega (
        arith,
        rows_of eq (is_member key),
        set_first-IsUnique is_member p f db.members m same row v.0 key,
      ),
      λ g. omega (
        arith,
        rows_of eq (has_role g sv.k.group_owner),
        v.1 g,
        set_tame-owners sv.k group_id user_id g f db.members m tame row,
      ),
    )

-- No row of the list is an owner.
abbrev pub NoOwner : GroupConstants → List GroupMemberModel → Type 0
NoOwner k ms = All (λ m. (m.role_level == k.group_owner) ≡ false) ms

pub count-NoOwner :
    (k : GroupConstants) (g : Bytes) (ms : List GroupMemberModel)
    → NoOwner k ms
    → count (has_role g k.group_owner) ms ≡ 0
count-NoOwner k g [] h = omega arith
count-NoOwner k g (m ∷ ms) h = ground (arith, count-NoOwner k g ms h.1, h.0)

pub create_members-IsValid :
    (sv : GroupServices) (laws : TableLaws sv) (ms : List GroupMemberModel) (db new : Db)
    → NoOwner sv.k ms
    → create_members sv ms db ≡ ok new
    → IsValid sv.k db
    → IsValid sv.k new
create_members-IsValid sv laws ms db new none_owns h v =
    let (eq, unique) = create_members-ok sv laws ms db new h in
    (
      unique v.0,
      λ g.
          let p = has_role g sv.k.group_owner in
          omega (
            arith,
            rows_of eq p,
            v.1 g,
            count-append p db.members ms,
            count-NoOwner sv.k g ms none_owns,
          ),
    )
