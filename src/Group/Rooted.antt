-- ===== src/Group/Rooted.antt =====
-- The second invariant of the tables: a member's group exists; and both invariants through the writes.
use open_im_server.Base.{
  ℕ, ◌≡◌, ◌≢◌, refl, ap, ◌∙◌, sym, Bool, not, Bytes, List, [], ◌∷◌, none, some, All, ok, >>=-eq-ok,
  arith,
}
use open_im_server.Group.Driver.{count, first, set_first}
use open_im_server.Group.Driver.Laws.{count-append, count-keep, count-set_first}
use open_im_server.Group.Model.{
  GroupModel, GroupMemberModel, Db, GroupServices, GroupConstants, is_group, is_member, has_role,
}
use open_im_server.Group.Rows.{with_groups, set_status}
use open_im_server.Group.Db.{
  in_group, update_group_member, delete_filter, delete_group_member, create_members,
  update_group_status,
}
use open_im_server.Group.Db.Laws.{
  TableLaws, delete_group_member-ok, update_group_member-ok, create_members-ok,
}
use open_im_server.Group.Valid.{
  IsValid, IsTame, NoOwner, rows_of, delete_group_member-IsValid, update_group_member-IsValid,
  create_members-IsValid,
}

abbrev pub IsRooted : Db → Type 0
IsRooted db = (g : Bytes) → first (is_group g) db.groups ≡ none → count (in_group g) db.members ≡ 0

abbrev pub IsGood : GroupConstants → Db → Type 0
IsGood k db = IsValid k db × IsRooted db

-- The rows belong to a group that exists.
abbrev pub AllIn : Bytes → List GroupMemberModel → Type 0
AllIn group_id ms = All (λ m. m.group_id ≡ group_id) ms

pub count-AllIn :
    (group_id g : Bytes) (ms : List GroupMemberModel)
    → AllIn group_id ms
    → group_id ≢ g
    → count (in_group g) ms ≡ 0
count-AllIn group_id g [] h n = omega arith
count-AllIn group_id g (m ∷ ms) h n = ground (arith, count-AllIn group_id g ms h.1 n, h.0)

pub delete_group_member-IsGood :
    (sv : GroupServices) (laws : TableLaws sv) (group_id : Bytes) (ids : List Bytes) (db new : Db)
    → delete_group_member sv group_id ids db ≡ ok new
    → IsGood sv.k db
    → IsGood sv.k new
delete_group_member-IsGood sv laws group_id ids db new h v =
    let eq = delete_group_member-ok sv laws group_id ids db new h in
    (
      delete_group_member-IsValid sv laws group_id ids db new h v.0,
      λ g absent.
          let old = v.1 g (sym (ap (λ d. first (is_group g) d.groups) eq) ∙ absent) in
          omega (
            arith,
            old,
            rows_of eq (in_group g),
            count-keep (in_group g) (λ m. not (delete_filter group_id ids m)) db.members,
          ),
    )

pub update_group_member-IsGood :
    (sv : GroupServices) (laws : TableLaws sv) (group_id user_id : Bytes)
    (f : GroupMemberModel → GroupMemberModel) (db new : Db)
    → IsTame sv.k f
    → update_group_member sv group_id user_id f db ≡ ok new
    → IsGood sv.k db
    → IsGood sv.k new
update_group_member-IsGood sv laws group_id user_id f db new tame h v =
    let (eq, (m, row)) = update_group_member-ok sv laws group_id user_id f db new h in
    let p = is_member (group_id, user_id) in
    (
      update_group_member-IsValid sv laws group_id user_id f db new tame h v.0,
      λ g absent.
          let old = v.1 g (sym (ap (λ d. first (is_group g) d.groups) eq) ∙ absent) in
          ground (
            arith,
            old,
            rows_of eq (in_group g),
            tame m,
            count-set_first (in_group g) p f db.members m row,
          ),
    )

pub create_members-IsGood :
    (sv : GroupServices) (laws : TableLaws sv) (group_id : Bytes) (ms : List GroupMemberModel)
    (db new : Db)
    → NoOwner sv.k ms
    → AllIn group_id ms
    → first (is_group group_id) db.groups ≢ none
    → create_members sv ms db ≡ ok new
    → IsGood sv.k db
    → IsGood sv.k new
create_members-IsGood sv laws group_id ms db new none_owns isin exists h v =
    let (eq, unique) = create_members-ok sv laws ms db new h in
    (
      create_members-IsValid sv laws ms db new none_owns h v.0,
      λ g absent.
          let old_absent = sym (ap (λ d. first (is_group g) d.groups) eq) ∙ absent in
          let apart =
            λ (e : group_id ≡ g). exists (ap (λ x. first (is_group x) db.groups) e ∙ old_absent) in
          omega (
            arith,
            v.1 g old_absent,
            rows_of eq (in_group g),
            count-append (in_group g) db.members ms,
            count-AllIn group_id g ms isin apart,
          ),
    )

pub absent-set_first :
    {D : Type 0} (p q : D → Bool) (f : D → D) (xs : List D)
    → ((d : D) → p (f d) ≡ p d)
    → first p (set_first q f xs) ≡ none
    → first p xs ≡ none
absent-set_first p q f [] same h = h
absent-set_first p q f (x ∷ xs) same h = ground (arith, absent-set_first p q f xs same, same x)

pub update_group_status-ok :
    (sv : GroupServices) (laws : TableLaws sv) (group_id : Bytes) (status : ℕ) (db new : Db)
    → update_group_status sv group_id status db ≡ ok new
    → (new ≡ with_groups db (set_first (is_group group_id) (set_status status) db.groups))
      × ((g : GroupModel) × (first (is_group group_id) db.groups ≡ some g))
update_group_status-ok sv laws group_id status db new h =
    let p = is_group group_id in
    let (gs, e, e') =
      >>=-eq-ok (sv.groups.update_one p (set_status status) db.groups)
        (λ gs. ok (with_groups db gs)) h in
    let rows = laws.group_laws.update_one-ok p (set_status status) db.groups gs e in
    (ground (arith, rows.0), rows.1)

pub update_group_status-IsGood :
    (sv : GroupServices) (laws : TableLaws sv) (group_id : Bytes) (status : ℕ) (db new : Db)
    → update_group_status sv group_id status db ≡ ok new
    → IsGood sv.k db
    → IsGood sv.k new
update_group_status-IsGood sv laws group_id status db new h v =
    let eq = (update_group_status-ok sv laws group_id status db new h).0 in
    (
      (
        λ key. omega (arith, rows_of eq (is_member key), v.0.0 key),
        λ g. omega (arith, rows_of eq (has_role g sv.k.group_owner), v.0.1 g),
      ),
      λ g absent.
          let set_absent = sym (ap (λ d. first (is_group g) d.groups) eq) ∙ absent in
          let old =
            absent-set_first (is_group g) (is_group group_id) (set_status status) db.groups
              (λ d. refl) set_absent in
          omega (arith, rows_of eq (in_group g), v.1 g old),
    )

-- Join requests are no part of it.
pub same_tables-IsGood :
    (k : GroupConstants) (db new : Db)
    → (new.members ≡ db.members) × (new.groups ≡ db.groups)
    → IsGood k db
    → IsGood k new
same_tables-IsGood k db new (ms, gs) v = (
  (
    λ key. omega (arith, ap (count (is_member key)) ms, v.0.0 key),
    λ g. omega (arith, ap (count (has_role g k.group_owner)) ms, v.0.1 g),
  ),
  λ g absent.
      omega (arith, ap (count (in_group g)) ms, v.1 g (sym (ap (first (is_group g)) gs) ∙ absent)),
)
