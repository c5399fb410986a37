-- ===== src/Group/Create/Entry.antt =====
-- What CreateGroup leaves of the tables, and the invariants through it.
use open_im_server.Base.{
  ◌≤◌, ◌≡◌, ◌≢◌, ◌⊎◌, inl, inr, refl, ap, sym, ◌∙◌, Bool, false, Bytes, bytes_discrete, List, [],
  ◌∷◌, ◌++◌, none, ok, >>=-eq-ok, OnOk, OnOk-ok, >>=-OnOk, >>=-OnOk_of, arith,
}
use mathlib.Core.Path.{subst}
use open_im_server.Group.Driver.{first, count, IsUnique}
use open_im_server.Group.Driver.Laws.{count-append}
use open_im_server.Group.Model.{
  GroupModel, GroupMemberModel, Db, GroupServices, GroupConstants, is_group, is_member, has_role,
}
use open_im_server.Group.Rows.{with_groups, with_members}
use open_im_server.Group.Db.{in_group, create_groups, create_members, create_group_rows}
use open_im_server.Group.Db.Laws.{TableLaws, create_members-ok}
use open_im_server.Group.Valid.{owners, rows_of}
use open_im_server.Group.Rooted.{IsGood, AllIn, count-AllIn}
use open_im_server.Group.Outcome.{guarded-keeps, committed-keeps}
use open_im_server.Group.Join.Laws.{DistinctRoles, LeavesRoles}
use open_im_server.Group.Invite.{callback_joins}
use open_im_server.Group.Invite.Laws.{
  callback_joins-SameMembers, SameMembers-AllIn, SameMembers-count,
}
use open_im_server.Group.Create.{
  CreateReq, gen_group_id, first_rows, check_create, plan_create, create_group,
}
use open_im_server.Group.Create.Laws.{
  IsFree, gen_group_id-IsFree, first_rows-AllIn, first_rows-owner,
}

-- A group whose identifier was free, with rows that make one owner.
abbrev pub PlanChecked : GroupServices → Db → GroupModel × List GroupMemberModel → Type 0
PlanChecked sv db plan =
    IsFree db plan.0.group_id
    × AllIn plan.0.group_id plan.1
    × (count (has_role plan.0.group_id sv.k.group_owner) plan.1 ≡ 1)

plan_create-PlanChecked :
    (sv : GroupServices) (laws : TableLaws sv) (req : CreateReq) (db : Db)
    → DistinctRoles sv.k
    → LeavesRoles sv
    → OnOk (PlanChecked sv db) (plan_create sv req db)
unfolding plan_create
plan_create-PlanChecked sv laws req db d leaves =
    let P = PlanChecked sv db in
    >>=-OnOk P (check_create sv req) _ λ a b.
      >>=-OnOk P (sv.callback_before_create_group req.group_info) _ λ info c.
        >>=-OnOk_of _ P (gen_group_id sv info.group_id db) _
          (gen_group_id-IsFree sv laws info.group_id db)
          λ group_id free.
            let rows = first_rows sv req group_id in
            >>=-OnOk_of _ P (callback_joins sv info.ex rows) _
              (callback_joins-SameMembers sv info.ex rows leaves)
              λ ms same. (
                free,
                SameMembers-AllIn group_id rows ms same (first_rows-AllIn sv req group_id),
                SameMembers-count sv.k group_id rows ms same ∙ first_rows-owner sv req group_id d,
              )

first-append_one :
    {D : Type 0} (p : D → Bool) (xs : List D) (x : D)
    → first p (xs ++ x ∷ []) ≡ none
    → (first p xs ≡ none) × (p x ≡ false)
first-append_one p [] x h = ground arith
first-append_one p (y ∷ xs) x h = ground (arith, first-append_one p xs x)

owners_in_group :
    (k : GroupConstants) (g : Bytes) (ms : List GroupMemberModel)
    → count (has_role g k.group_owner) ms ≤ count (in_group g) ms
owners_in_group k g [] = omega arith
owners_in_group k g (m ∷ ms) = ground (arith, owners_in_group k g ms)

-- A group without members gets the one owner of the new rows.
created_one :
    (k : GroupConstants) (group_id : Bytes) (ms old : List GroupMemberModel)
    → count (has_role group_id k.group_owner) ms ≡ 1
    → count (in_group group_id) old ≡ 0
    → count (has_role group_id k.group_owner) (old ++ ms) ≤ 1
created_one k group_id ms old one none_old =
    omega
      (arith, count-append (has_role group_id k.group_owner) old ms, owners_in_group k group_id old)

-- The owners of any group once the rows are there.
created_owners :
    (k : GroupConstants) (g : Bytes) (group_id : Bytes) (ms old : List GroupMemberModel)
    → AllIn group_id ms
    → count (has_role group_id k.group_owner) ms ≡ 1
    → (count (in_group group_id) old ≡ 0)
    → count (has_role g k.group_owner) old ≤ 1
    → count (has_role g k.group_owner) (old ++ ms) ≤ 1
created_owners k g group_id ms old isin one none_old le = elim (bytes_discrete group_id g) [
  | yes e ↦
      subst (λ x. count (has_role x k.group_owner) (old ++ ms) ≤ 1) e
        (created_one k group_id ms old one none_old)
  | no n ↦ omega (
    arith,
    le,
    count-append (has_role g k.group_owner) old ms,
    count-AllIn group_id g ms isin n,
    owners_in_group k g ms,
  )
]

abbrev pub with_new : Db → GroupModel → List GroupMemberModel → Db
with_new db g ms = with_members (with_groups db (db.groups ++ g ∷ [])) (db.members ++ ms)

create_group_rows-ok :
    (sv : GroupServices) (laws : TableLaws sv) (g : GroupModel) (ms : List GroupMemberModel)
    (db new : Db)
    → create_group_rows sv (g ∷ []) ms db ≡ ok new
    → (new ≡ with_new db g ms) × (IsUnique is_member db.members → IsUnique is_member new.members)
unfolding create_group_rows
create_group_rows-ok sv laws g ms db new h =
    let (made, e, e') = >>=-eq-ok (create_groups sv (g ∷ []) db) (create_members sv ms) h in
    let (rows, f, f') =
      >>=-eq-ok (sv.groups.insert_many (g ∷ []) db.groups) (λ rows. ok (with_groups db rows)) e in
    let all_rows = (laws.group_laws.insert_many-ok (g ∷ []) db.groups rows f).0 in
    let (eq, unique) = create_members-ok sv laws ms made new e' in
    let made_eq : made ≡ with_groups db (db.groups ++ g ∷ []) = ground (arith, all_rows) in
    (
      eq ∙ ap (λ d. with_members d (d.members ++ ms)) made_eq,
      λ u. unique (subst (IsUnique is_member) (sym (ap (λ d. d.members) made_eq)) u),
    )

created-IsGood :
    (sv : GroupServices) (db new : Db) (plan : GroupModel × List GroupMemberModel)
    → PlanChecked sv db plan
    → new ≡ with_new db plan.0 plan.1
    → IsUnique is_member new.members
    → IsGood sv.k db
    → IsGood sv.k new
created-IsGood sv db new (g, ms) (free, isin, one) eq unique v = (
  (
    unique,
    λ x. omega (
      arith,
      rows_of eq (has_role x sv.k.group_owner),
      created_owners sv.k x g.group_id ms db.members isin one (v.1 g.group_id free) (v.0.1 x),
    ),
  ),
  λ x absent.
      let (old, other) =
        first-append_one (is_group x) db.groups g
          (sym (ap (λ d. first (is_group x) d.groups) eq) ∙ absent) in
      let apart : g.group_id ≢ x = λ e. ground arith in
      omega (
        arith,
        rows_of eq (in_group x),
        count-append (in_group x) db.members ms,
        v.1 x old,
        count-AllIn g.group_id x ms isin apart,
      ),
)

-- What a creation leaves: the tables as they were, or a group whose identifier was free, with one owner.
abbrev pub CreateDone : GroupServices → Db → Db → Type 0
CreateDone sv db new =
    (new ≡ db)
    ⊎ ((g : GroupModel) × (ms : List GroupMemberModel) × IsFree db g.group_id
        × (new ≡ with_new db g ms)
        × (owners sv.k g.group_id new ≡ 1))

-- On tables that keep the invariants `CreateGroup` changes nothing, or adds one group whose
-- identifier was free and whose members have exactly one owner; the invariants hold afterwards, if
-- the roles differ and the webhooks replace none.
pub create_group-CreateDone :
    (sv : GroupServices) (laws : TableLaws sv) (req : CreateReq) (db : Db)
    → DistinctRoles sv.k
    → LeavesRoles sv
    → IsGood sv.k db
    → CreateDone sv db (create_group sv req db).db × IsGood sv.k (create_group sv req db).db
unfolding create_group
create_group-CreateDone sv laws req db d leaves v =
    let P : Db → Type 0 = λ new. CreateDone sv db new × IsGood sv.k new in
    guarded-keeps P db (plan_create sv req db) _ (inl refl, v)
      λ plan h.
        committed-keeps P db (create_group_rows sv (plan.0 ∷ []) plan.1 db) _ (inl refl, v)
          λ new made.
            let (g, ms) = plan in
            let (eq, unique) = create_group_rows-ok sv laws g ms db new made in
            let checked = OnOk-ok _ h (plan_create-PlanChecked sv laws req db d leaves) in
            let (free, isin, one) = checked in
            (
              inr (
                g,
                ms,
                free,
                eq,
                omega (
                  arith,
                  rows_of eq (has_role g.group_id sv.k.group_owner),
                  count-append (has_role g.group_id sv.k.group_owner) db.members ms,
                  owners_in_group sv.k g.group_id db.members,
                  v.1 g.group_id free,
                  one,
                ),
              ),
              created-IsGood sv db new plan checked eq (unique v.0.0) v,
            )
