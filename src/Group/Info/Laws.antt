-- ===== src/Group/Info/Laws.antt =====
-- Who sets what of a group, and the invariants through it.
use open_im_server.Base.{
  ◌≡◌, ◌⊎◌, inl, inr, refl, sym, ◌==◌, false, not, Bytes, [], ◌∷◌, some, err_no_permission,
  err_dismissed_already, ok, >>=-eq-ok, OnOk, OnOk-ok, >>=-OnOk, >>=-OnOk_of, require, require-OnOk,
  if-cases, arith,
}
use mathlib.Core.Path.{subst}
use open_im_server.Group.Driver.{first, set_first}
use open_im_server.Group.Model.{GroupModel, GroupInfoForSet, Db, GroupServices, is_group}
use open_im_server.Group.Rows.{with_groups}
use open_im_server.Group.Db.{take_group, take_group_member, take_group_owner, find_group_member_num}
use open_im_server.Group.Db.Laws.{TableLaws}
use open_im_server.Group.Rooted.{IsGood, absent-set_first}
use open_im_server.Group.Outcome.{Outcome, guarded-keeps, committed_then-keeps}
use open_im_server.Group.People.{is_manager_op, populate_group_member, is_owner_or_admin}
use open_im_server.Group.Answer.Laws.{IsAdmin}
use open_im_server.Group.Info.{
  with_info_reply, set_group_info_row, update_count, check_op_member, check_open_group,
  check_info_req, update_group_info, set_group_info,
}

check_op_member-IsAdmin :
    (sv : GroupServices) (laws : TableLaws sv) (group_id : Bytes) (db : Db)
    → OnOk (λ u. IsAdmin sv group_id db) (check_op_member sv group_id db)
check_op_member-IsAdmin sv laws group_id db =
    let P : Unit {0} → Type 0 = λ u. IsAdmin sv group_id db in
    if-cases (OnOk P) (is_manager_op sv) (λ e. inl e)
      λ n. >>=-OnOk P (take_group_member sv group_id sv.op_user_id db) _ λ m h.
        >>=-OnOk_of _ P (require (is_owner_or_admin sv.k m.role_level) err_no_permission) _
          (require-OnOk _ (is_owner_or_admin sv.k m.role_level) err_no_permission (λ t. t))
          λ u t.
            >>=-OnOk P (populate_group_member sv (m ∷ [])) _
              λ ms e. inr (m, laws.member_laws.find_one-ok _ db.members m h, t)

-- The group is there and not dismissed.
abbrev pub IsOpen : GroupServices → Bytes → Db → Type 0
IsOpen sv group_id db =
    (g : GroupModel) × (first (is_group group_id) db.groups ≡ some g)
    × ((g.status == sv.k.group_status_dismissed) ≡ false)

check_open_group-IsOpen :
    (sv : GroupServices) (laws : TableLaws sv) (group_id : Bytes) (db : Db)
    → OnOk (λ u. IsOpen sv group_id db) (check_open_group sv group_id db)
check_open_group-IsOpen sv laws group_id db =
    let P : Unit {0} → Type 0 = λ u. IsOpen sv group_id db in
    >>=-OnOk P (take_group sv group_id db) _ λ group h.
      >>=-OnOk_of _ P
        (require (not (group.status == sv.k.group_status_dismissed)) err_dismissed_already) _
        (require-OnOk _ (not (group.status == sv.k.group_status_dismissed)) _ (λ t. t))
        λ u t. >>=-OnOk P (find_group_member_num sv group.group_id db) _ λ num a.
          >>=-OnOk P (take_group_owner sv group.group_id db) _ λ owner b.
            >>=-OnOk P (populate_group_member sv (owner ∷ [])) _
              λ ms c. (group, laws.group_laws.find_one-ok _ db.groups group h, ground arith)

-- The one who acts may act on the group of the request; the webhook may name another group, which has to be open.
abbrev pub InfoChecked : GroupServices → GroupInfoForSet → Db → GroupInfoForSet → Type 0
InfoChecked sv req db replaced = IsAdmin sv req.group_id db × IsOpen sv replaced.group_id db

check_info_req-InfoChecked :
    (sv : GroupServices) (laws : TableLaws sv) (req : GroupInfoForSet) (db : Db)
    → OnOk (InfoChecked sv req db) (check_info_req sv req db)
unfolding check_info_req
check_info_req-InfoChecked sv laws req db =
    let P = InfoChecked sv req db in
    >>=-OnOk_of _ P (check_op_member sv req.group_id db) _
      (check_op_member-IsAdmin sv laws req.group_id db)
      λ u admin. >>=-OnOk P (sv.callback_before_set_group_info req) _ λ reply e.
        >>=-OnOk_of _ P (check_open_group sv (with_info_reply reply req).group_id db) _
          (check_open_group-IsOpen sv laws (with_info_reply reply req).group_id db)
          λ w is_open. (admin, is_open)

abbrev pub with_info : GroupServices → GroupInfoForSet → Db → Db
with_info sv req db =
    with_groups db (set_first (is_group req.group_id) (set_group_info_row sv req) db.groups)

update_group_info-ok :
    (sv : GroupServices) (laws : TableLaws sv) (req : GroupInfoForSet) (db new : Db)
    → update_group_info sv req db ≡ ok new
    → new ≡ with_info sv req db
update_group_info-ok sv laws req db new h =
    let p = is_group req.group_id in
    let f = set_group_info_row sv req in
    let (gs, e, e') =
      >>=-eq-ok (sv.groups.update_one p f db.groups) (λ gs. ok (with_groups db gs)) h in
    let rows = laws.group_laws.update_one-ok p f db.groups gs e in ground (arith, rows.0)

-- What a setting leaves: the tables as they were, or the row of an open group with what is given.
abbrev pub InfoDone : GroupServices → GroupInfoForSet → Db → Db → Type 0
InfoDone sv req db new =
    (new ≡ db)
    ⊎ ((replaced : GroupInfoForSet) × InfoChecked sv req db replaced
        × (new ≡ with_info sv replaced db))

pub set_group_info-InfoDone :
    (sv : GroupServices) (laws : TableLaws sv) (req : GroupInfoForSet) (db : Db)
    → InfoDone sv req db (set_group_info sv req db).db
unfolding set_group_info
set_group_info-InfoDone sv laws req db =
    let P = InfoDone sv req db in
    guarded-keeps P db (check_info_req sv req db) _ (inl refl) λ replaced h.
      if-cases (λ (o : Outcome). P o.db) (update_count replaced == 0) (λ e. inl refl)
        λ n. committed_then-keeps P db (update_group_info sv replaced db) _ (inl refl) λ new made.
          inr (
            replaced,
            OnOk-ok _ h (check_info_req-InfoChecked sv laws req db),
            update_group_info-ok sv laws replaced db new made,
          )

with_info-IsGood :
    (sv : GroupServices) (req : GroupInfoForSet) (db : Db)
    → IsGood sv.k db
    → IsGood sv.k (with_info sv req db)
with_info-IsGood sv req db v = (
  v.0,
  λ g absent. v.1 g (
      absent-set_first (is_group g) (is_group req.group_id) (set_group_info_row sv req) db.groups
        (λ d. refl) absent),
)

pub set_group_info-IsGood :
    (sv : GroupServices) (laws : TableLaws sv) (req : GroupInfoForSet) (db : Db)
    → IsGood sv.k db
    → IsGood sv.k (set_group_info sv req db).db
set_group_info-IsGood sv laws req db v = elim (set_group_info-InfoDone sv laws req db) [
  | inl e ↦ subst (IsGood sv.k) (sym e) v
  | inr (replaced, checked, e) ↦ subst (IsGood sv.k) (sym e) (with_info-IsGood sv replaced db v)
]
