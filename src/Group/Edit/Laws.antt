-- ===== src/Group/Edit/Laws.antt =====
-- The invariants through SetGroupMemberInfo.
use open_im_server.Base.{
  ℕ, ◌≡◌, refl, sym, ◌==◌, false, not, List, [], ◌∷◌, map, Option, none, some, All, err_args,
  err_no_permission, ok, >>=-eq-ok, OnOk, OnOk-ok, >>=-OnOk, >>=-OnOk_of, OnOk-weaken, require,
  arith,
}
use mathlib.Core.Path.{subst}
use open_im_server.Group.Model.{SetGroupMemberInfo, Db, GroupServices, GroupConstants}
use open_im_server.Group.Db.{update_group_member}
use open_im_server.Group.Db.Laws.{TableLaws}
use open_im_server.Group.Valid.{IsTame}
use open_im_server.Group.Rooted.{IsGood, update_group_member-IsGood, same_tables-IsGood}
use open_im_server.Group.Outcome.{guarded-keeps, committed-keeps}
use open_im_server.Group.People.{is_empty, key_set}
use open_im_server.Group.Edit.{
  without_face_url, check_new_role, check_new_roles, check_group_edits, is_nil, with_set_reply,
  callback_sets, check_edit, set_info, update_group_members, set_group_member_info,
}

-- A request that gives no role, or not the owner's.
abbrev pub IsPlainRole : GroupConstants → Option ℕ → Type 0
IsPlainRole k none = Unit
IsPlainRole k (some role) = (role == k.group_owner) ≡ false

abbrev pub ArePlain : GroupConstants → List SetGroupMemberInfo → Type 0
ArePlain k ms = All (λ m. IsPlainRole k m.role_level) ms

-- The webhook of a setting replaces no role.
abbrev pub LeavesSetRoles : GroupServices → Type 0
LeavesSetRoles sv =
    (m : SetGroupMemberInfo)
    → OnOk (λ r. (with_set_reply r m).role_level ≡ m.role_level)
        (sv.callback_before_set_group_member_info m)

check_new_role-IsPlainRole :
    (k : GroupConstants) (role : Option ℕ) → OnOk (λ u. IsPlainRole k role) (check_new_role k role)
check_new_role-IsPlainRole k none = tt
check_new_role-IsPlainRole k (some role) = ground arith

check_new_roles-ArePlain :
    (k : GroupConstants) (ms : List SetGroupMemberInfo)
    → OnOk (λ u. ArePlain k ms) (check_new_roles k ms)
check_new_roles-ArePlain k [] = tt
check_new_roles-ArePlain k (m ∷ ms) =
    let P : Unit {0} → Type 0 = λ u. ArePlain k (m ∷ ms) in
    >>=-OnOk_of _ P (check_new_role k m.role_level) _ (check_new_role-IsPlainRole k m.role_level)
      λ u plain.
        OnOk-weaken _ P (check_new_roles k ms) (λ w rest. (plain, rest))
          (check_new_roles-ArePlain k ms)

callback_sets-ArePlain :
    (sv : GroupServices) (ms : List SetGroupMemberInfo)
    → LeavesSetRoles sv
    → ArePlain sv.k ms
    → OnOk (ArePlain sv.k) (callback_sets sv (map without_face_url ms))
callback_sets-ArePlain sv [] h plain = tt
callback_sets-ArePlain sv (m ∷ ms) h plain =
    let P = ArePlain sv.k in
    let n = without_face_url m in
    >>=-OnOk_of _ P (sv.callback_before_set_group_member_info n) _ (h n) λ r same.
      >>=-OnOk_of _ P (callback_sets sv (map without_face_url ms)) _
        (callback_sets-ArePlain sv ms h plain.1)
        λ ns rest. (subst (IsPlainRole sv.k) (sym same) plain.0, rest)

pub check_edit-ArePlain :
    (sv : GroupServices) (reqs : List SetGroupMemberInfo) (db : Db)
    → LeavesSetRoles sv
    → OnOk (ArePlain sv.k) (check_edit sv reqs db)
unfolding check_edit
check_edit-ArePlain sv reqs db h =
    let P = ArePlain sv.k in
    >>=-OnOk P (require (not (is_nil reqs)) err_args) _ λ a b.
      >>=-OnOk P (require (not (is_empty sv.op_user_id)) err_no_permission) _ λ c d.
        >>=-OnOk_of _ P (check_new_roles sv.k reqs) _ (check_new_roles-ArePlain sv.k reqs)
          λ e plain.
            >>=-OnOk P (check_group_edits sv reqs db (key_set (map (λ m. m.group_id) reqs))) _
              λ f g. callback_sets-ArePlain sv reqs h plain

set_info-IsTame :
    (k : GroupConstants) (req : SetGroupMemberInfo) (role : Option ℕ)
    → req.role_level ≡ role
    → IsPlainRole k role
    → IsTame k (set_info req)
set_info-IsTame k req none e plain m = (refl, refl, λ h. ground arith)
set_info-IsTame k req (some role) e plain m = (refl, refl, λ h. ground arith)

update_group_members-IsGood :
    (sv : GroupServices) (laws : TableLaws sv) (reqs : List SetGroupMemberInfo) (db new : Db)
    → ArePlain sv.k reqs
    → update_group_members sv reqs db ≡ ok new
    → IsGood sv.k db
    → IsGood sv.k new
unfolding update_group_members
update_group_members-IsGood sv laws [] db new plain h v =
    same_tables-IsGood sv.k db new (ground arith, ground arith) v
update_group_members-IsGood sv laws (r ∷ rs) db new plain h v =
    let (next_db, e, e') =
      >>=-eq-ok (update_group_member sv r.group_id r.user_id (set_info r) db)
        (update_group_members sv rs) h in
    update_group_members-IsGood sv laws rs next_db new plain.1 e' (
      update_group_member-IsGood sv laws r.group_id r.user_id (set_info r) db next_db
        (set_info-IsTame sv.k r r.role_level refl plain.0) e v)

pub set_group_member_info-IsGood :
    (sv : GroupServices) (laws : TableLaws sv) (reqs : List SetGroupMemberInfo) (db : Db)
    → LeavesSetRoles sv
    → IsGood sv.k db
    → IsGood sv.k (set_group_member_info sv reqs db).db
unfolding set_group_member_info
set_group_member_info-IsGood sv laws reqs db h v =
    let P = IsGood sv.k in
    guarded-keeps P db (check_edit sv reqs db) _ v λ replaced checked.
      committed-keeps P db (update_group_members sv replaced db) _ v λ new made.
        update_group_members-IsGood sv laws replaced db new
          (OnOk-ok _ checked (check_edit-ArePlain sv reqs db h)) made v
