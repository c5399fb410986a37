-- ===== src/Group/Leave/Laws.antt =====
-- Who may remove a member, and the rows that a removal leaves.
use open_im_server.Base.{
  ℕ, ◌≡◌, ◌≢◌, ◌⊎◌, inl, inr, refl, ap, sym, ◌∙◌, ◌==◌, true, false, not, Bytes, bytes_discrete,
  List, [], ◌∷◌, ◌++◌, Option, none, some, keep, All, contains, OnOk, OnOk-ok, require-OnOk,
  err_no_permission, >>=-OnOk, >>=-OnOk_of, OnOk-weaken, if-cases, arith,
}
use mathlib.Core.Path.{subst₂}
use open_im_server.Group.Model.{GroupMemberModel, Db, GroupServices, GroupConstants}
use open_im_server.Group.Rows.{with_members}
use open_im_server.Group.Outcome.{guarded-keeps, committed-keeps}
use open_im_server.Group.Db.{
  take_group, find_group_member_num, get_group_role_level_member_ids, find_group_members,
  delete_group_member, delete_filter,
}
use open_im_server.Group.Db.Laws.{
  TableLaws, member_row, find_group_members-All, delete_group_member-ok,
}
use open_im_server.Group.People.{no_ids, is_manager_op, populate_group_member, is_owner_or_admin}
use open_im_server.Group.Leave.{
  KickReq, member_of, check_outranks, check_operator, check_kick, check_kicks, check_kick_args,
  check_kick_req, kick_group_member,
}
use open_im_server.Group.Leave.Rows.{HasRow, populate_group_member-HasRow, Found, member_of-Found}

-- A role may remove another.
abbrev pub Outranks : GroupConstants → ℕ → ℕ → Type 0
Outranks k a b =
    (a ≡ k.group_owner) ⊎ ((a ≡ k.group_admin) × (b ≢ k.group_owner) × (b ≢ k.group_admin))

-- The user has a row, and the one who acts is an app manager or a member that outranks it.
abbrev pub MayKick : GroupServices → Bytes → Db → Bytes → Type 0
MayKick sv group_id db id =
    (r : GroupMemberModel) × (member_row group_id id db ≡ some r)
    × ((is_manager_op sv ≡ true)
        ⊎ ((op : GroupMemberModel) × (member_row group_id sv.op_user_id db ≡ some op)
            × Outranks sv.k op.role_level r.role_level))

check_outranks-Outranks :
    (k : GroupConstants) (op member : GroupMemberModel)
    → OnOk (λ u. Outranks k op.role_level member.role_level) (check_outranks k op member)
check_outranks-Outranks k op member =
    let Goal = Outranks k op.role_level member.role_level in
    if-cases (OnOk (λ u. Goal)) (op.role_level == k.group_owner) (λ e. inl (ground arith))
      (λ n.
        if-cases (OnOk (λ u. Goal)) (op.role_level == k.group_admin)
          (λ e.
            require-OnOk Goal (not (is_owner_or_admin k member.role_level)) err_no_permission
              (λ t. inr (ground arith, ground arith, ground arith)))
          (λ e. tt))

module _ (sv : GroupServices) (group_id : Bytes) (db : Db) where
  check_operator-MayKick :
      (id : Bytes) (op : Option GroupMemberModel) (m : GroupMemberModel)
      → Found (HasRow group_id db) sv.op_user_id op
      → HasRow group_id db m × (m.user_id ≡ id)
      → OnOk (λ u. MayKick sv group_id db id) (check_operator sv.k op m)
  check_operator-MayKick id none m f h = tt
  check_operator-MayKick id (some op) m f h =
      let (r, row, role) = h.0 in
      let (o, op_row, op_role) = f.0 in
      let Q = λ (u : Unit {0}). Outranks sv.k op.role_level m.role_level in
      OnOk-weaken Q (λ u. MayKick sv group_id db id) (check_outranks sv.k op m)
        (λ u q. (
          r,
          ap (λ v. member_row group_id v db) (sym h.1) ∙ row,
          inr (
            o,
            ap (λ v. member_row group_id v db) (sym f.1) ∙ op_row,
            subst₂ (Outranks sv.k) (sym op_role) (sym role) q,
          ),
        ))
        (check_outranks-Outranks sv.k op m)

  check_kick-MayKick :
      (id : Bytes) (op member : Option GroupMemberModel)
      → Found (HasRow group_id db) sv.op_user_id op
      → Found (HasRow group_id db) id member
      → OnOk (λ u. MayKick sv group_id db id) (check_kick sv op member)
  check_kick-MayKick id op none f h = tt
  check_kick-MayKick id op (some m) f h =
      if-cases (OnOk (λ u. MayKick sv group_id db id)) (is_manager_op sv)
        (λ e. (h.0.0, ap (λ u. member_row group_id u db) (sym h.1) ∙ h.0.1, inl e))
        (λ e. check_operator-MayKick id op m f h)

  check_kicks-MayKick :
      (ms : List GroupMemberModel) (ids : List Bytes)
      → All (HasRow group_id db) ms
      → OnOk (λ u. All (MayKick sv group_id db) ids) (check_kicks sv ms ids)
  unfolding check_kicks
  check_kicks-MayKick ms [] h = tt
  check_kicks-MayKick ms (id ∷ ids) h =
      let op = member_of sv.op_user_id ms in
      let checked = check_kick sv op (member_of id ms) in
      let step =
        check_kick-MayKick id op (member_of id ms) (member_of-Found _ sv.op_user_id ms h)
          (member_of-Found _ id ms h) in
      >>=-OnOk_of (λ u. MayKick sv group_id db id) (λ u. All (MayKick sv group_id db) (id ∷ ids))
        checked (λ u. check_kicks sv ms ids) step
        (λ u allowed.
          OnOk-weaken (λ w. All (MayKick sv group_id db) ids)
            (λ w. All (MayKick sv group_id db) (id ∷ ids)) (check_kicks sv ms ids)
            (λ w rest. (allowed, rest)) (check_kicks-MayKick ms ids h))

-- What a removal leaves: the tables as they were, or, for one who may remove them all and is none of them,
-- the tables without their rows.
abbrev pub KickDone : GroupServices → KickReq → Db → Db → Type 0
KickDone sv req db new =
    (new ≡ db)
    ⊎ (All (MayKick sv req.group_id db) req.kicked_user_ids
        × (contains bytes_discrete sv.op_user_id req.kicked_user_ids ≡ false)
        × (no_ids req.kicked_user_ids ≡ false)
        × (new
            ≡ with_members db
                (keep (λ m. not (delete_filter req.group_id req.kicked_user_ids m)) db.members)))

abbrev pub Checked : GroupServices → KickReq → Db → Type 0
Checked sv req db =
    All (MayKick sv req.group_id db) req.kicked_user_ids
    × (contains bytes_discrete sv.op_user_id req.kicked_user_ids ≡ false)
    × (no_ids req.kicked_user_ids ≡ false)

check_kick_args-OnOk :
    (sv : GroupServices) (req : KickReq)
    → OnOk
        (λ u.
          (contains bytes_discrete sv.op_user_id req.kicked_user_ids ≡ false)
          × (no_ids req.kicked_user_ids ≡ false))
        (check_kick_args sv req)
unfolding check_kick_args
check_kick_args-OnOk sv req = ground arith

check_kick_req-Checked :
    (sv : GroupServices) (laws : TableLaws sv) (req : KickReq) (db : Db)
    → OnOk (λ u. Checked sv req db) (check_kick_req sv req db)
unfolding check_kick_req
check_kick_req-Checked sv laws req db =
    let P = λ (u : Unit {0}). Checked sv req db in
    let ids = req.kicked_user_ids ++ sv.op_user_id ∷ [] in
    >>=-OnOk P (take_group sv req.group_id db) _ λ group e.
      >>=-OnOk_of _ P (check_kick_args sv req) _ (check_kick_args-OnOk sv req) λ u args.
        >>=-OnOk P (find_group_members sv req.group_id ids db) _ λ ms found.
          let rows = find_group_members-All sv laws req.group_id ids db ms found in
          >>=-OnOk_of _ P (populate_group_member sv ms) _
            (populate_group_member-HasRow sv req.group_id db ms rows)
            λ populated has.
              >>=-OnOk_of _ P (check_kicks sv populated req.kicked_user_ids) _
                (check_kicks-MayKick sv req.group_id db populated req.kicked_user_ids has)
                λ w may. >>=-OnOk P (find_group_member_num sv req.group_id db) _ λ num n.
                  >>=-OnOk P (get_group_role_level_member_ids sv req.group_id sv.k.group_owner db) _
                    λ owners o. (may, args.0, args.1)

pub kick_group_member-KickDone :
    (sv : GroupServices) (laws : TableLaws sv) (req : KickReq) (db : Db)
    → KickDone sv req db (kick_group_member sv req db).db
unfolding kick_group_member
kick_group_member-KickDone sv laws req db =
    let P = KickDone sv req db in
    guarded-keeps P db (check_kick_req sv req db) _ (inl refl) λ u checked.
      committed-keeps P db (delete_group_member sv req.group_id req.kicked_user_ids db) _ (inl refl)
        λ new deleted.
          let rows =
            delete_group_member-ok sv laws req.group_id req.kicked_user_ids db new deleted in
          let may =
            OnOk-ok (λ u. Checked sv req db) checked (check_kick_req-Checked sv laws req db) in
          inr (may.0, may.1, may.2, rows)
