-- ===== src/Group/Rule/Mute.antt =====
-- Who mutes a member, and the invariants through muting and dismissal.
use open_im_server.Base.{
  ℕ, ◌+◌, ◌*◌, ◌≡◌, ◌≢◌, ◌⊎◌, inl, inr, refl, ◌==◌, true, Bytes, [], ◌∷◌, some, OnOk, OnOk-ok,
  >>=-OnOk, OnOk-weaken, if-cases, arith,
}
use open_im_server.Group.Driver.{set_first}
use open_im_server.Group.Model.{GroupMemberModel, Db, GroupServices, GroupConstants, is_member}
use open_im_server.Group.Rows.{with_members, set_mute_end_time}
use open_im_server.Group.Db.{take_group_member, update_group_member}
use open_im_server.Group.Db.Laws.{TableLaws, member_row, update_group_member-ok}
use open_im_server.Group.Rooted.{IsGood, update_group_member-IsGood}
use open_im_server.Group.Outcome.{guarded-keeps, committed-keeps}
use open_im_server.Group.People.{is_manager_op, populate_group_member}
use open_im_server.Group.Rule.{
  MuteReq, check_mute_roles, check_mute, mute_group_member, cancel_mute_group_member,
}

-- The roles that a role may mute: the owner mutes admins and ordinary members, an admin ordinary members;
-- a role that is none of the three is not protected.
abbrev pub MayMute : GroupConstants → ℕ → ℕ → Type 0
MayMute k op_role role =
    (role ≢ k.group_owner)
    × (role ≡ k.group_admin → op_role ≡ k.group_owner)
    × (role ≡ k.group_ordinary_users → op_role ≢ k.group_owner → op_role ≡ k.group_admin)

check_mute_roles-MayMute :
    (k : GroupConstants) (op_role role : ℕ)
    → k.group_ordinary_users ≢ k.group_admin
    → OnOk (λ u. MayMute k op_role role) (check_mute_roles k op_role role)
check_mute_roles-MayMute k op_role role d = ground arith

-- The member has a row, and the one who acts is an app manager or a member that may mute it.
abbrev pub MuteChecked : GroupServices → Bytes → Bytes → Db → Type 0
MuteChecked sv group_id user_id db =
    (m : GroupMemberModel) × (member_row group_id user_id db ≡ some m)
    × ((is_manager_op sv ≡ true)
        ⊎ ((op : GroupMemberModel) × (member_row group_id sv.op_user_id db ≡ some op)
            × MayMute sv.k op.role_level m.role_level))

check_mute-MuteChecked :
    (sv : GroupServices) (laws : TableLaws sv) (group_id user_id : Bytes) (db : Db)
    → sv.k.group_ordinary_users ≢ sv.k.group_admin
    → OnOk (λ u. MuteChecked sv group_id user_id db) (check_mute sv group_id user_id db)
unfolding check_mute
check_mute-MuteChecked sv laws group_id user_id db d =
    let P : Unit {0} → Type 0 = λ u. MuteChecked sv group_id user_id db in
    >>=-OnOk P (take_group_member sv group_id user_id db) _ λ m h.
      let row = laws.member_laws.find_one-ok _ db.members m h in
      >>=-OnOk P (populate_group_member sv (m ∷ [])) _ λ populated e.
        if-cases (OnOk P) (is_manager_op sv) (λ manager. (m, row, inl manager))
          λ n. >>=-OnOk P (take_group_member sv group_id sv.op_user_id db) _ λ op g.
            OnOk-weaken _ P (check_mute_roles sv.k op.role_level m.role_level)
              (λ u may. (m, row, inr (op, laws.member_laws.find_one-ok _ db.members op g, may)))
              (check_mute_roles-MayMute sv.k op.role_level m.role_level d)

-- The tables with another end of a member's mute.
abbrev pub muted_until : Bytes → Bytes → ℕ → Db → Db
muted_until group_id user_id t db =
    with_members db (set_first (is_member (group_id, user_id)) (set_mute_end_time t) db.members)

pub mute_authorized :
    (sv : GroupServices) (laws : TableLaws sv) (req : MuteReq) (db : Db)
    → sv.k.group_ordinary_users ≢ sv.k.group_admin
    → ((mute_group_member sv req db).db ≡ db)
      ⊎ (MuteChecked sv req.group_id req.user_id db
          × ((mute_group_member sv req db).db
              ≡ muted_until req.group_id req.user_id (sv.now + 1000 * req.muted_seconds) db))
unfolding mute_group_member
mute_authorized sv laws req db d =
    let P : Db → Type 0 = λ new.
      (new ≡ db)
      ⊎ (MuteChecked sv req.group_id req.user_id db
          × (new ≡ muted_until req.group_id req.user_id (sv.now + 1000 * req.muted_seconds) db)) in
    guarded-keeps P db (check_mute sv req.group_id req.user_id db) _ (inl refl) λ u h.
      committed-keeps P db (update_group_member sv req.group_id req.user_id _ db) _ (inl refl)
        λ new made.
          let checked =
            OnOk-ok _ h (check_mute-MuteChecked sv laws req.group_id req.user_id db d) in
          let rows = update_group_member-ok sv laws req.group_id req.user_id _ db new made in
          inr (checked, rows.0)

mute-IsTame :
    (k : GroupConstants) (t : ℕ) (m : GroupMemberModel)
    → ((set_mute_end_time t m).group_id ≡ m.group_id)
      × ((set_mute_end_time t m).user_id ≡ m.user_id)
      × (((set_mute_end_time t m).role_level == k.group_owner) ≡ true
          → (m.role_level == k.group_owner) ≡ true)
mute-IsTame k t m = (refl, refl, λ h. h)

pub mute_group_member-IsGood :
    (sv : GroupServices) (laws : TableLaws sv) (req : MuteReq) (db : Db)
    → IsGood sv.k db
    → IsGood sv.k (mute_group_member sv req db).db
unfolding mute_group_member
mute_group_member-IsGood sv laws req db v =
    let P = IsGood sv.k in
    guarded-keeps P db (check_mute sv req.group_id req.user_id db) _ v λ u h.
      committed-keeps P db (update_group_member sv req.group_id req.user_id _ db) _ v λ new made.
        update_group_member-IsGood sv laws req.group_id req.user_id _ db new
          (mute-IsTame sv.k (sv.now + 1000 * req.muted_seconds)) made v

pub cancel_mute_group_member-IsGood :
    (sv : GroupServices) (laws : TableLaws sv) (group_id user_id : Bytes) (db : Db)
    → IsGood sv.k db
    → IsGood sv.k (cancel_mute_group_member sv group_id user_id db).db
unfolding cancel_mute_group_member
cancel_mute_group_member-IsGood sv laws group_id user_id db v =
    let P = IsGood sv.k in
    guarded-keeps P db (check_mute sv group_id user_id db) _ v λ u h.
      committed-keeps P db (update_group_member sv group_id user_id _ db) _ v λ new made.
        update_group_member-IsGood sv laws group_id user_id _ db new (mute-IsTame sv.k 0) made v
