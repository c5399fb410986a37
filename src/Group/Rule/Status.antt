-- ===== src/Group/Rule/Status.antt =====
-- The status of a group: muting it, dismissing it, and the invariants through both.
use open_im_server.Base.{
  ℕ, ◌≡◌, ◌⊎◌, inl, inr, refl, ap, ◌∙◌, Bool, true, false, Bytes, List, [], ◌∷◌, some, ok, ◌>>=◌,
  >>=-eq-ok, OnOk-ok, arith,
}
use open_im_server.Group.Driver.{first, set_first}
use open_im_server.Group.Model.{GroupModel, Db, GroupServices, is_group}
use open_im_server.Group.Rows.{set_status, with_groups}
use open_im_server.Group.Db.{
  update_group_status, find_group_member_user_id, delete_group_member, dismiss_group_rows,
}
use open_im_server.Group.Db.Laws.{TableLaws}
use open_im_server.Group.Rooted.{
  IsGood, delete_group_member-IsGood, update_group_status-ok, update_group_status-IsGood,
}
use open_im_server.Group.Outcome.{guarded-keeps, committed-keeps, committed_then-keeps}
use open_im_server.Group.People.{check_group_admin}
use open_im_server.Group.Answer.Laws.{IsAdmin, check_group_admin-IsAdmin}
use open_im_server.Group.Rule.{
  DismissReq, check_dismiss, dismiss_group, mute_group, cancel_mute_group,
}

first_status :
    (group_id : Bytes) (status : ℕ) (gs : List GroupModel) (g : GroupModel)
    → first (is_group group_id) gs ≡ some g
    → first (is_group group_id) (set_first (is_group group_id) (set_status status) gs)
      ≡ some (set_status status g)
first_status group_id status [] g h = ground arith
first_status group_id status (x ∷ gs) g h = ground (arith, first_status group_id status gs g)

-- What a new status leaves: the tables as they were, or, for an app manager, the owner or an admin, the group with
-- that status, whatever its status was.
abbrev pub StatusDone : GroupServices → Bytes → ℕ → Db → Db → Type 0
StatusDone sv group_id status db new =
    (new ≡ db)
    ⊎ (IsAdmin sv group_id db
        × ((g : GroupModel) × (first (is_group group_id) db.groups ≡ some g)
            × (first (is_group group_id) new.groups ≡ some (set_status status g)))
        × (new.members ≡ db.members))

status_set :
    (sv : GroupServices) (laws : TableLaws sv) (group_id : Bytes) (status : ℕ) (db new : Db)
    → IsAdmin sv group_id db
    → update_group_status sv group_id status db ≡ ok new
    → StatusDone sv group_id status db new
status_set sv laws group_id status db new admin made =
    let (eq, (g, row)) = update_group_status-ok sv laws group_id status db new made in
    inr (
      admin,
      (
        g,
        row,
        ap (λ d. first (is_group group_id) d.groups) eq
            ∙ first_status group_id status db.groups g row,
      ),
      ap (λ d. d.members) eq,
    )

-- The tables stay as they were, or an app manager, the owner or an admin has set the status.
status_authorized :
    (sv : GroupServices) (laws : TableLaws sv) (group_id : Bytes) (db : Db)
    → StatusDone sv group_id sv.k.group_status_muted db (mute_group sv group_id db).db
      × StatusDone sv group_id sv.k.group_ok db (cancel_mute_group sv group_id db).db
unfolding mute_group cancel_mute_group
status_authorized sv laws group_id db =
    let P = λ (status : ℕ) (new : Db). StatusDone sv group_id status db new in
    let admin = λ (u : Unit {0}) (h : check_group_admin sv group_id db ≡ ok u).
      OnOk-ok _ h (check_group_admin-IsAdmin sv laws group_id db) in
    let muted = sv.k.group_status_muted in
    (
      guarded-keeps (P muted) db (check_group_admin sv group_id db) _ (inl refl) λ u h.
          committed-keeps (P muted) db (update_group_status sv group_id muted db) _ (inl refl)
            λ new made. status_set sv laws group_id muted db new (admin u h) made,
      guarded-keeps (P sv.k.group_ok) db (check_group_admin sv group_id db) _ (inl refl) λ u h.
          committed-keeps (P sv.k.group_ok) db (update_group_status sv group_id sv.k.group_ok db) _
            (inl refl)
            λ new made. status_set sv laws group_id sv.k.group_ok db new (admin u h) made,
    )

-- The group has a status, and the members are those of before.
abbrev pub HasStatus : Bytes → ℕ → Db → Db → Type 0
HasStatus group_id status db new =
    ((g : GroupModel) × (first (is_group group_id) new.groups ≡ some g) × (g.status ≡ status))
    × (new.members ≡ db.members)

status_written :
    (sv : GroupServices) (laws : TableLaws sv) (group_id : Bytes) (status : ℕ) (db : Db)
    (g : GroupModel) (gs : List GroupModel)
    → first (is_group group_id) db.groups ≡ some g
    → sv.groups.update_one (is_group group_id) (set_status status) db.groups ≡ ok gs
    → HasStatus group_id status db (with_groups db gs)
status_written sv laws group_id status db g gs row made =
    let rows = (laws.group_laws.update_one-ok _ _ db.groups gs made).0 in
    (
      (
        set_status status g,
        ap (first (is_group group_id)) rows ∙ first_status group_id status db.groups g row,
        refl,
      ),
      refl,
    )

-- For one who passes the check for an admin `MuteGroup` and `CancelMuteGroup` give every group
-- that has a row their status, whatever its status was, dismissed included, and leave the members,
-- if the collection carries the writes out.
pub status_overwritten :
    (sv : GroupServices) (laws : TableLaws sv) (group_id : Bytes) (db : Db) (g : GroupModel)
    → check_group_admin sv group_id db ≡ ok tt
    → first (is_group group_id) db.groups ≡ some g
    → ((status : ℕ)
        → (gs : List GroupModel) × (sv.groups.update_one
              (is_group group_id)
              (set_status status)
              db.groups
            ≡ ok gs))
    → HasStatus group_id sv.k.group_status_muted db (mute_group sv group_id db).db
      × HasStatus group_id sv.k.group_ok db (cancel_mute_group sv group_id db).db
unfolding mute_group cancel_mute_group
status_overwritten sv laws group_id db g admin row writes =
    let (muted, e) = writes sv.k.group_status_muted in
    let (freed, e') = writes sv.k.group_ok in
    (
      rw (admin, e) (status_written sv laws group_id sv.k.group_status_muted db g muted row e),
      rw (admin, e') (status_written sv laws group_id sv.k.group_ok db g freed row e'),
    )

pub mute_group-IsGood :
    (sv : GroupServices) (laws : TableLaws sv) (group_id : Bytes) (db : Db)
    → IsGood sv.k db
    → IsGood sv.k (mute_group sv group_id db).db
unfolding mute_group
mute_group-IsGood sv laws group_id db v =
    let P = IsGood sv.k in
    guarded-keeps P db (check_group_admin sv group_id db) _ v λ u h.
      committed-keeps P db (update_group_status sv group_id _ db) _ v
        λ new made. update_group_status-IsGood sv laws group_id _ db new made v

pub cancel_mute_group-IsGood :
    (sv : GroupServices) (laws : TableLaws sv) (group_id : Bytes) (db : Db)
    → IsGood sv.k db
    → IsGood sv.k (cancel_mute_group sv group_id db).db
unfolding cancel_mute_group
cancel_mute_group-IsGood sv laws group_id db v =
    let P = IsGood sv.k in
    guarded-keeps P db (check_group_admin sv group_id db) _ v λ u h.
      committed-keeps P db (update_group_status sv group_id _ db) _ v
        λ new made. update_group_status-IsGood sv laws group_id _ db new made v

dismiss_group_rows-IsGood :
    (sv : GroupServices) (laws : TableLaws sv) (group_id : Bytes) (delete_member : Bool)
    (db new : Db)
    → dismiss_group_rows sv group_id delete_member db ≡ ok new
    → IsGood sv.k db
    → IsGood sv.k new
unfolding dismiss_group_rows
dismiss_group_rows-IsGood sv laws group_id false db new h v =
    update_group_status-IsGood sv laws group_id _ db new h v
dismiss_group_rows-IsGood sv laws group_id true db new h v =
    let status = sv.k.group_status_dismissed in
    let (dismissed, e, e') =
      >>=-eq-ok (update_group_status sv group_id status db)
        (λ dismissed. (do
          user_ids ← find_group_member_user_id sv group_id db
          delete_group_member sv group_id [] dismissed))
        h in
    let (ids, f, f') =
      >>=-eq-ok (find_group_member_user_id sv group_id db)
        (λ user_ids. delete_group_member sv group_id [] dismissed) e' in
    delete_group_member-IsGood sv laws group_id [] dismissed new f'
      (update_group_status-IsGood sv laws group_id status db dismissed e v)

pub dismiss_group-IsGood :
    (sv : GroupServices) (laws : TableLaws sv) (req : DismissReq) (db : Db)
    → IsGood sv.k db
    → IsGood sv.k (dismiss_group sv req db).db
unfolding dismiss_group
dismiss_group-IsGood sv laws req db v =
    let P = IsGood sv.k in
    guarded-keeps P db (check_dismiss sv req db) _ v λ found h.
      committed_then-keeps P db (dismiss_group_rows sv req.group_id req.delete_member db) _ v
        λ new made. dismiss_group_rows-IsGood sv laws req.group_id req.delete_member db new made v
