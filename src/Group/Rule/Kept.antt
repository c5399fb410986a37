-- ===== src/Group/Rule/Kept.antt =====
-- The invariants through a transfer.
use open_im_server.Base.{ℕ, ◌≡◌, refl, ap, sym, ◌∙◌, false, Bytes, ok, >>=-eq-ok, arith}
use open_im_server.Group.Driver.{first, IsUnique}
use open_im_server.Group.Driver.Laws.{count-set_first, set_first-IsUnique}
use open_im_server.Group.Model.{Db, GroupServices, is_group, is_member}
use open_im_server.Group.Rows.{set_role_level}
use open_im_server.Group.Db.{in_group, update_group_member, transfer_group_owner_rows}
use open_im_server.Group.Db.Laws.{TableLaws, update_group_member-ok}
use open_im_server.Group.Valid.{rows_of}
use open_im_server.Group.Rooted.{IsRooted, IsGood}
use open_im_server.Group.Outcome.{guarded-keeps, committed-keeps}
use open_im_server.Group.People.{is_manager_op}
use open_im_server.Group.Rule.{TransferReq, check_transfer, transfer_group_owner}
use open_im_server.Group.Rule.Transfer.{transfer_keeps_owners}

abbrev pub IsKept : Db → Type 0
IsKept db = IsUnique is_member db.members × IsRooted db

-- A new role keeps the keys of the rows.
set_role_level-IsKept :
    (sv : GroupServices) (laws : TableLaws sv) (group_id user_id : Bytes) (role : ℕ) (db new : Db)
    → update_group_member sv group_id user_id (set_role_level role) db ≡ ok new
    → IsKept db
    → IsKept new
set_role_level-IsKept sv laws group_id user_id role db new h v =
    let p = is_member (group_id, user_id) in
    let f = set_role_level role in
    let (eq, (m, row)) = update_group_member-ok sv laws group_id user_id f db new h in
    (
      λ key. omega (
        arith,
        rows_of eq (is_member key),
        set_first-IsUnique is_member p f db.members m (λ k a. refl) row v.0 key,
      ),
      λ g absent.
          let old = v.1 g (sym (ap (λ d. first (is_group g) d.groups) eq) ∙ absent) in
          omega (
            arith,
            old,
            rows_of eq (in_group g),
            count-set_first (in_group g) p f db.members m row,
          ),
    )

transfer_group_owner-IsKept :
    (sv : GroupServices) (laws : TableLaws sv) (req : TransferReq) (db : Db)
    → IsKept db
    → IsKept (transfer_group_owner sv req db).db
unfolding transfer_group_owner transfer_group_owner_rows
transfer_group_owner-IsKept sv laws req db v =
    let old = req.old_owner_user_id in
    let new_owner = req.new_owner_user_id in
    guarded-keeps IsKept db (check_transfer sv req db) _ v λ two h.
      committed-keeps IsKept db (transfer_group_owner_rows sv _ _ _ two.1.role_level db) _ v
        λ new made.
          let (lowered, e, e') =
            >>=-eq-ok (update_group_member sv req.group_id old (set_role_level two.1.role_level) db)
              (update_group_member sv req.group_id new_owner (set_role_level sv.k.group_owner))
              made in
          set_role_level-IsKept sv laws req.group_id new_owner sv.k.group_owner lowered new e'
            (set_role_level-IsKept sv laws req.group_id old two.1.role_level db lowered e v)

pub transfer_group_owner-IsGood :
    (sv : GroupServices) (laws : TableLaws sv) (req : TransferReq) (db : Db)
    → is_manager_op sv ≡ false
    → IsGood sv.k db
    → IsGood sv.k (transfer_group_owner sv req db).db
transfer_group_owner-IsGood sv laws req db nm v =
    let kept = transfer_group_owner-IsKept sv laws req db (v.0.0, v.1) in
    ((kept.0, λ g. omega (arith, transfer_keeps_owners sv laws req db nm g, v.0.1 g)), kept.1)
