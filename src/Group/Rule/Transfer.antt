-- ===== src/Group/Rule/Transfer.antt =====
-- What a transfer does to the owners of a group (TransferGroupOwner).
use open_im_server.Base.{
  ℕ, ◌+◌, ◌≡◌, ◌≢◌, ◌⊎◌, inl, inr, refl, ap, sym, ◌∙◌, ◌==◌, true, false, Bytes, bytes_discrete,
  some, OnOk, OnOk-ok, OnOk-of, >>=-OnOk, arith,
}
use mathlib.Core.Option.{some-injective}
use open_im_server.Group.Driver.{set_first}
use open_im_server.Group.Driver.Laws.{unit_if}
use open_im_server.Group.Model.{GroupMemberModel, Db, GroupServices, is_member}
use open_im_server.Group.Rows.{with_members, set_role_level}
use open_im_server.Group.Db.{update_group_member, transfer_group_owner_rows}
use open_im_server.Group.Db.Laws.{TableLaws, member_row, update_group_member-ok}
use open_im_server.Group.Valid.{owners}
use open_im_server.Group.Outcome.{guarded-keeps, committed-keeps}
use open_im_server.Group.People.{is_manager_op}
use open_im_server.Group.Rule.{TransferReq, check_transfer, transfer_group_owner}
use open_im_server.Group.Rule.Laws.{TwoRows, TransferChecked, check_transfer-TransferChecked}
use open_im_server.Group.Rule.Swap.{swapped-owners, swapped_elsewhere}

-- The two writes of a transfer.
abbrev pub swapped : GroupServices → TransferReq → ℕ → Db → Db
swapped sv req role db = with_members db (
    set_first (is_member (req.group_id, req.new_owner_user_id)) (set_role_level sv.k.group_owner) (
      set_first (is_member (req.group_id, req.old_owner_user_id)) (set_role_level role) db.members))

transfer_group_owner_rows-ok :
    (sv : GroupServices) (laws : TableLaws sv) (req : TransferReq) (role : ℕ) (db : Db)
    → OnOk
        (λ new. new ≡ swapped sv req role db)
        (transfer_group_owner_rows sv req.group_id req.old_owner_user_id req.new_owner_user_id role
          db)
unfolding transfer_group_owner_rows
transfer_group_owner_rows-ok sv laws req role db =
    let P : Db → Type 0 = λ new. new ≡ swapped sv req role db in
    let old = req.old_owner_user_id in
    let pn = is_member (req.group_id, req.new_owner_user_id) in
    let raise = set_role_level sv.k.group_owner in
    >>=-OnOk P (update_group_member sv req.group_id old (set_role_level role) db) _ λ lowered h.
      OnOk-of P (update_group_member sv req.group_id req.new_owner_user_id raise lowered) λ new e.
        let a = (update_group_member-ok sv laws req.group_id old _ db lowered h).0 in
        let b =
          (update_group_member-ok sv laws req.group_id req.new_owner_user_id _ lowered new e).0 in
        b ∙ ap (λ d. with_members d (set_first pn raise d.members)) a

-- What a transfer leaves: the tables as they were, or, for an app manager or the owner, the two rows changed.
abbrev pub TransferDone : GroupServices → TransferReq → Db → Db → Type 0
TransferDone sv req db new =
    (new ≡ db)
    ⊎ ((two : GroupMemberModel × GroupMemberModel) × TransferChecked sv req db two
        × (new ≡ swapped sv req two.1.role_level db))

pub transfer_group_owner-TransferDone :
    (sv : GroupServices) (laws : TableLaws sv) (req : TransferReq) (db : Db)
    → TransferDone sv req db (transfer_group_owner sv req db).db
unfolding transfer_group_owner
transfer_group_owner-TransferDone sv laws req db =
    let P = TransferDone sv req db in
    guarded-keeps P db (check_transfer sv req db) _ (inl refl) λ two h.
      committed-keeps P db (transfer_group_owner_rows sv _ _ _ two.1.role_level db) _ (inl refl)
        λ new made. inr (
          two,
          OnOk-ok _ h (check_transfer-TransferChecked sv laws req db),
          OnOk-ok _ made (transfer_group_owner_rows-ok sv laws req two.1.role_level db),
        )

-- The owners after the two writes, in the group and in another.
swapped_rows :
    (sv : GroupServices) (req : TransferReq) (db : Db) (two : GroupMemberModel × GroupMemberModel)
    → TwoRows req db two
    → req.old_owner_user_id ≢ req.new_owner_user_id
    → owners sv.k req.group_id (swapped sv req two.1.role_level db)
        + unit_if (two.0.role_level == sv.k.group_owner)
      ≡ owners sv.k req.group_id db + 1
swapped_rows sv req db two (ho, io, hn, jn) apart =
    let (ro, row_o, role_o) = ho in
    let (rn, row_n, role_n) = hn in
    let old_row = ap (λ u. member_row req.group_id u db) (sym io) ∙ row_o in
    let new_row = ap (λ u. member_row req.group_id u db) (sym jn) ∙ row_n in
    ap
      (λ r.
        owners sv.k req.group_id (swapped sv req r db)
        + unit_if (two.0.role_level == sv.k.group_owner))
      (sym role_n)
    ∙ ap
        (λ r.
          owners sv.k req.group_id (swapped sv req rn.role_level db)
          + unit_if (r == sv.k.group_owner))
        (sym role_o)
    ∙ swapped-owners sv.k req.group_id req.old_owner_user_id req.new_owner_user_id apart db.members
        ro rn old_row new_row

swapped_rows_elsewhere :
    (sv : GroupServices) (req : TransferReq) (db : Db) (two : GroupMemberModel × GroupMemberModel)
    (g : Bytes)
    → req.group_id ≢ g
    → TwoRows req db two
    → req.old_owner_user_id ≢ req.new_owner_user_id
    → owners sv.k g (swapped sv req two.1.role_level db) ≡ owners sv.k g db
swapped_rows_elsewhere sv req db two g n (ho, io, hn, jn) apart =
    let (ro, row_o, role_o) = ho in
    let (rn, row_n, role_n) = hn in
    let old_row = ap (λ u. member_row req.group_id u db) (sym io) ∙ row_o in
    let new_row = ap (λ u. member_row req.group_id u db) (sym jn) ∙ row_n in
    ap (λ r. owners sv.k g (swapped sv req r db)) (sym role_n)
    ∙ swapped_elsewhere sv.k req.group_id req.old_owner_user_id req.new_owner_user_id apart g
        db.members ro rn n old_row new_row

by_owner :
    (sv : GroupServices) (req : TransferReq) (db : Db) (two : GroupMemberModel × GroupMemberModel)
    → is_manager_op sv ≡ false
    → TwoRows req db two
    → req.old_owner_user_id ≢ req.new_owner_user_id
    → ((is_manager_op sv ≡ true)
        ⊎ ((sv.op_user_id ≡ two.0.user_id) × (two.0.role_level ≡ sv.k.group_owner)))
    → owners sv.k req.group_id (swapped sv req two.1.role_level db) ≡ owners sv.k req.group_id db
by_owner sv req db two nm rows apart (inl m) = ground arith
by_owner sv req db two nm rows apart (inr o) = ground (arith, swapped_rows sv req db two rows apart)

-- `TransferGroupOwner` by anybody but an app manager keeps the number of owners of every group.
pub transfer_keeps_owners :
    (sv : GroupServices) (laws : TableLaws sv) (req : TransferReq) (db : Db)
    → is_manager_op sv ≡ false
    → (g : Bytes) → owners sv.k g (transfer_group_owner sv req db).db ≡ owners sv.k g db
transfer_keeps_owners sv laws req db nm g =
    elim (transfer_group_owner-TransferDone sv laws req db) [
      | inl e ↦ ap (owners sv.k g) e
      | inr (two, (rows, apart, may), e) ↦
          ap (owners sv.k g) e ∙ (elim (bytes_discrete req.group_id g) [
            | no n ↦ swapped_rows_elsewhere sv req db two g n rows apart
            | yes same ↦
                ap (λ x. owners sv.k x (swapped sv req two.1.role_level db)) (sym same)
                ∙ by_owner sv req db two nm rows apart may
                ∙ ap (λ x. owners sv.k x db) same
          ])
    ]

-- A transfer that changes the tables, from a member who is no owner, makes one owner more: the
-- request of an app manager is not compared with the role of the old owner.
pub transfer_adds_owner :
    (sv : GroupServices) (laws : TableLaws sv) (req : TransferReq) (db : Db) (m : GroupMemberModel)
    → member_row req.group_id req.old_owner_user_id db ≡ some m
    → m.role_level ≢ sv.k.group_owner
    → (transfer_group_owner sv req db).db ≢ db
    → owners sv.k req.group_id (transfer_group_owner sv req db).db ≡ owners sv.k req.group_id db + 1
transfer_adds_owner sv laws req db m row no_owner changed =
    elim (transfer_group_owner-TransferDone sv laws req db) [
      | inl e ↦ elim (changed e) [ ]
      | inr (two, (rows, apart, may), e) ↦
          let (ho, io, hn, jn) = rows in
          let (ro, row_o, role_o) = ho in
          let same =
            some-injective _ _
              (sym row ∙ (ap (λ u. member_row req.group_id u db) (sym io) ∙ row_o)) in
          ground (
            arith,
            ap (owners sv.k req.group_id) e,
            swapped_rows sv req db two rows apart,
            same,
            role_o,
          )
    ]
