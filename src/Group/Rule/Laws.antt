-- ===== src/Group/Rule/Laws.antt =====
-- What the checks of a transfer find.
use open_im_server.Base.{
  ◌≡◌, ◌≢◌, ◌⊎◌, inl, inr, ◌==◌, true, not, ◌&&◌, ◌||◌, Bytes, bytes_discrete, [], ◌∷◌, map, Option,
  none, some, dec_true, err_args, err_no_permission, err_dismissed_already, OnOk, >>=-OnOk,
  >>=-OnOk_of, require, require-OnOk, Bool-cases, arith,
}
use open_im_server.Group.Model.{GroupMemberModel, Db, GroupServices}
use open_im_server.Group.Db.{take_group, find_group_members}
use open_im_server.Group.Db.Laws.{TableLaws, find_group_members-All}
use open_im_server.Group.People.{is_manager_op, populate_group_member, no_ids}
use open_im_server.Group.Leave.{member_of}
use open_im_server.Group.Leave.Rows.{HasRow, populate_group_member-HasRow, Found, member_of-Found}
use open_im_server.Group.Rule.{TransferReq, not_nil, find_two, check_transfer}

-- The two members have rows, with their roles.
abbrev pub TwoRows : TransferReq → Db → GroupMemberModel × GroupMemberModel → Type 0
TwoRows req db two =
    HasRow req.group_id db two.0
    × (two.0.user_id ≡ req.old_owner_user_id)
    × HasRow req.group_id db two.1
    × (two.1.user_id ≡ req.new_owner_user_id)

not_nil-Found :
    (P : GroupMemberModel → Type 0) (id : Bytes) (o : Option GroupMemberModel)
    → Found P id o
    → OnOk (λ m. P m × (m.user_id ≡ id)) (not_nil o)
not_nil-Found P id none f = tt
not_nil-Found P id (some m) f = f

find_two-TwoRows :
    (sv : GroupServices) (laws : TableLaws sv) (req : TransferReq) (db : Db)
    → OnOk (TwoRows req db) (find_two sv req db)
unfolding find_two
find_two-TwoRows sv laws req db =
    let P = TwoRows req db in
    let Q = HasRow req.group_id db in
    let ids = req.old_owner_user_id ∷ req.new_owner_user_id ∷ [] in
    >>=-OnOk P (find_group_members sv req.group_id ids db) _ λ ms h.
      let rows = find_group_members-All sv laws req.group_id ids db ms h in
      >>=-OnOk_of _ P (populate_group_member sv ms) _
        (populate_group_member-HasRow sv req.group_id db ms rows)
        λ populated has.
          >>=-OnOk P (require (no_ids (sv.single ids (map (λ m. m.user_id) populated))) err_args) _
            λ a b.
              let old = member_of req.old_owner_user_id populated in
              let new = member_of req.new_owner_user_id populated in
              >>=-OnOk_of _ P (not_nil old) _
                (not_nil-Found Q req.old_owner_user_id old
                  (member_of-Found Q req.old_owner_user_id populated has))
                λ m f.
                  >>=-OnOk_of _ P (not_nil new) _
                    (not_nil-Found Q req.new_owner_user_id new
                      (member_of-Found Q req.new_owner_user_id populated has))
                    λ n g. (f.0, f.1, g.0, g.1)

-- What the checks of a transfer have found; `owns` is the permission of one who is no app manager.
abbrev pub TransferChecked :
    GroupServices → TransferReq → Db → GroupMemberModel × GroupMemberModel → Type 0
TransferChecked sv req db two =
    TwoRows req db two
    × (req.old_owner_user_id ≢ req.new_owner_user_id)
    × ((is_manager_op sv ≡ true)
        ⊎ ((sv.op_user_id ≡ two.0.user_id) × (two.0.role_level ≡ sv.k.group_owner)))

manager_or_owner :
    (sv : GroupServices) (m : GroupMemberModel)
    → (is_manager_op sv
        || (dec_true (bytes_discrete sv.op_user_id m.user_id) && m.role_level == sv.k.group_owner))
      ≡ true
    → (is_manager_op sv ≡ true) ⊎ ((sv.op_user_id ≡ m.user_id) × (m.role_level ≡ sv.k.group_owner))
manager_or_owner sv m t = elim (Bool-cases (is_manager_op sv)) [
  | inl e ↦ inl e
  | inr n ↦ inr (ground arith, ground arith)
]

pub check_transfer-TransferChecked :
    (sv : GroupServices) (laws : TableLaws sv) (req : TransferReq) (db : Db)
    → OnOk (TransferChecked sv req db) (check_transfer sv req db)
unfolding check_transfer
check_transfer-TransferChecked sv laws req db =
    let P = TransferChecked sv req db in
    let same = dec_true (bytes_discrete req.old_owner_user_id req.new_owner_user_id) in
    >>=-OnOk P (take_group sv req.group_id db) _ λ group g.
      >>=-OnOk P (require (not (group.status == sv.k.group_status_dismissed)) err_dismissed_already)
        _
        λ a b.
          >>=-OnOk_of _ P (require (not same) err_args) _ (require-OnOk _ (not same) _ (λ t. t))
            λ c apart.
              >>=-OnOk_of _ P (find_two sv req db) _ (find_two-TwoRows sv laws req db) λ two rows.
                let may =
                  is_manager_op sv
                  || (dec_true (bytes_discrete sv.op_user_id two.0.user_id)
                      && two.0.role_level == sv.k.group_owner) in
                >>=-OnOk_of _ P (require may err_no_permission) _ (require-OnOk _ may _ (λ t. t))
                  λ d t. (rows, ground arith, manager_or_owner sv two.0 t)
