-- ===== src/Group/Leave/Owner.antt =====
-- The owner of a group through a removal.
use open_im_server.Base.{
  ◌≡◌, ◌≢◌, inl, inr, ap, sym, ◌∙◌, ◌==◌, true, false, not, Bytes, bytes_discrete, List, [], ◌∷◌,
  some, All, contains, Bool-cases, arith,
}
use mathlib.Core.Path.{subst}
use mathlib.Core.Option.{some-injective}
use open_im_server.Group.Driver.{first}
use open_im_server.Group.Driver.Laws.{
  All-weaken, count-keep-All, unique_is_first, count_two, first-passes,
}
use open_im_server.Group.Model.{GroupMemberModel, Db, GroupServices, is_member, has_role}
use open_im_server.Group.Db.{delete_filter}
use open_im_server.Group.Db.Laws.{TableLaws, member_row, key_of, is_member-key_of}
use open_im_server.Group.People.{is_manager_op, no_ids}
use open_im_server.Group.Valid.{owners, IsValid}
use open_im_server.Group.Leave.{KickReq, kick_group_member}
use open_im_server.Group.Leave.Laws.{Outranks, MayKick, kick_group_member-KickDone}

All-contains :
    (P : Bytes → Type 0) (ids : List Bytes) (id : Bytes)
    → All P ids
    → contains bytes_discrete id ids ≡ true
    → P id
All-contains P [] id a h = ground arith
All-contains P (x ∷ ids) id a h = elim (bytes_discrete id x) [
  | yes e ↦ subst P (sym e) a.0
  | no n ↦ All-contains P ids id a.1 (ground arith)
]

contains_apart :
    (ids : List Bytes) (a b : Bytes)
    → contains bytes_discrete a ids ≡ true
    → contains bytes_discrete b ids ≡ false
    → a ≢ b
contains_apart ids a b h n e = ground arith

deleted_row :
    (g : Bytes) (ids : List Bytes) (a : GroupMemberModel)
    → no_ids ids ≡ false
    → delete_filter g ids a ≡ true
    → (g ≡ a.group_id) × (contains bytes_discrete a.user_id ids ≡ true)
deleted_row g [] a n h = ground arith
deleted_row g (id ∷ ids) a n h = ground arith

module _ (sv : GroupServices) (req : KickReq) (db : Db) (v : IsValid sv.k db) where
  -- A second owner of the group would be a third row.
  kicked_below_owner :
      (op a : GroupMemberModel)
      → member_row req.group_id sv.op_user_id db ≡ some op
      → member_row req.group_id a.user_id db ≡ some a
      → a.user_id ≢ sv.op_user_id
      → Outranks sv.k op.role_level a.role_level
      → (a.role_level == sv.k.group_owner) ≡ false
  kicked_below_owner op a op_row row apart (inr (admin, no_owner, no_admin)) = ground arith
  kicked_below_owner op a op_row row apart (inl owns) =
      let p = is_member (req.group_id, a.user_id) in
      let q = is_member (req.group_id, sv.op_user_id) in
      elim (Bool-cases (a.role_level == sv.k.group_owner)) [
        | inr f ↦ f
        | inl t ↦
            let owner = has_role req.group_id sv.k.group_owner in
            let a_owns : owner a ≡ true = ground (arith, first-passes p db.members a row) in
            let op_owns : owner op ≡ true = ground (arith, first-passes q db.members op op_row) in
            let two =
              count_two p q owner db.members a op row op_row (ground arith) a_owns op_owns in
            ground (arith, two, v.1 req.group_id)
      ]

  -- A row that the filter deletes is no owner.
  kicked_no_owner :
      (a : GroupMemberModel)
      → is_manager_op sv ≡ false
      → MayKick sv req.group_id db a.user_id
      → a.user_id ≢ sv.op_user_id
      → member_row req.group_id a.user_id db ≡ some a
      → (a.role_level == sv.k.group_owner) ≡ false
  kicked_no_owner a nm (r, r_row, inl m) apart row = ground arith
  kicked_no_owner a nm (r, r_row, inr (op, op_row, above)) apart row =
      let same = some-injective _ _ (sym r_row ∙ row) in
      kicked_below_owner op a op_row row apart
        (subst (λ b. Outranks sv.k op.role_level b) (ap (λ m. m.role_level) same) above)

  row_stays :
      (g : Bytes) (a : GroupMemberModel)
      → is_manager_op sv ≡ false
      → All (MayKick sv req.group_id db) req.kicked_user_ids
      → contains bytes_discrete sv.op_user_id req.kicked_user_ids ≡ false
      → no_ids req.kicked_user_ids ≡ false
      → first (is_member (key_of a)) db.members ≡ some a
      → has_role g sv.k.group_owner a ≡ true
      → not (delete_filter req.group_id req.kicked_user_ids a) ≡ true
  row_stays g a nm may out some_ids row owns =
      elim (Bool-cases (delete_filter req.group_id req.kicked_user_ids a)) [
        | inr f ↦ ground arith
        | inl t ↦
            let (same_group, isin) = deleted_row req.group_id req.kicked_user_ids a some_ids t in
            let own_row = ap (λ u. member_row u a.user_id db) same_group ∙ row in
            let apart = contains_apart req.kicked_user_ids a.user_id sv.op_user_id isin out in
            let may_a = All-contains _ req.kicked_user_ids a.user_id may isin in
            ground (arith, kicked_no_owner a nm may_a apart own_row)
      ]

-- On a valid table a removal by anybody but an app manager leaves the number of owners of every
-- group as it was: no member can remove an owner.
pub kick_keeps_owner :
    (sv : GroupServices) (laws : TableLaws sv) (req : KickReq) (db : Db)
    → IsValid sv.k db
    → is_manager_op sv ≡ false
    → (g : Bytes) → owners sv.k g (kick_group_member sv req db).db ≡ owners sv.k g db
kick_keeps_owner sv laws req db v nm g = elim (kick_group_member-KickDone sv laws req db) [
  | inl e ↦ ap (owners sv.k g) e
  | inr (may, out, some_ids, e) ↦
      let own_rows = unique_is_first is_member key_of db.members v.0 is_member-key_of in
      let stays =
        All-weaken db.members (λ a row owns. row_stays sv req db v g a nm may out some_ids row owns)
          own_rows in
      ap (owners sv.k g) e ∙ count-keep-All (has_role g sv.k.group_owner) _ db.members stays
]
