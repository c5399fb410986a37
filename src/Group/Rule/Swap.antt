-- ===== src/Group/Rule/Swap.antt =====
-- The owners of a group while two of its rows trade roles.
use open_im_server.Base.{
  ◌+◌, ◌≡◌, ◌≢◌, refl, ◌∙◌, ◌==◌, Bool, true, false, Bytes, List, [], ◌∷◌, some, arith,
}
use open_im_server.Group.Driver.{first, count, set_first}
use open_im_server.Group.Driver.Laws.{unit_if, first-passes, count-set_first}
use open_im_server.Group.Model.{GroupMemberModel, GroupConstants, is_member, has_role}
use open_im_server.Group.Rows.{set_role_level}

-- A change of one document is not seen by a test that it does not pass before or after.
first-set_other :
    {D : Type 0} (p q : D → Bool) (f : D → D) (xs : List D)
    → ((d : D) → q d ≡ true → (p d ≡ false) × (p (f d) ≡ false))
    → first p (set_first q f xs) ≡ first p xs
first-set_other p q f [] h = refl
first-set_other p q f (x ∷ xs) h = ground (arith, first-set_other p q f xs h, h x)

module _ (k : GroupConstants) (group_id old new : Bytes) (apart : old ≢ new) where
  -- The owners of the group while one row is given the other's role, and that one the owner's.
  pub swapped-owners :
      (xs : List GroupMemberModel) (ro rn : GroupMemberModel)
      → first (is_member (group_id, old)) xs ≡ some ro
      → first (is_member (group_id, new)) xs ≡ some rn
      → count (has_role group_id k.group_owner) (
            set_first
              (is_member (group_id, new))
              (set_role_level k.group_owner)
              (set_first (is_member (group_id, old)) (set_role_level rn.role_level) xs))
          + unit_if (ro.role_level == k.group_owner)
        ≡ count (has_role group_id k.group_owner) xs + 1
  swapped-owners xs ro rn hro hrn =
      let p = has_role group_id k.group_owner in
      let po = is_member (group_id, old) in
      let pn = is_member (group_id, new) in
      let lowered = set_first po (set_role_level rn.role_level) xs in
      let same : first pn lowered ≡ some rn =
        first-set_other pn po (set_role_level rn.role_level) xs
          (λ d h. (ground arith, ground arith))
        ∙ hrn in
      ground (
        arith,
        count-set_first p po (set_role_level rn.role_level) xs ro hro,
        count-set_first p pn (set_role_level k.group_owner) lowered rn same,
        first-passes po xs ro hro,
        first-passes pn xs rn hrn,
      )

  -- Nothing changes for another group.
  pub swapped_elsewhere :
      (g : Bytes) (xs : List GroupMemberModel) (ro rn : GroupMemberModel)
      → group_id ≢ g
      → first (is_member (group_id, old)) xs ≡ some ro
      → first (is_member (group_id, new)) xs ≡ some rn
      → count (has_role g k.group_owner) (
          set_first
            (is_member (group_id, new))
            (set_role_level k.group_owner)
            (set_first (is_member (group_id, old)) (set_role_level rn.role_level) xs))
        ≡ count (has_role g k.group_owner) xs
  swapped_elsewhere g xs ro rn n hro hrn =
      let p = has_role g k.group_owner in
      let po = is_member (group_id, old) in
      let pn = is_member (group_id, new) in
      let lowered = set_first po (set_role_level rn.role_level) xs in
      let same : first pn lowered ≡ some rn =
        first-set_other pn po (set_role_level rn.role_level) xs
          (λ d h. (ground arith, ground arith))
        ∙ hrn in
      ground (
        arith,
        count-set_first p po (set_role_level rn.role_level) xs ro hro,
        count-set_first p pn (set_role_level k.group_owner) lowered rn same,
        first-passes po xs ro hro,
        first-passes pn xs rn hrn,
      )
