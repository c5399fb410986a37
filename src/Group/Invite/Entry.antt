-- ===== src/Group/Invite/Entry.antt =====
-- What InviteUserToGroup leaves of the tables, and the invariants through it.
use open_im_server.Base.{
  ℕ, ◌≡◌, ◌⊎◌, ◌==◌, false, not, ◌&&◌, Bytes, List, [], ◌∷◌, ◌++◌, map, Option, OnOk-ok, if-cases,
}
use open_im_server.Group.Model.{GroupModel, GroupMemberModel, Db, GroupServices}
use open_im_server.Group.Rows.{with_members}
use open_im_server.Group.Db.{create_members, create_group_rows, create_group_request}
use open_im_server.Group.Db.Laws.{TableLaws}
use open_im_server.Group.Rooted.{IsGood, create_members-IsGood, same_tables-IsGood}
use open_im_server.Group.Outcome.{Outcome, guarded-keeps, committed-keeps}
use open_im_server.Group.Join.Laws.{
  DistinctRoles, LeavesRoles, row_exists, create_group_request-same,
}
use open_im_server.Group.Invite.{
  InviteReq, role_may_add, check_invite_req, invited_member, callback_joins, add_invited,
  invite_user_to_group,
}
use open_im_server.Group.Invite.Laws.{
  callback_joins-SameMembers, SameMembers-AllIn, SameMembers-NoOwner, invited-rows, InviteChecked,
  check_invite_req-InviteChecked,
}

-- The members that enter are those invited, one by one, with the ordinary role.
abbrev pub InvitedIn : GroupServices → Bytes → List Bytes → List GroupMemberModel → Type 0
InvitedIn sv group_id [] [] = Unit
InvitedIn sv group_id (id ∷ ids) (m ∷ ms) =
    ((m.group_id ≡ group_id) × (m.user_id ≡ id) × (m.role_level ≡ sv.k.group_ordinary_users))
    × InvitedIn sv group_id ids ms
InvitedIn sv group_id _ _ = ⊥

-- What an invitation leaves: the tables as they were, or the members with those invited, from an app manager
-- or a member that may add to this group, or join requests and no other change.
abbrev pub InviteDone : GroupServices → InviteReq → Db → Db → Type 0
InviteDone sv req db new =
    (new ≡ db)
    ⊎ ((group : GroupModel) × (op : Bytes) × (role : Option ℕ) × InviteChecked sv req db
          (group, op, role)
        × ((((group.need_verification == sv.k.all_need_verification && not (role_may_add sv role))
                ≡ false)
              × ((ms : List GroupMemberModel) × InvitedIn sv req.group_id req.invited_user_ids ms
                  × (new ≡ with_members db (db.members ++ ms))))
            ⊎ ((new.members ≡ db.members) × (new.groups ≡ db.groups))))

pub invite_user_to_group-IsGood :
    (sv : GroupServices) (laws : TableLaws sv) (req : InviteReq) (db : Db)
    → DistinctRoles sv.k
    → LeavesRoles sv
    → IsGood sv.k db
    → IsGood sv.k (invite_user_to_group sv req db).db
unfolding invite_user_to_group add_invited create_group_rows
invite_user_to_group-IsGood sv laws req db d leaves v =
    let P = IsGood sv.k in
    guarded-keeps P db (check_invite_req sv req db) _ v λ found h.
      let checked = OnOk-ok _ h (check_invite_req-InviteChecked sv laws req db) in
      let (group, op, role) = found in
      let ms = map (invited_member sv req.group_id op) req.invited_user_ids in
      let rows = invited-rows sv req.group_id op req.invited_user_ids d in
      if-cases (λ (o : Outcome). P o.db)
        (group.need_verification == sv.k.all_need_verification && not (role_may_add sv role))
        (λ closed. committed-keeps P db (create_group_request sv _ db) _ v λ new made.
          same_tables-IsGood sv.k db new (OnOk-ok _ made (create_group_request-same sv _ db)) v)
        (λ free. guarded-keeps P db (callback_joins sv group.ex ms) _ v λ ns same.
          let kept = OnOk-ok _ same (callback_joins-SameMembers sv group.ex ms leaves) in
          committed-keeps P db (create_members sv ns db) _ v λ new made.
            create_members-IsGood sv laws req.group_id ns db new
              (SameMembers-NoOwner sv.k ms ns kept rows.0)
              (SameMembers-AllIn req.group_id ms ns kept rows.1)
              (row_exists req.group_id db group checked.0) made v)
