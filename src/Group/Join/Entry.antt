-- ===== src/Group/Join/Entry.antt =====
-- What JoinGroup leaves of the tables, and the invariants through it.
use open_im_server.Base.{
  ◌≡◌, ◌⊎◌, inl, inr, refl, ◌∙◌, ◌==◌, true, false, [], ◌∷◌, ◌++◌, ok, OnOk-ok, if-cases,
}
use open_im_server.Group.Model.{GroupModel, GroupMemberModel, UserInfo, Db, GroupServices}
use open_im_server.Group.Rows.{with_members}
use open_im_server.Group.Db.{create_members, create_group_rows, create_group_request}
use open_im_server.Group.Db.Laws.{TableLaws, create_members-ok}
use open_im_server.Group.Rooted.{IsGood, create_members-IsGood, same_tables-IsGood}
use open_im_server.Group.Outcome.{Outcome, guarded-keeps, committed-keeps}
use open_im_server.Group.People.{get_user_info, callback_join}
use open_im_server.Group.Join.{
  JoinReq, new_member, join_request, check_join_req, join_directly, join_group,
}
use open_im_server.Group.Join.Laws.{
  DistinctRoles, LeavesRoles, callback_join-SameMember, JoinChecked, check_join_req-user,
  check_join_req-JoinChecked, ordinary_no_owner, row_group, row_exists, create_group_request-same,
}

-- What a join leaves: the tables as they were, or, for a user who was no member of a group that is not
-- dismissed, one ordinary member more, if the group is open, or else a request more or less and no
-- other change.
abbrev pub JoinDone : GroupServices → JoinReq → Db → Db → Type 0
JoinDone sv req db new =
    (new ≡ db)
    ⊎ ((user : UserInfo) × (group : GroupModel) × (get_user_info sv req.inviter_user_id ≡ ok user)
        × JoinChecked sv req db (user, group)
        × (((group.need_verification == sv.k.directly ≡ true)
              × ((m : GroupMemberModel) × (m.group_id ≡ req.group_id)
                  × (m.user_id ≡ user.user_id)
                  × (m.role_level ≡ sv.k.group_ordinary_users)
                  × (new ≡ with_members db (db.members ++ m ∷ []))))
            ⊎ ((group.need_verification == sv.k.directly ≡ false)
                × (new.members ≡ db.members)
                × (new.groups ≡ db.groups))))

-- `JoinGroup` changes nothing, or the user had no row in a group that exists and is not dismissed:
-- then exactly one member is added if the group is open, in that group, with the identifier of the
-- user that the user service gives, and with the ordinary role; otherwise members and groups stay
-- as they were. The webhooks replace no role.
pub join_group-JoinDone :
    (sv : GroupServices) (laws : TableLaws sv) (req : JoinReq) (db : Db)
    → LeavesRoles sv
    → JoinDone sv req db (join_group sv req db).db
unfolding join_group join_directly create_group_rows
join_group-JoinDone sv laws req db leaves =
    let P = JoinDone sv req db in
    guarded-keeps P db (check_join_req sv req db) _ (inl refl) λ found h.
      let who = OnOk-ok _ h (check_join_req-user sv req db) in
      let checked = OnOk-ok _ h (check_join_req-JoinChecked sv laws req db) in
      if-cases (λ (o : Outcome). P o.db) (found.1.need_verification == sv.k.directly)
        (λ direct.
          let m = new_member sv req found.1 found.0 in
          guarded-keeps P db (callback_join sv found.1.ex m) _ (inl refl) λ member same.
            committed-keeps P db (create_members sv (member ∷ []) db) _ (inl refl) λ new made.
              let kept = OnOk-ok _ same (callback_join-SameMember sv found.1.ex m leaves) in
              let rows = (create_members-ok sv laws (member ∷ []) db new made).0 in
              inr (
                found.0,
                found.1,
                who,
                checked,
                inl (
                  direct,
                  (
                    member,
                    kept.0 ∙ row_group req.group_id db found.1 checked.0,
                    kept.1,
                    kept.2,
                    rows,
                  ),
                ),
              ))
        (λ closed.
          committed-keeps P db (create_group_request sv (join_request sv req ∷ []) db) _ (inl refl)
            λ new made.
              let same =
                OnOk-ok _ made (create_group_request-same sv (join_request sv req ∷ []) db) in
              inr (found.0, found.1, who, checked, inr (closed, same.0, same.1)))

pub join_group-IsGood :
    (sv : GroupServices) (laws : TableLaws sv) (req : JoinReq) (db : Db)
    → DistinctRoles sv.k
    → LeavesRoles sv
    → IsGood sv.k db
    → IsGood sv.k (join_group sv req db).db
unfolding join_group join_directly create_group_rows
join_group-IsGood sv laws req db distinct leaves v =
    let P = IsGood sv.k in
    guarded-keeps P db (check_join_req sv req db) _ v λ found h.
      let checked = OnOk-ok _ h (check_join_req-JoinChecked sv laws req db) in
      if-cases (λ (o : Outcome). P o.db) (found.1.need_verification == sv.k.directly)
        (λ direct.
          let m = new_member sv req found.1 found.0 in
          guarded-keeps P db (callback_join sv found.1.ex m) _ v λ member same.
            let kept = OnOk-ok _ same (callback_join-SameMember sv found.1.ex m leaves) in
            committed-keeps P db (create_members sv (member ∷ []) db) _ v λ new made.
              create_members-IsGood sv laws req.group_id (member ∷ []) db new
                (ordinary_no_owner sv.k distinct member.role_level kept.2, tt)
                (kept.0 ∙ row_group req.group_id db found.1 checked.0, tt)
                (row_exists req.group_id db found.1 checked.0) made v)
        (λ closed.
          committed-keeps P db (create_group_request sv (join_request sv req ∷ []) db) _ v
            λ new made.
              let same =
                OnOk-ok _ made (create_group_request-same sv (join_request sv req ∷ []) db) in
              same_tables-IsGood sv.k db new same v)
