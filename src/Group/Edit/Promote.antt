-- ===== src/Group/Edit/Promote.antt =====
-- The roles that SetGroupMemberInfo sets.
use open_im_server.Base.{◌≡◌, ◌≢◌, refl, ap, ◌∙◌, false, Bytes, [], ◌∷◌, none, some, ok, arith}
use open_im_server.Group.Driver.{first}
use open_im_server.Group.Model.{GroupMemberModel, SetGroupMemberInfo, Db, GroupServices, is_member}
use open_im_server.Group.Db.Laws.{
  TableLaws, member_row, take_group_member-ok, update_group_member-ok,
}
use open_im_server.Group.Answer.Once.{first-set_first}
use open_im_server.Group.Db.{take_group_member, find_group_members, update_group_member}
use open_im_server.Group.People.{is_empty, is_manager_op}
use open_im_server.Group.Join.Laws.{DistinctRoles}
use open_im_server.Group.Edit.{
  check_group_edit, check_edit, set_info, update_group_members, set_group_member_info,
}

-- A request for oneself, to be an admin.
abbrev pub promotion : GroupServices → Bytes → SetGroupMemberInfo
promotion sv group_id = record {
  group_id = group_id;
  user_id = sv.op_user_id;
  nickname = none;
  face_url = none;
  role_level = some sv.k.group_admin;
  ex = none;
}

check_promotion :
    (sv : GroupServices) (group_id : Bytes) (db : Db) (m : GroupMemberModel)
    → DistinctRoles sv.k
    → sv.k.group_ordinary_users ≢ sv.k.group_admin
    → is_manager_op sv ≡ false
    → take_group_member sv group_id sv.op_user_id db ≡ ok m
    → m.user_id ≡ sv.op_user_id
    → m.role_level ≡ sv.k.group_ordinary_users
    → check_group_edit sv (promotion sv group_id ∷ []) db group_id ≡ ok tt
unfolding check_group_edit find_group_members
check_promotion sv group_id db m d n nm row self role = ground (arith, d.ordinary_no_owner)

promotion_passes :
    (sv : GroupServices) (group_id : Bytes) (db : Db)
    → DistinctRoles sv.k
    → is_empty sv.op_user_id ≡ false
    → check_group_edit sv (promotion sv group_id ∷ []) db group_id ≡ ok tt
    → sv.callback_before_set_group_member_info (promotion sv group_id) ≡ ok none
    → check_edit sv (promotion sv group_id ∷ []) db ≡ ok (promotion sv group_id ∷ [])
unfolding check_edit
promotion_passes sv group_id db d some_id passes quiet = ground (arith, d.admin_no_owner)

-- An ordinary member who asks `SetGroupMemberInfo` to make him an admin is an admin afterwards, if
-- his row is found and updated and the webhook leaves the request: the new role is not compared
-- with his own.
pub promoted :
    (sv : GroupServices) (laws : TableLaws sv) (group_id : Bytes) (db new : Db)
    (m : GroupMemberModel)
    → DistinctRoles sv.k
    → sv.k.group_ordinary_users ≢ sv.k.group_admin
    → is_manager_op sv ≡ false
    → is_empty sv.op_user_id ≡ false
    → take_group_member sv group_id sv.op_user_id db ≡ ok m
    → m.role_level ≡ sv.k.group_ordinary_users
    → sv.callback_before_set_group_member_info (promotion sv group_id) ≡ ok none
    → update_group_member sv group_id sv.op_user_id (set_info (promotion sv group_id)) db ≡ ok new
    → let after = (set_group_member_info sv (promotion sv group_id ∷ []) db).db in
      (r : GroupMemberModel) × (member_row group_id sv.op_user_id after ≡ some r)
      × (r.role_level ≡ sv.k.group_admin)
unfolding set_group_member_info update_group_members
promoted sv laws group_id db new m d n nm some_id taken role quiet made =
    let (row, self, same_group) = take_group_member-ok sv laws group_id sv.op_user_id db m taken in
    let edit = check_promotion sv group_id db m d n nm taken self role in
    let passes = promotion_passes sv group_id db d some_id edit quiet in
    let f = set_info (promotion sv group_id) in
    let p = is_member (group_id, sv.op_user_id) in
    let rows = (update_group_member-ok sv laws group_id sv.op_user_id f db new made).0 in
    let done : (set_group_member_info sv (promotion sv group_id ∷ []) db).db ≡ new = ground arith in
    (
      f m,
      ap (λ x. first p x.members) (done ∙ rows) ∙ first-set_first p f db.members m (λ x. refl) row,
      refl,
    )
