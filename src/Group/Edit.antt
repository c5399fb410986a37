-- ===== src/Group/Edit.antt =====
-- Setting what is told of members: SetGroupMemberInfo of internal/rpc/group/group.go with
-- UpdateGroupMemberMap of internal/rpc/group/db_map.go and UpdateGroupMembers of
-- pkg/common/db/controller/group.go. The groups of a request, a map in the source, are taken in the order
-- of their last members.
pub mod Laws
pub mod Promote
use open_im_server.Base.{
  ℕ, ◌+◌, ◌==◌, Bool, true, false, not, ◌&&◌, ◌||◌, leb, Bytes, bytes_discrete, List, [], ◌∷◌, ◌++◌,
  map, Option, none, some, keep, contains, length, dec_true, if◌then◌else◌, Error, err_args,
  err_no_permission, err_nil_pointer, Result, ok, err, ◌>>=◌, ◌>>◌, require,
}
use open_im_server.Group.Driver.{first}
use open_im_server.Group.Model.{
  GroupMemberModel, SetGroupMemberInfo, SetReply, Db, GroupServices, GroupConstants, GroupEffect,
  group_member_set_to_admin_notification, group_member_set_to_ordinary_user_notification,
  group_member_info_set_notification,
}
use open_im_server.Group.Db.{find_group_members, update_group_member}
use open_im_server.Group.Outcome.{Steps, did, asked, ◌next◌, Outcome, guarded, committed}
use open_im_server.Group.People.{is_empty, key_set, is_manager_op, or_kept}

-- `req.Members[i].FaceURL = nil`
abbrev pub without_face_url : SetGroupMemberInfo → SetGroupMemberInfo
without_face_url m = record {
  group_id = m.group_id;
  user_id = m.user_id;
  nickname = m.nickname;
  face_url = none;
  role_level = m.role_level;
  ex = m.ex;
}

abbrev pub check_new_role : GroupConstants → Option ℕ → Result (Unit {0})
check_new_role k none = ok tt
check_new_role k (some role) =
    if role == k.group_owner
    then err err_no_permission
    else require (role == k.group_admin || role == k.group_ordinary_users) err_args

abbrev pub check_new_roles : GroupConstants → List SetGroupMemberInfo → Result (Unit {0})
check_new_roles k [] = ok tt
check_new_roles k (m ∷ ms) = do check_new_role k m.role_level; check_new_roles k ms

abbrev pub repeats : List Bytes → Bool
repeats [] = false
repeats (id ∷ ids) = contains bytes_discrete id ids || repeats ids

abbrev pub is_user : Bytes → GroupMemberModel → Bool
is_user id m = dec_true (bytes_discrete m.user_id id)

-- Every member passes, or the first error.
abbrev pub refuse_any : (GroupMemberModel → Bool) → List GroupMemberModel → Result (Unit {0})
refuse_any p [] = ok tt
refuse_any p (m ∷ ms) = if p m then err err_no_permission else refuse_any p ms

-- What a member of this role may change.
abbrev pub check_role_edit : GroupConstants → Bytes → ℕ → List GroupMemberModel → Result (Unit {0})
check_role_edit k op_user_id role members =
    if role == k.group_owner
    then ok tt
    else if role == k.group_admin
    then refuse_any
        (λ m.
          m.role_level == k.group_owner
          || (m.role_level == k.group_admin && not (is_user op_user_id m)))
        members
    else if role == k.group_ordinary_users
    then refuse_any (λ m. not (m.role_level == k.group_ordinary_users && is_user op_user_id m))
        members
    else refuse_any (λ m. leb role m.role_level) members

abbrev pub check_op_edit :
    GroupServices → Option GroupMemberModel → List GroupMemberModel → Result (Unit {0})
check_op_edit sv none members = err err_nil_pointer
check_op_edit sv (some op) members = check_role_edit sv.k sv.op_user_id op.role_level members

abbrev pub check_stranger_edit : GroupServices → Option GroupMemberModel → Result (Unit {0})
check_stranger_edit sv (some op) = err err_args
check_stranger_edit sv none = require (is_manager_op sv) err_no_permission

-- The `switch` on the number of users without a row.
abbrev pub check_rows_edit : GroupServices → List Bytes → List GroupMemberModel → Result (Unit {0})
check_rows_edit sv user_ids members =
    let op = first (is_user sv.op_user_id) members in
    if length user_ids == length members
    then (if is_manager_op sv then ok tt else check_op_edit sv op members)
    else if length user_ids == length members + 1
    then check_stranger_edit sv op
    else err err_args

abbrev pub of_group : Bytes → SetGroupMemberInfo → Bool
of_group group_id m = dec_true (bytes_discrete m.group_id group_id)

abbrev pub users_of : Bytes → List SetGroupMemberInfo → List Bytes
users_of group_id ms = map (λ m. m.user_id) (keep (of_group group_id) ms)

unfoldable pub check_group_edit :
    GroupServices → List SetGroupMemberInfo → Db → Bytes → Result (Unit {0})
unfolding find_group_members
check_group_edit sv reqs db group_id =
    let ids = users_of group_id reqs in
    let user_ids =
      if contains bytes_discrete sv.op_user_id ids then ids else ids ++ sv.op_user_id ∷ [] in
    if repeats ids then err err_args else do
      members ← find_group_members sv group_id user_ids db
      check_rows_edit sv user_ids members

abbrev pub check_group_edits :
    GroupServices → List SetGroupMemberInfo → Db → List Bytes → Result (Unit {0})
check_group_edits sv reqs db [] = ok tt
check_group_edits sv reqs db (g ∷ gs) = do
  check_group_edit sv reqs db g
  check_group_edits sv reqs db gs

abbrev pub is_nil : List SetGroupMemberInfo → Bool
is_nil [] = true
is_nil (m ∷ ms) = false

abbrev pub or_set {ℓ} : {A : Type ℓ} → Option A → Option A → Option A
or_set none a = a
or_set (some b) a = some b

-- CallbackBeforeSetGroupMemberInfo
abbrev pub with_set_reply : Option SetReply → SetGroupMemberInfo → SetGroupMemberInfo
with_set_reply none m = m
with_set_reply (some r) m = record {
  group_id = m.group_id;
  user_id = m.user_id;
  nickname = or_set r.nickname m.nickname;
  face_url = or_set r.face_url m.face_url;
  role_level = or_set r.role_level m.role_level;
  ex = or_set r.ex m.ex;
}

abbrev pub callback_sets :
    GroupServices → List SetGroupMemberInfo → Result (List SetGroupMemberInfo)
callback_sets sv [] = ok []
callback_sets sv (m ∷ ms) = do
  reply ← sv.callback_before_set_group_member_info m
  rest ← callback_sets sv ms
  ok (with_set_reply reply m ∷ rest)

-- The request after the checks and the webhooks.
unfoldable pub check_edit :
    GroupServices → List SetGroupMemberInfo → Db → Result (List SetGroupMemberInfo)
unfolding check_group_edit
check_edit sv reqs db = do
  require (not (is_nil reqs)) err_args
  require (not (is_empty sv.op_user_id)) err_no_permission
  check_new_roles sv.k reqs
  check_group_edits sv reqs db (key_set (map (λ m. m.group_id) reqs))
  callback_sets sv (map without_face_url reqs)

-- UpdateGroupMemberMap: a picture is set in `user_group_face_url`, which is no field of the row.
abbrev pub set_info : SetGroupMemberInfo → GroupMemberModel → GroupMemberModel
set_info req m = record {
  group_id = m.group_id;
  user_id = m.user_id;
  nickname = or_kept req.nickname m.nickname;
  face_url = m.face_url;
  role_level = or_kept req.role_level m.role_level;
  join_time = m.join_time;
  join_source = m.join_source;
  inviter_user_id = m.inviter_user_id;
  operator_user_id = m.operator_user_id;
  mute_end_time = m.mute_end_time;
  ex = or_kept req.ex m.ex;
}

unfoldable pub update_group_members : GroupServices → List SetGroupMemberInfo → Db → Result Db
update_group_members sv [] db = ok db
update_group_members sv (r ∷ rs) db = do
  new ← update_group_member sv r.group_id r.user_id (set_info r) db
  update_group_members sv rs new

abbrev pub role_notification : GroupConstants → SetGroupMemberInfo → Option ℕ → List GroupEffect
role_notification k m none = []
role_notification k m (some role) =
    if role == k.group_admin
    then group_member_set_to_admin_notification m.group_id m.user_id ∷ []
    else if role == k.group_ordinary_users
    then group_member_set_to_ordinary_user_notification m.group_id m.user_id ∷ []
    else []

abbrev pub given {ℓ} : {A : Type ℓ} → Option A → Bool
given none = false
given (some a) = true

abbrev pub info_notification : SetGroupMemberInfo → List GroupEffect
info_notification m =
    if given m.nickname || (given m.face_url || given m.ex)
    then group_member_info_set_notification m.group_id m.user_id ∷ []
    else []

abbrev pub set_notifications : GroupConstants → List SetGroupMemberInfo → List GroupEffect
set_notifications k [] = []
set_notifications k (m ∷ ms) =
    role_notification k m m.role_level ++ (info_notification m ++ set_notifications k ms)

abbrev pub after_sets : GroupServices → List SetGroupMemberInfo → Steps
after_sets sv [] = ([], ok tt)
after_sets sv (m ∷ ms) = asked (sv.callback_after_set_group_member_info m) next after_sets sv ms

unfoldable pub set_group_member_info : GroupServices → List SetGroupMemberInfo → Db → Outcome
unfolding check_edit update_group_members
set_group_member_info sv reqs db = guarded db (check_edit sv reqs db) λ replaced.
    committed db (update_group_members sv replaced db)
      ((set_notifications sv.k replaced, ok tt) next after_sets sv replaced)
