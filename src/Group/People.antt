-- ===== src/Group/People.antt =====
-- Users and permissions for the handlers: pkg/rpcclient/user.go, PopulateGroupMember of
-- pkg/rpcclient/notification/group.go, CallbackBeforeMemberJoinGroup of internal/rpc/group/callback.go and
-- CheckGroupAdmin of internal/rpc/group/group.go. The order of utils.Keys is that of the members.
use open_im_server.Base.{
  ℕ, ◌==◌, Bool, true, false, ◌||◌, Bytes, bytes_discrete, List, [], ◌∷◌, map, Option, none, some,
  keep, contains, dec_true, if◌then◌else◌, err_no_permission, err_nil_pointer,
  err_user_id_not_found, Result, ok, err, ◌>>=◌,
}
use open_im_server.Auth.Access.{is_app_manager_uid}
use open_im_server.Group.Model.{
  GroupMemberModel, UserInfo, JoinReply, Db, GroupServices, GroupConstants,
}
use open_im_server.Group.Db.{take_group_member}

abbrev pub is_empty : Bytes → Bool
is_empty [] = true
is_empty (x ∷ s) = false

abbrev pub no_ids : List Bytes → Bool
no_ids [] = true
no_ids (x ∷ s) = false

abbrev pub is_manager_op : GroupServices → Bool
is_manager_op sv = is_app_manager_uid sv.config sv.op_user_id

-- UserRpcClient.GetUsersInfo
unfoldable pub get_users_info : GroupServices → List Bytes → Result (List UserInfo)
get_users_info sv user_ids = if no_ids user_ids then ok [] else do
  users ← sv.get_designate_users user_ids
  if no_ids (sv.single user_ids (map (λ u. u.user_id) users))
      then ok users
      else err err_user_id_not_found

abbrev pub first_user : List UserInfo → Result UserInfo
first_user [] = err err_nil_pointer
first_user (u ∷ us) = ok u

-- UserRpcClient.GetUserInfo
unfoldable pub get_user_info : GroupServices → Bytes → Result UserInfo
unfolding get_users_info
get_user_info sv user_id = get_users_info sv (user_id ∷ []) >>= first_user

-- The keys of a map that is filled with a list.
abbrev pub key_set : List Bytes → List Bytes
key_set [] = []
key_set (id ∷ ids) =
    let rest = key_set ids in if contains bytes_discrete id rest then rest else id ∷ rest

-- The keys of `emptyUserIDs`.
abbrev pub empty_user_ids : List GroupMemberModel → List Bytes
empty_user_ids ms =
    key_set (map (λ m. m.user_id) (keep (λ m. is_empty m.nickname || is_empty m.face_url) ms))

-- `userMap[id]`: a later user replaces an earlier one.
abbrev pub user_of : Bytes → List UserInfo → Option UserInfo
user_of id [] = none
user_of id (u ∷ us) = elim (user_of id us) [
  | some v ↦ some v
  | none ↦ if dec_true (bytes_discrete u.user_id id) then some u else none
]

-- `if s == "" { s = t }`
abbrev pub or_else : Bytes → Bytes → Bytes
or_else [] t = t
or_else (x ∷ s) t = x ∷ s

abbrev pub fill_in : Option UserInfo → GroupMemberModel → GroupMemberModel
fill_in none m = m
fill_in (some u) m = record {
  group_id = m.group_id;
  user_id = m.user_id;
  nickname = or_else m.nickname u.nickname;
  face_url = or_else m.face_url u.face_url;
  role_level = m.role_level;
  join_time = m.join_time;
  join_source = m.join_source;
  inviter_user_id = m.inviter_user_id;
  operator_user_id = m.operator_user_id;
  mute_end_time = m.mute_end_time;
  ex = m.ex;
}

-- The members with their names and pictures.
unfoldable pub populate_group_member :
    GroupServices → List GroupMemberModel → Result (List GroupMemberModel)
unfolding get_users_info
populate_group_member sv members = if no_ids (empty_user_ids members) then ok members else do
  users ← get_users_info sv (empty_user_ids members)
  ok (map (λ m. fill_in (user_of m.user_id users) m) members)

abbrev pub or_kept {ℓ} : {A : Type ℓ} → Option A → A → A
or_kept none a = a
or_kept (some b) a = b

abbrev pub with_reply : Option JoinReply → GroupMemberModel → GroupMemberModel
with_reply none m = m
with_reply (some r) m = record {
  group_id = m.group_id;
  user_id = m.user_id;
  nickname = or_kept r.nickname m.nickname;
  face_url = or_kept r.face_url m.face_url;
  role_level = or_kept r.role_level m.role_level;
  join_time = m.join_time;
  join_source = m.join_source;
  inviter_user_id = m.inviter_user_id;
  operator_user_id = m.operator_user_id;
  mute_end_time = or_kept r.mute_end_time m.mute_end_time;
  ex = or_kept r.ex m.ex;
}

-- CallbackBeforeMemberJoinGroup: the member as the webhook replaces it.
abbrev pub callback_join : GroupServices → Bytes → GroupMemberModel → Result GroupMemberModel
callback_join sv group_ex member = do
  reply ← sv.callback_before_member_join_group member group_ex
  ok (with_reply reply member)

abbrev pub is_owner_or_admin : GroupConstants → ℕ → Bool
is_owner_or_admin k role = role == k.group_owner || role == k.group_admin

unfoldable pub check_group_admin : GroupServices → Bytes → Db → Result (Unit {0})
check_group_admin sv group_id db = if is_manager_op sv then ok tt else do
  member ← take_group_member sv group_id sv.op_user_id db
  if is_owner_or_admin sv.k member.role_level then ok tt else err err_no_permission
