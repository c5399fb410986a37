-- ===== src/Group/Info.antt =====
-- What is told of a group: SetGroupInfo of internal/rpc/group/group.go with UpdateGroupInfoMap of
-- internal/rpc/group/db_map.go. The error of SetConversations is logged and dropped.
pub mod Laws
use open_im_server.Base.{
  ℕ, ◌+◌, ◌-◌, ◌*◌, ◌==◌, ltb, Bool, true, false, not, Bytes, bytes_discrete, List, [], ◌∷◌, ◌++◌,
  map, Option, none, some, if◌then◌else◌, err_no_permission, err_dismissed_already, Result, ok, err,
  ◌>>=◌, ◌>>◌, require,
}
use open_im_server.Group.Model.{
  GroupModel, GroupMemberModel, GroupInfoForSet, InfoReply, Db, GroupServices, GroupEffect,
  is_group, set_conversations, group_info_set_announcement_notification,
  group_info_set_name_notification, group_info_set_notification,
}
use open_im_server.Group.Rows.{with_groups}
use open_im_server.Group.Db.{
  take_group, take_group_member, take_group_owner, find_group_member_num, find_group_member_user_id,
}
use open_im_server.Group.Outcome.{
  Steps, asked, ◌next◌, Outcome, guarded, committed_then, with_answer,
}
use open_im_server.Group.People.{
  is_empty, is_manager_op, populate_group_member, or_kept, is_owner_or_admin,
}

-- What `wrapperspb` wraps replaces what is there.
abbrev pub or_given {ℓ} : {A : Type ℓ} → Option A → Option A → Option A
or_given none a = a
or_given (some b) a = some b

-- CallbackBeforeSetGroupInfo: the address of a field is never nil, so the four texts are always replaced.
abbrev pub with_info_reply : Option InfoReply → GroupInfoForSet → GroupInfoForSet
with_info_reply none g = g
with_info_reply (some r) g = record {
  group_id = r.group_id;
  group_name = r.group_name;
  notification = g.notification;
  introduction = r.introduction;
  face_url = r.face_url;
  ex = or_given r.ex g.ex;
  need_verification = or_given r.need_verification g.need_verification;
  look_member_info = or_given r.look_member_info g.look_member_info;
  apply_member_friend = or_given r.apply_member_friend g.apply_member_friend;
}

-- `if s != "" { m[key] = s }`
abbrev pub or_old : Bytes → Bytes → Bytes
or_old [] old = old
or_old (x ∷ s) old = x ∷ s

-- UpdateGroupInfoMap, as a change of the row.
abbrev pub set_group_info_row : GroupServices → GroupInfoForSet → GroupModel → GroupModel
set_group_info_row sv req g = record {
  group_id = g.group_id;
  group_name = or_old req.group_name g.group_name;
  notification = or_old req.notification g.notification;
  introduction = or_old req.introduction g.introduction;
  face_url = or_old req.face_url g.face_url;
  create_time = g.create_time;
  ex = or_kept req.ex g.ex;
  status = g.status;
  creator_user_id = g.creator_user_id;
  group_type = g.group_type;
  need_verification = or_kept req.need_verification g.need_verification;
  look_member_info = or_kept req.look_member_info g.look_member_info;
  apply_member_friend = or_kept req.apply_member_friend g.apply_member_friend;
  notification_update_time =
      if is_empty req.notification then g.notification_update_time else sv.now;
  notification_user_id =
      if is_empty req.notification then g.notification_user_id else sv.op_user_id;
}

abbrev pub keys_of_text : Bytes → ℕ
keys_of_text [] = 0
keys_of_text (x ∷ s) = 1

abbrev pub keys_of {ℓ} : {A : Type ℓ} → Option A → ℕ
keys_of none = 0
keys_of (some a) = 1

-- `len(update)`: an announcement has three keys.
abbrev pub update_count : GroupInfoForSet → ℕ
update_count req =
    keys_of_text req.group_name
    + 3 * keys_of_text req.notification
    + keys_of_text req.introduction
    + keys_of_text req.face_url
    + keys_of req.need_verification
    + keys_of req.look_member_info
    + keys_of req.apply_member_friend
    + keys_of req.ex

-- The member who acts, unless it is an app manager.
abbrev pub check_op_member : GroupServices → Bytes → Db → Result (Unit {0})
check_op_member sv group_id db = if is_manager_op sv then ok tt else do
  member ← take_group_member sv group_id sv.op_user_id db
  require (is_owner_or_admin sv.k member.role_level) err_no_permission
  populated ← populate_group_member sv (member ∷ [])
  ok tt

-- The group that is set must be there, with an owner.
abbrev pub check_open_group : GroupServices → Bytes → Db → Result (Unit {0})
check_open_group sv group_id db = do
  group ← take_group sv group_id db
  require (not (group.status == sv.k.group_status_dismissed)) err_dismissed_already
  count ← find_group_member_num sv group.group_id db
  owner ← take_group_owner sv group.group_id db
  populated ← populate_group_member sv (owner ∷ [])
  ok tt

-- The request as the webhook replaces it, when nothing stands against it.
unfoldable pub check_info_req : GroupServices → GroupInfoForSet → Db → Result GroupInfoForSet
unfolding populate_group_member take_group_owner find_group_member_num
check_info_req sv req db = do
  check_op_member sv req.group_id db
  reply ← sv.callback_before_set_group_info req
  check_open_group sv (with_info_reply reply req).group_id db
  ok (with_info_reply reply req)

-- UpdateGroup
abbrev pub update_group_info : GroupServices → GroupInfoForSet → Db → Result Db
update_group_info sv req db = do
  gs ← sv.groups.update_one (is_group req.group_id) (set_group_info_row sv req) db.groups
  ok (with_groups db gs)

abbrev pub conversations_set : GroupServices → Bytes → Db → List GroupEffect
conversations_set sv group_id db = elim (find_group_member_user_id sv group_id db) [
  | ok ids ↦ set_conversations group_id ids ∷ []
  | err e ↦ []
]

-- The notifications; `num` counts the keys that none has told of yet.
abbrev pub info_effects : GroupServices → GroupInfoForSet → Db → List GroupEffect
info_effects sv req db =
    let num = (update_count req - keys_of_text req.notification) - keys_of_text req.group_name in
    (if is_empty req.notification
      then []
      else conversations_set sv req.group_id db
        ++ group_info_set_announcement_notification req.group_id ∷ [])
    ++ ((if is_empty req.group_name then [] else group_info_set_name_notification req.group_id ∷ [])
        ++ (if ltb 0 num then group_info_set_notification req.group_id ∷ [] else []))

unfoldable pub set_group_info : GroupServices → GroupInfoForSet → Db → Outcome
unfolding check_info_req find_group_member_user_id
set_group_info sv req db = guarded db (check_info_req sv req db) λ replaced.
    if update_count replaced == 0
    then record { db = db; steps = ([], ok tt) }
    else committed_then db (update_group_info sv replaced db) λ new.
      with_answer (take_group sv replaced.group_id new)
        (λ group. (info_effects sv replaced new, ok tt) next asked sv.callback_after_set_group_info)
