-- ===== src/Group/Rows.antt =====
-- What the writes of pkg/common/db/mgo change in a row.
use open_im_server.Base.{ℕ, List}
use open_im_server.Group.Model.{GroupModel, GroupMemberModel, GroupRequestModel, Db}

abbrev pub with_groups : Db → List GroupModel → Db
with_groups db gs = record { groups = gs; members = db.members; requests = db.requests }

abbrev pub with_members : Db → List GroupMemberModel → Db
with_members db ms = record { groups = db.groups; members = ms; requests = db.requests }

abbrev pub with_requests : Db → List GroupRequestModel → Db
with_requests db rs = record { groups = db.groups; members = db.members; requests = rs }

abbrev pub set_role_level : ℕ → GroupMemberModel → GroupMemberModel
set_role_level role m = record {
  group_id = m.group_id;
  user_id = m.user_id;
  nickname = m.nickname;
  face_url = m.face_url;
  role_level = role;
  join_time = m.join_time;
  join_source = m.join_source;
  inviter_user_id = m.inviter_user_id;
  operator_user_id = m.operator_user_id;
  mute_end_time = m.mute_end_time;
  ex = m.ex;
}

abbrev pub set_mute_end_time : ℕ → GroupMemberModel → GroupMemberModel
set_mute_end_time t m = record {
  group_id = m.group_id;
  user_id = m.user_id;
  nickname = m.nickname;
  face_url = m.face_url;
  role_level = m.role_level;
  join_time = m.join_time;
  join_source = m.join_source;
  inviter_user_id = m.inviter_user_id;
  operator_user_id = m.operator_user_id;
  mute_end_time = t;
  ex = m.ex;
}

abbrev pub set_status : ℕ → GroupModel → GroupModel
set_status status g = record {
  group_id = g.group_id;
  group_name = g.group_name;
  notification = g.notification;
  introduction = g.introduction;
  face_url = g.face_url;
  create_time = g.create_time;
  ex = g.ex;
  status = status;
  creator_user_id = g.creator_user_id;
  group_type = g.group_type;
  need_verification = g.need_verification;
  look_member_info = g.look_member_info;
  apply_member_friend = g.apply_member_friend;
  notification_update_time = g.notification_update_time;
  notification_user_id = g.notification_user_id;
}

-- The answer is $set in `handle_msg` and `handle_result`, and no field of the row is named `handle_msg`.
abbrev pub set_handled : ℕ → GroupRequestModel → GroupRequestModel
set_handled result r = record {
  user_id = r.user_id;
  group_id = r.group_id;
  handle_result = result;
  req_msg = r.req_msg;
  handled_msg = r.handled_msg;
  req_time = r.req_time;
  handle_user_id = r.handle_user_id;
  handled_time = r.handled_time;
  join_source = r.join_source;
  inviter_user_id = r.inviter_user_id;
  ex = r.ex;
}
