-- ===== src/Group/Sample.antt =====
-- A group on tables that are kept in memory, for concrete calls.
use open_im_server.Base.{
  ℕ, refl, Bool, false, Bytes, bytes_discrete, codes, [], ◌∷◌, none, map, ok, arith,
}
use open_im_server.Group.Model.{
  GroupModel, GroupMemberModel, GroupRequestModel, Db, GroupConstants, GroupServices, is_group,
  is_member, is_request,
}
use open_im_server.Group.Memory.{memory, apart-IsUnique, memory-DriverLaws}
use open_im_server.Group.Db.Laws.{TableLaws}
use open_im_server.Group.Rooted.{IsGood}
use open_im_server.Group.Join.Laws.{DistinctRoles}

abbrev pub k : GroupConstants
k = record {
  group_owner = 100;
  group_admin = 60;
  group_ordinary_users = 20;
  group_ok = 0;
  group_status_dismissed = 2;
  group_status_muted = 3;
  working_group = 2;
  super_group = 1;
  all_need_verification = 1;
  directly = 2;
  join_by_invitation = 2;
  group_response_agree = 1;
  group_response_refuse = 7;
}

abbrev pub same_group : GroupModel → GroupModel → Bool
same_group x y = is_group x.group_id y

abbrev pub same_member : GroupMemberModel → GroupMemberModel → Bool
same_member x y = is_member (x.group_id, x.user_id) y

abbrev pub same_request : GroupRequestModel → GroupRequestModel → Bool
same_request x y = is_request (x.group_id, x.user_id) y

-- The services for a caller.
abbrev pub sv_of : Bytes → GroupServices
sv_of op_user_id = record {
  config = record { manager = codes "root" ∷ []; im_admin = []; secret = [] };
  k = k;
  op_user_id = op_user_id;
  now = 1000;
  groups = memory same_group;
  members = memory same_member;
  requests = memory same_request;
  get_designate_users =
      λ ids. ok (map (λ i. record { user_id = i; nickname = i; face_url = i }) ids);
  get_public_user_info = λ i. ok record { user_id = i; nickname = i; face_url = i };
  single = λ xs ys. [];
  duplicate = λ xs. false;
  random_group_id = λ i. codes "new";
  callback_before_create_group = λ g. ok g;
  callback_after_create_group = ok tt;
  callback_before_member_join_group = λ m ex. ok none;
  callback_apply_join_group_before = ok tt;
  callback_after_join_group = ok tt;
  callback_before_invite_user_to_group = ok tt;
  callback_kill_group_member = ok tt;
  callback_quit_group = ok tt;
  callback_dismiss_group = λ o ms. ok tt;
  callback_after_transfer_group_owner = ok tt;
  callback_before_set_group_member_info = λ m. ok none;
  callback_after_set_group_member_info = λ m. ok tt;
  callback_before_set_group_info = λ g. ok none;
  callback_after_set_group_info = ok tt;
  get_conversation_max_seq = λ c. ok 9;
  set_conversation_max_seq_answer = ok tt;
  group_chat_first_create_conversation_answer = ok tt;
}

abbrev pub group_of : Bytes → ℕ → GroupModel
group_of id need_verification = record {
  group_id = id;
  group_name = [];
  notification = [];
  introduction = [];
  face_url = [];
  create_time = 1;
  ex = [];
  status = 0;
  creator_user_id = codes "o";
  group_type = 2;
  need_verification = need_verification;
  look_member_info = 0;
  apply_member_friend = 0;
  notification_update_time = 0;
  notification_user_id = [];
}

abbrev pub member : Bytes → ℕ → GroupMemberModel
member user_id role = record {
  group_id = codes "g";
  user_id = user_id;
  nickname = user_id;
  face_url = user_id;
  role_level = role;
  join_time = 1;
  join_source = 2;
  inviter_user_id = [];
  operator_user_id = [];
  mute_end_time = 0;
  ex = [];
}

-- A join request of the user c.
abbrev pub request : GroupRequestModel
request = record {
  user_id = codes "c";
  group_id = codes "g";
  handle_result = 0;
  req_msg = [];
  handled_msg = [];
  req_time = 1;
  handle_user_id = [];
  handled_time = 0;
  join_source = 2;
  inviter_user_id = [];
  ex = [];
}

-- The owner o, the admin a and the ordinary member b.
abbrev pub db_with : ℕ → Db
db_with need_verification = record {
  groups = group_of (codes "g") need_verification ∷ [];
  members = member (codes "o") 100 ∷ member (codes "a") 60 ∷ member (codes "b") 20 ∷ [];
  requests = request ∷ [];
}

abbrev pub db : Db
db = db_with 0

pub sv_of-TableLaws : (op : Bytes) → TableLaws (sv_of op)
sv_of-TableLaws op = record {
  group_laws = memory-DriverLaws is_group same_group (λ k x y a b. ground arith);
  member_laws = memory-DriverLaws is_member same_member (λ k x y a b. ground arith);
  request_laws = memory-DriverLaws is_request same_request (λ k x y a b. ground arith);
}

pub db-IsGood : (v : ℕ) → IsGood k (db_with v)
unfolding bytes_discrete
db-IsGood v = (
  (
    apart-IsUnique is_member same_member (λ k x y a b. ground arith) (db_with v).members refl,
    λ g. ground arith,
  ),
  λ g absent. ground arith,
)

pub k-DistinctRoles : DistinctRoles k
k-DistinctRoles = record { admin_no_owner = omega arith; ordinary_no_owner = omega arith }
