-- ===== src/Group/Model.antt =====
-- The rows of groups, members and join requests (pkg/common/db/table/relation), the tables, and what the
-- handlers of internal/rpc/group call. Times are milliseconds.
use open_im_server.Base.{ℕ, ◌==◌, Bool, ◌&&◌, Bytes, bytes_discrete, List, Option, dec_true, Result}
use open_im_server.Auth.Access.{Config}
use open_im_server.Group.Driver.{Driver}

pub record GroupModel : Type 0 where
  pub group_id : Bytes
  pub group_name : Bytes
  pub notification : Bytes
  pub introduction : Bytes
  pub face_url : Bytes
  pub create_time : ℕ
  pub ex : Bytes
  pub status : ℕ
  pub creator_user_id : Bytes
  pub group_type : ℕ
  pub need_verification : ℕ
  pub look_member_info : ℕ
  pub apply_member_friend : ℕ
  pub notification_update_time : ℕ
  pub notification_user_id : Bytes

pub record GroupMemberModel : Type 0 where
  pub group_id : Bytes
  pub user_id : Bytes
  pub nickname : Bytes
  pub face_url : Bytes
  pub role_level : ℕ
  pub join_time : ℕ
  pub join_source : ℕ
  pub inviter_user_id : Bytes
  pub operator_user_id : Bytes
  pub mute_end_time : ℕ
  pub ex : Bytes

pub record GroupRequestModel : Type 0 where
  pub user_id : Bytes
  pub group_id : Bytes
  pub handle_result : ℕ
  pub req_msg : Bytes
  pub handled_msg : Bytes
  pub req_time : ℕ
  pub handle_user_id : Bytes
  pub handled_time : ℕ
  pub join_source : ℕ
  pub inviter_user_id : Bytes
  pub ex : Bytes

-- The three collections.
pub record Db : Type 0 where
  pub groups : List GroupModel
  pub members : List GroupMemberModel
  pub requests : List GroupRequestModel

-- constant.* of the protocol package, as far as the service reads them.
pub record GroupConstants : Type 0 where
  pub group_owner : ℕ
  pub group_admin : ℕ
  pub group_ordinary_users : ℕ
  pub group_ok : ℕ
  pub group_status_dismissed : ℕ
  pub group_status_muted : ℕ
  pub working_group : ℕ
  pub super_group : ℕ
  pub all_need_verification : ℕ
  pub directly : ℕ
  pub join_by_invitation : ℕ
  -- int32 answers of an application
  pub group_response_agree : ℕ
  pub group_response_refuse : ℕ

-- sdkws.UserInfo
pub record UserInfo : Type 0 where
  pub user_id : Bytes
  pub nickname : Bytes
  pub face_url : Bytes

-- callbackstruct.CallbackBeforeMemberJoinGroupResp: what the webhook may replace.
pub record JoinReply : Type 0 where
  pub mute_end_time : Option ℕ
  pub face_url : Option Bytes
  pub ex : Option Bytes
  pub nickname : Option Bytes
  pub role_level : Option ℕ

-- pbgroup.SetGroupMemberInfo: a wrapper that is nil is `none`.
pub record SetGroupMemberInfo : Type 0 where
  pub group_id : Bytes
  pub user_id : Bytes
  pub nickname : Option Bytes
  pub face_url : Option Bytes
  pub role_level : Option ℕ
  pub ex : Option Bytes

-- callbackstruct.CallbackBeforeSetGroupMemberInfoResp
pub record SetReply : Type 0 where
  pub ex : Option Bytes
  pub nickname : Option Bytes
  pub face_url : Option Bytes
  pub role_level : Option ℕ

-- sdkws.GroupInfoForSet
pub record GroupInfoForSet : Type 0 where
  pub group_id : Bytes
  pub group_name : Bytes
  pub notification : Bytes
  pub introduction : Bytes
  pub face_url : Bytes
  pub ex : Option Bytes
  pub need_verification : Option ℕ
  pub look_member_info : Option ℕ
  pub apply_member_friend : Option ℕ

-- callbackstruct.CallbackBeforeSetGroupInfoResp, as far as it is read
pub record InfoReply : Type 0 where
  pub group_id : Bytes
  pub group_name : Bytes
  pub introduction : Bytes
  pub face_url : Bytes
  pub ex : Option Bytes
  pub need_verification : Option ℕ
  pub look_member_info : Option ℕ
  pub apply_member_friend : Option ℕ

-- What a handler has done besides the tables, in order.
pub data GroupEffect : Type 0 where
  -- with the number of members that it tells
  group_created_notification : Bytes → ℕ → GroupEffect
  super_group_notification : List Bytes → GroupEffect
  join_group_application_notification : Bytes → Bytes → GroupEffect
  member_invited_notification : Bytes → List Bytes → GroupEffect
  member_enter_notification : Bytes → Bytes → GroupEffect
  group_application_accepted_notification : Bytes → Bytes → GroupEffect
  group_application_rejected_notification : Bytes → Bytes → GroupEffect
  member_kicked_notification : Bytes → List Bytes → GroupEffect
  member_quit_notification : Bytes → Bytes → GroupEffect
  group_owner_transferred_notification : Bytes → Bytes → Bytes → GroupEffect
  group_dismissed_notification : Bytes → Bytes → GroupEffect
  group_member_muted_notification : Bytes → Bytes → ℕ → GroupEffect
  group_member_cancel_muted_notification : Bytes → Bytes → GroupEffect
  group_muted_notification : Bytes → GroupEffect
  group_cancel_muted_notification : Bytes → GroupEffect
  group_member_set_to_admin_notification : Bytes → Bytes → GroupEffect
  group_member_set_to_ordinary_user_notification : Bytes → Bytes → GroupEffect
  group_member_info_set_notification : Bytes → Bytes → GroupEffect
  group_chat_first_create_conversation : Bytes → List Bytes → GroupEffect
  set_conversation_max_seq : List Bytes → Bytes → ℕ → GroupEffect
  -- the conversation of the group is set for these users
  set_conversations : Bytes → List Bytes → GroupEffect
  group_info_set_announcement_notification : Bytes → GroupEffect
  group_info_set_name_notification : Bytes → GroupEffect
  group_info_set_notification : Bytes → GroupEffect

pub record GroupServices : Type 0 where
  pub config : Config
  pub k : GroupConstants
  -- mcontext.GetOpUserID(ctx)
  pub op_user_id : Bytes
  -- time.Now()
  pub now : ℕ
  pub groups : Driver GroupModel
  pub members : Driver GroupMemberModel
  pub requests : Driver GroupRequestModel
  -- the user service
  pub get_designate_users : List Bytes → Result (List UserInfo)
  pub get_public_user_info : Bytes → Result UserInfo
  -- utils.Single and utils.Duplicate
  pub single : List Bytes → List Bytes → List Bytes
  pub duplicate : List Bytes → Bool
  -- the identifier that the i-th round of GenGroupID makes of the clock and a random number
  pub random_group_id : ℕ → Bytes
  -- the webhooks, where they are enabled; the first gives the group as it replaces it
  pub callback_before_create_group : GroupModel → Result GroupModel
  pub callback_after_create_group : Result (Unit {0})
  pub callback_before_member_join_group : GroupMemberModel → Bytes → Result (Option JoinReply)
  pub callback_apply_join_group_before : Result (Unit {0})
  pub callback_after_join_group : Result (Unit {0})
  pub callback_before_invite_user_to_group : Result (Unit {0})
  pub callback_kill_group_member : Result (Unit {0})
  pub callback_quit_group : Result (Unit {0})
  pub callback_dismiss_group : Bytes → List Bytes → Result (Unit {0})
  pub callback_after_transfer_group_owner : Result (Unit {0})
  pub callback_before_set_group_member_info : SetGroupMemberInfo → Result (Option SetReply)
  pub callback_after_set_group_member_info : SetGroupMemberInfo → Result (Unit {0})
  pub callback_before_set_group_info : GroupInfoForSet → Result (Option InfoReply)
  pub callback_after_set_group_info : Result (Unit {0})
  -- the message and conversation services
  pub get_conversation_max_seq : Bytes → Result ℕ
  pub set_conversation_max_seq_answer : Result (Unit {0})
  pub group_chat_first_create_conversation_answer : Result (Unit {0})

-- The unique indexes (group_id) and (group_id, user_id), as tests.
abbrev pub is_group : Bytes → GroupModel → Bool
is_group id g = dec_true (bytes_discrete g.group_id id)

abbrev pub is_member : Bytes × Bytes → GroupMemberModel → Bool
is_member key m =
    dec_true (bytes_discrete m.group_id key.0) && dec_true (bytes_discrete m.user_id key.1)

abbrev pub is_request : Bytes × Bytes → GroupRequestModel → Bool
is_request key r =
    dec_true (bytes_discrete r.group_id key.0) && dec_true (bytes_discrete r.user_id key.1)

abbrev pub has_role : Bytes → ℕ → GroupMemberModel → Bool
has_role group_id role m = dec_true (bytes_discrete m.group_id group_id) && m.role_level == role
