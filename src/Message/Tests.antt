-- ===== src/Message/Tests.antt =====
-- Concrete messages, revocations and read receipts.
use open_im_server.Base.{
  ℕ, ◌≡◌, ◌≢◌, ◌⊎◌, ◌↔◌, ◌==◌, refl, true, false, All, dec_true, bytes_discrete, ℕ_discrete, codes,
  [], ◌∷◌, some, lookup, if◌then◌else◌, err_args, err_record_not_found, err_nil_pointer,
  err_redis_nil, ok, err, arith,
}
use open_im_server.Base.Int.{pos}
use open_im_server.Auth.Access.{Config, check_access_v3, is_app_manager_uid}
use open_im_server.Processor.Options.{OptionNames, set_option, is}
use open_im_server.Processor.Options.Laws.{is-set_option}
use open_im_server.Processor.Conversation.{
  SessionType, single_chat_type, super_group_chat_type, notification_chat_type,
}
use open_im_server.Message.Model.{Constants, MsgConfig, MsgData, readable}
use open_im_server.Message.Verify.{
  GroupInfo, GroupMember, Caches, wants_friend, message_verification,
}
use open_im_server.Message.Verify.Laws.{IsPlain, IsSpeaker, group_message_iff, single_message_iff}
use open_im_server.Message.Prepare.{
  Tools, encapsulate_msg_data, is_message_has_read_enabled, ReceiveOpts,
  modify_message_by_user_message_receive_opt,
}
use open_im_server.Message.Prepare.Switches.{
  SetsSwitch, encapsulate_msg_data_lem, typing_sign, switch_after,
}
use open_im_server.Message.Prepare.Laws.{OptsDiffer, Defers, withholds, withheld_iff}
use open_im_server.Message.Send.{Pipeline, send_msg}
use open_im_server.Message.Send.Laws.{IsSound, send_msg-IsSound, send_msg_verified}
use open_im_server.Message.Revoke.{
  RevokeReq, RevokeServices, revoked, UserInfo, check_revoke_args, revoke_msg,
}
use open_im_server.Message.Revoke.Laws.{MayRevoke, revoke_msg_authorized}
use open_im_server.Message.Revoke.Stranger.{stranger_panics}
use open_im_server.Message.AsRead.{Conversation, ReadServices, MarkReq, mark_msgs_as_read}
use open_im_server.Message.AsRead.Laws.{RaisesToMax, mark_msgs_as_read-RaisesToMax}

abbrev names : OptionNames
names = record {
  is_not_notification = codes "nn";
  is_send_msg = codes "sm";
  is_history = codes "h";
  is_persistent = codes "p";
  is_offline_push = codes "op";
  is_unread_count = codes "uc";
  is_conversation_update = codes "cu";
  is_sender_sync = codes "ss";
  is_not_private = codes "np";
  is_sender_conversation_update = codes "scu";
  is_reaction_from_cache = codes "rfc";
}

abbrev k : Constants
k = record {
  text = 101;
  picture = 102;
  voice = 103;
  video = 104;
  file = 105;
  at_text = 106;
  merger = 107;
  card = 108;
  location = 109;
  custom = 110;
  quote = 114;
  revoke = 111;
  has_read_receipt = 2150;
  typing = 113;
  notification_begin = 1000;
  notification_end = 5000;
  group_dismissed_notification = 1511;
  msg_revoke_notification = 2101;
  group_status_dismissed = 2;
  group_status_muted = 3;
  super_group = 1;
  group_owner = 100;
  group_admin = 60;
  group_ordinary_users = 20;
  receive_message = 0;
  not_receive_message = 1;
  receive_not_notify_message = 2;
  names = names;
}

abbrev access : Config
access = record { manager = codes "admin" ∷ []; im_admin = []; secret = codes "s" }

abbrev config : MsgConfig
config = record {
  access = access;
  friend_verify = some true;
  single_message_has_read_receipt_enable = true;
  group_message_has_read_receipt_enable = true;
}

abbrev msg_of : SessionType → ℕ → MsgData
msg_of t content = record {
  send_id = codes "a";
  recv_id = codes "b";
  group_id = codes "g";
  client_msg_id = codes "c1";
  server_msg_id = [];
  session_type = t;
  content_type = content;
  send_time = 0;
  options = some [];
}

abbrev group : GroupInfo
group = record { status = 0; group_type = 2 }

abbrev member : GroupMember
member = record { role_level = 20; mute_end_time = 0 }

abbrev caches : Caches
caches = record {
  is_black = λ a b. ok false;
  is_friend = λ a b. ok true;
  get_group_info = λ g. ok group;
  get_group_member_id_map = λ g. ok (codes "a" ∷ []);
  get_group_member = λ g u. ok member;
  now = 5;
}

abbrev tools : Tools
tools = record {
  set_switch_from_options = λ o name b. set_option name b o;
  msg_id = codes "id";
  now = 5;
}

tools-SetsSwitch : SetsSwitch tools
tools-SetsSwitch o name x b = is-set_option o name x b

abbrev receive_opts : ReceiveOpts
receive_opts = record {
  get_user_global_msg_recv_opt = λ u. ok 0;
  get_single_conversation_recv_msg_opt = λ u c. ok 1;
}

abbrev pipeline : Pipeline
pipeline = record {
  callback_before_send_single_msg = λ m. ok tt;
  callback_before_send_group_msg = λ m. ok tt;
  callback_msg_modify = λ m. ok m;
  msg_to_mq = λ key m. ok tt;
  unique_key_for_single = λ a b. a;
  unique_key_for_group = λ g. g;
  conversation_id_for_single = λ a b. a;
}

abbrev note : MsgData
note = msg_of notification_chat_type 1501

send_msg-IsSound_example :
    IsSound pipeline
      (send_msg k config caches tools receive_opts pipeline (some (msg_of single_chat_type 101)))
send_msg-IsSound_example =
    send_msg-IsSound k config caches tools receive_opts pipeline
      (some (msg_of single_chat_type 101))

msg_of-IsPlain : (t : SessionType) → IsPlain k config (msg_of t 101)
unfolding bytes_discrete ℕ_discrete
msg_of-IsPlain t = record { sender = refl; content = refl }

group_message_iff_example :
    (message_verification k config caches (msg_of super_group_chat_type 101) ≡ ok tt) ↔ (
      ((group.status ≢ k.group_status_dismissed) ⊎ (101 ≡ k.group_dismissed_notification))
      × IsSpeaker k caches group (msg_of super_group_chat_type 101))
group_message_iff_example =
    group_message_iff k config caches (msg_of super_group_chat_type 101) group refl
      (msg_of-IsPlain super_group_chat_type) refl (omega arith)

single_message_iff_example :
    (message_verification k config caches (msg_of single_chat_type 101) ≡ ok tt) ↔ (
      (caches.is_black (codes "a") (codes "b") ≡ ok false)
      × ((wants_friend config.friend_verify ≡ false)
          ⊎ (caches.is_friend (codes "a") (codes "b") ≡ ok true)))
single_message_iff_example =
    single_message_iff k config caches (msg_of single_chat_type 101) refl
      (msg_of-IsPlain single_chat_type)

encapsulate_msg_data_example :
    (is (readable (encapsulate_msg_data k tools (msg_of single_chat_type 113)).options) (codes "h")
      ≡ switch_after k typing_sign (codes "h") (some []))
    × ((encapsulate_msg_data k tools (msg_of single_chat_type 113)).server_msg_id ≡ codes "id")
    × ((encapsulate_msg_data k tools (msg_of single_chat_type 113)).send_time
        ≡ (if 0 == 0 then 5 else 0))
    × ((encapsulate_msg_data k tools (msg_of single_chat_type 113)).content_type ≡ 113)
unfolding ℕ_discrete
encapsulate_msg_data_example =
    encapsulate_msg_data_lem k tools (msg_of single_chat_type 113) typing_sign (codes "h")
      tools-SetsSwitch (refl, omega arith, omega arith, refl)

k-OptsDiffer : OptsDiffer k
k-OptsDiffer = record { first = omega arith; second = omega arith; third = omega arith }

withheld_iff_example :
    (withholds (
        modify_message_by_user_message_receive_opt k tools receive_opts
          (codes "b")
          (codes "si_a_b")
          (msg_of single_chat_type 101))
      ≡ true)
    ↔ ((receive_opts.get_user_global_msg_recv_opt (codes "b") ≡ ok k.not_receive_message)
        ⊎ ((g : ℕ) × (receive_opts.get_user_global_msg_recv_opt (codes "b") ≡ ok g)
            × Defers k g
            × (receive_opts.get_single_conversation_recv_msg_opt (codes "b") (codes "si_a_b")
                ≡ ok k.not_receive_message)
            × (101 ≢ k.has_read_receipt)))
withheld_iff_example =
    withheld_iff k tools receive_opts (codes "b") (codes "si_a_b") (msg_of single_chat_type 101)
      k-OptsDiffer

note_sent : (send_msg k config caches tools receive_opts pipeline (some note)).0 ≢ []
unfolding send_msg is_message_has_read_enabled
note_sent = λ e. cc

send_msg_verified_example :
    (is_message_has_read_enabled k config note ≡ true)
    × ((note.session_type ≡ notification_chat_type)
        ⊎ (message_verification k config caches (encapsulate_msg_data k tools note) ≡ ok tt))
send_msg_verified_example =
    send_msg_verified k config caches tools receive_opts pipeline note note_sent

abbrev revoke_req : RevokeReq
revoke_req = record { user_id = codes "a"; conversation_id = codes "sg_g"; seq = pos 4 }

abbrev sent : MsgData
sent = msg_of super_group_chat_type 101

abbrev user : UserInfo
user = record { nickname = codes "A"; app_manger_level = 1 }

abbrev others : MsgData
others = record sent { send_id = codes "z" }

abbrev revoke_services : RevokeServices
revoke_services = record {
  get_user_info = λ id. ok user;
  get_msg_by_seq = λ u c s. ok (some sent);
  get_group_member = λ g u. ok member;
  distinct = λ ids. ids;
  revoke_answer = ok tt;
  notification_answer = err err_args;
  callback_after_revoke_msg = ok tt;
  now = 9;
}

revoke_msg_authorized_example :
    (m : MsgData) × (revoke_services.get_msg_by_seq (codes "a") (codes "sg_g") (pos 4)
      ≡ ok (some m))
    × (m.content_type ≢ k.msg_revoke_notification)
    × MayRevoke k access revoke_services (codes "a") revoke_req m
unfolding revoke_msg check_access_v3 is_app_manager_uid bytes_discrete ℕ_discrete lookup
revoke_msg_authorized_example =
    revoke_msg_authorized k access revoke_services (codes "a") revoke_req
      (revoked (codes "sg_g") (pos 4)
        (record { role = 20; user_id = codes "a"; nickname = codes "A"; time = 9 }))
      [] refl

-- The user a has left the group, and z has not.
abbrev left_group : RevokeServices
left_group = record revoke_services {
  get_group_member = λ g u.
      if dec_true (bytes_discrete u (codes "z")) then ok member else err err_record_not_found;
  get_msg_by_seq = λ u c s. ok (some others);
}

stranger_panics_example :
    revoke_msg k access left_group (codes "a") revoke_req ≡ ([], err err_nil_pointer)
unfolding is_app_manager_uid bytes_discrete check_revoke_args
stranger_panics_example =
    stranger_panics k access left_group (codes "a") revoke_req user others member refl refl refl
      refl refl (omega arith) refl refl (λ e. ground (arith)) refl refl

abbrev conversation : Conversation
conversation = record {
  owner_user_id = codes "a";
  conversation_id = codes "si_a_b";
  conversation_type = single_chat_type;
  user_id = codes "b";
  group_id = [];
  max_seq = pos 0;
}

abbrev read_services : ReadServices
read_services = record {
  get_conversation_ids = λ u. ok (codes "si_a_b" ∷ []);
  get_conversations = λ u ids. ok (conversation ∷ []);
  get_conversation = λ u c. ok conversation;
  get_has_read_seqs = λ u ids. ok [];
  get_max_seqs = λ ids. ok ((codes "si_a_b", pos 9) ∷ []);
  get_max_seq = λ c. ok (pos 9);
  get_has_read_seq = λ u c. err err_redis_nil;
  mark_answer = ok tt;
  set_answer = ok tt;
  callback_single_msg_read = ok tt;
  callback_group_msg_read = ok tt;
}

abbrev mark_req : MarkReq
mark_req = record {
  user_id = codes "a";
  conversation_id = codes "si_a_b";
  has_read_seq = pos 3;
  seqs = pos 2 ∷ pos 7 ∷ [];
}

mark_msgs_as_read-RaisesToMax_example :
    All (RaisesToMax read_services mark_req) (mark_msgs_as_read read_services mark_req).0
mark_msgs_as_read-RaisesToMax_example = mark_msgs_as_read-RaisesToMax read_services mark_req
