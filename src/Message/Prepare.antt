-- ===== src/Message/Prepare.antt =====
-- What the server writes into a message before it is queued (internal/rpc/msg/verify.go,
-- `encapsulateMsgData` and `modifyMessageByUserMessageReceiveOpt`; internal/rpc/msg/utils.go).
pub mod Switches
pub mod Laws
use open_im_server.Base.{
  ℕ, ◌==◌, Bool, true, false, ◌&&◌, Bytes, List, [], ◌∷◌, Option, none, some, contains,
  if◌then◌else◌, ℕ_discrete, Error, is_record_not_found, Result, ok, err,
}
use open_im_server.Processor.Conversation.{SessionType, single_chat_type, super_group_chat_type}
use open_im_server.Processor.Options.{Options}
use open_im_server.Message.Model.{Constants, MsgConfig, MsgData, readable}

-- Functions of other packages: utils.SetSwitchFromOptions on a map that is there, GetMsgID's value for the message (a hash of
-- the time, the sender and a random number), and the clock in milliseconds.
pub record Tools : Type 0 where
  pub set_switch_from_options : Options → Bytes → Bool → Options
  pub msg_id : Bytes
  pub now : ℕ

-- The content types that share the first case of the switch.
abbrev pub ordinary_contents : Constants → List ℕ
ordinary_contents k =
    k.text ∷ k.picture ∷ k.voice ∷ k.video ∷ k.file ∷ k.at_text ∷ k.merger ∷ k.card ∷ k.location
    ∷ k.custom ∷ k.quote ∷ []

-- The switches that each case sets, in order.
unfoldable pub switches_of : Constants → ℕ → List (Bytes × Bool)
unfolding ℕ_discrete
switches_of k t =
    if contains ℕ_discrete t (ordinary_contents k)
    then (k.names.is_conversation_update, true)
      ∷ (k.names.is_unread_count, true)
      ∷ (k.names.is_sender_sync, true)
      ∷ []
    else if t == k.revoke
    then (k.names.is_unread_count, false) ∷ (k.names.is_offline_push, false) ∷ []
    else if t == k.has_read_receipt
    then (k.names.is_conversation_update, false)
      ∷ (k.names.is_sender_conversation_update, false)
      ∷ (k.names.is_unread_count, false)
      ∷ (k.names.is_offline_push, false)
      ∷ []
    else if t == k.typing
    then (k.names.is_history, false)
      ∷ (k.names.is_persistent, false)
      ∷ (k.names.is_sender_sync, false)
      ∷ (k.names.is_conversation_update, false)
      ∷ (k.names.is_sender_conversation_update, false)
      ∷ (k.names.is_unread_count, false)
      ∷ (k.names.is_offline_push, false)
      ∷ []
    else []

-- The map is passed by value: to a nil map nothing is added that the caller sees.
abbrev pub set_switch : Tools → Bytes → Bool → Option Options → Option Options
set_switch t name b none = none
set_switch t name b (some o) = some (t.set_switch_from_options o name b)

unfoldable pub set_switches : Tools → List (Bytes × Bool) → Option Options → Option Options
set_switches t [] o = o
set_switches t ((name, b) ∷ l) o = set_switches t l (set_switch t name b o)

unfoldable pub encapsulate_msg_data : Constants → Tools → MsgData → MsgData
unfolding switches_of set_switches
encapsulate_msg_data k t m = record m {
  server_msg_id = t.msg_id;
  send_time = if m.send_time == 0 then t.now else m.send_time;
  options = set_switches t (switches_of k m.content_type) m.options;
}

abbrev pub read_receipt_enabled : SessionType → MsgConfig → Bool
read_receipt_enabled single_chat_type config = config.single_message_has_read_receipt_enable
read_receipt_enabled super_group_chat_type config = config.group_message_has_read_receipt_enable
read_receipt_enabled _ config = true

unfoldable pub is_message_has_read_enabled : Constants → MsgConfig → MsgData → Bool
is_message_has_read_enabled k config m =
    if m.content_type == k.has_read_receipt
    then read_receipt_enabled m.session_type config
    else true

-- The receive options of the user and of the conversation.
pub record ReceiveOpts : Type 0 where
  pub get_user_global_msg_recv_opt : Bytes → Result ℕ
  pub get_single_conversation_recv_msg_opt : Bytes → Bytes → Result ℕ

-- The switch for offline pushes, off: here a nil map is replaced by an empty one first.
abbrev pub silenced : Constants → Tools → Option Options → Option Options
silenced k t o = some (t.set_switch_from_options (readable o) k.names.is_offline_push false)

-- The second half: whether to send, and the options of the message.
unfoldable pub by_conversation_opt :
    Constants → Tools → ℕ → Option Options → Result ℕ → Result (Bool × Option Options)
by_conversation_opt k t content_type o (err e) =
    if is_record_not_found e then ok (true, o) else err e
by_conversation_opt k t content_type o (ok opt) =
    if opt == k.receive_message
    then ok (true, o)
    else if opt == k.not_receive_message
    then ok (content_type == k.has_read_receipt, o)
    else if opt == k.receive_not_notify_message
    then ok (true, silenced k t o)
    else ok (true, o)

unfoldable pub by_global_opt :
    Constants
    → Tools
    → ReceiveOpts
    → Bytes
    → Bytes
    → MsgData
    → Result ℕ
    → Result (Bool × Option Options)
unfolding by_conversation_opt
by_global_opt k t rs user_id conversation_id m (err e) = err e
by_global_opt k t rs user_id conversation_id m (ok opt) =
    let rest =
      by_conversation_opt k t m.content_type m.options
        (rs.get_single_conversation_recv_msg_opt user_id conversation_id) in
    if opt == k.receive_message
    then rest
    else if opt == k.not_receive_message
    then ok (false, m.options)
    else if opt == k.receive_not_notify_message
    then ok (true, silenced k t m.options)
    else rest

unfoldable pub modify_message_by_user_message_receive_opt :
    Constants → Tools → ReceiveOpts → Bytes → Bytes → MsgData → Result (Bool × Option Options)
unfolding by_global_opt
modify_message_by_user_message_receive_opt k t rs user_id conversation_id m =
    by_global_opt k t rs user_id conversation_id m (rs.get_user_global_msg_recv_opt user_id)
