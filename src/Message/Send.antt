-- ===== src/Message/Send.antt =====
-- Sending a message (internal/rpc/msg/send.go). The callbacks of the operator and the message queue are
-- services; what reaches the queue is an effect of the result. Metrics and logs are left out, and what
-- `setConversationAtInfo` does with the message it is handed.
pub mod Laws
use open_im_server.Base.{
  ℕ, ◌==◌, Bool, true, false, not, Bytes, List, [], ◌∷◌, Option, none, some, if◌then◌else◌, Error,
  err_args, err_message_has_read_disable, Result, ok, err, ◌>>=◌, ◌>>◌,
}
use open_im_server.Processor.Options.{Options, is}
use open_im_server.Processor.Conversation.{
  SessionType, single_chat_type, super_group_chat_type, notification_chat_type,
}
use open_im_server.Message.Model.{Constants, MsgConfig, MsgData, readable}
use open_im_server.Message.Verify.{Caches, message_verification}
use open_im_server.Message.Prepare.{
  Tools, ReceiveOpts, encapsulate_msg_data, is_message_has_read_enabled,
  modify_message_by_user_message_receive_opt,
}

pub record Pipeline : Type 0 where
  pub callback_before_send_single_msg : MsgData → Result (Unit {0})
  pub callback_before_send_group_msg : MsgData → Result (Unit {0})
  -- the message, as the callback changes it
  pub callback_msg_modify : MsgData → Result MsgData
  pub msg_to_mq : Bytes → MsgData → Result (Unit {0})
  -- the key and identifier functions of the tools package
  pub unique_key_for_single : Bytes → Bytes → Bytes
  pub unique_key_for_group : Bytes → Bytes
  pub conversation_id_for_single : Bytes → Bytes → Bytes

-- A message that the queue took, under a key, and one handed to `setConversationAtInfo`.
pub data Effect : Type 0 where
  queued : Bytes → MsgData → Effect
  at_info : MsgData → Effect

pub record SendMsgResp : Type 0 where
  pub server_msg_id : Bytes
  pub client_msg_id : Bytes
  pub send_time : ℕ

abbrev pub resp_of : MsgData → SendMsgResp
resp_of m = record {
  server_msg_id = m.server_msg_id;
  client_msg_id = m.client_msg_id;
  send_time = m.send_time;
}

-- The effects, and the response (nil when the message is withheld) or the error.
abbrev pub Outcome : Type 0
Outcome = List Effect × Result (Option SendMsgResp)

abbrev pub failed : Error → Outcome
failed e = ([], err e)

-- The end of a path: the message that was queued, or the error that stopped it.
abbrev pub delivered : (MsgData → List Effect) → Result MsgData → Outcome
delivered effects (ok m) = (effects m, ok (some (resp_of m)))
delivered effects (err e) = failed e

abbrev pub single_effects : Pipeline → MsgData → List Effect
single_effects p m = queued (p.unique_key_for_single m.send_id m.recv_id) m ∷ []

unfoldable pub push_single : Pipeline → MsgData → Outcome
push_single p m = delivered (single_effects p) (do
  p.callback_before_send_single_msg m
  m' ← p.callback_msg_modify m
  p.msg_to_mq (p.unique_key_for_single m'.send_id m'.recv_id) m'
  ok m')

-- What the receive options decide, for a message that is no notification.
unfoldable pub receive_decision :
    Constants → Tools → ReceiveOpts → Pipeline → MsgData → Result (Bool × Option Options)
receive_decision k t rs p m =
    if not (is (readable m.options) k.names.is_not_notification)
    then ok (true, m.options)
    else modify_message_by_user_message_receive_opt k t rs m.recv_id
        (p.conversation_id_for_single m.send_id m.recv_id) m

unfoldable pub after_decision : Pipeline → MsgData → Result (Bool × Option Options) → Outcome
unfolding push_single
after_decision p m (err e) = failed e
after_decision p m (ok (false, o)) = ([], ok none)
after_decision p m (ok (true, o)) = push_single p (record m { options = o })

abbrev pub if_verified : Result (Unit {0}) → Outcome → Outcome
if_verified (err e) rest = failed e
if_verified (ok u) rest = rest

unfoldable pub send_msg_single_chat :
    Constants → MsgConfig → Caches → Tools → ReceiveOpts → Pipeline → MsgData → Outcome
unfolding after_decision receive_decision
send_msg_single_chat k config cs t rs p m =
    if_verified (message_verification k config cs m)
      (after_decision p m (receive_decision k t rs p m))

abbrev pub group_effects : Constants → Pipeline → MsgData → List Effect
group_effects k p m =
    queued (p.unique_key_for_group m.group_id) m
    ∷ (if m.content_type == k.at_text then at_info m ∷ [] else [])

unfoldable pub push_group : Constants → Pipeline → MsgData → Outcome
push_group k p m = delivered (group_effects k p) (do
  p.callback_before_send_group_msg m
  m' ← p.callback_msg_modify m
  p.msg_to_mq (p.unique_key_for_group m'.group_id) m'
  ok m')

unfoldable pub send_msg_super_group_chat :
    Constants → MsgConfig → Caches → Pipeline → MsgData → Outcome
unfolding push_group
send_msg_super_group_chat k config cs p m =
    if_verified (message_verification k config cs m) (push_group k p m)

unfoldable pub send_msg_notification : Pipeline → MsgData → Outcome
send_msg_notification p m =
    delivered (single_effects p)
      (do p.msg_to_mq (p.unique_key_for_single m.send_id m.recv_id) m; ok m)

unfoldable pub dispatch :
    SessionType
    → Constants
    → MsgConfig
    → Caches
    → Tools
    → ReceiveOpts
    → Pipeline
    → MsgData
    → Outcome
unfolding send_msg_single_chat send_msg_super_group_chat send_msg_notification
dispatch single_chat_type k config cs t rs p m = send_msg_single_chat k config cs t rs p m
dispatch notification_chat_type k config cs t rs p m = send_msg_notification p m
dispatch super_group_chat_type k config cs t rs p m = send_msg_super_group_chat k config cs p m
dispatch _ k config cs t rs p m = failed err_args

unfoldable pub send_msg :
    Constants → MsgConfig → Caches → Tools → ReceiveOpts → Pipeline → Option MsgData → Outcome
unfolding dispatch
send_msg k config cs t rs p none = failed err_args
send_msg k config cs t rs p (some m) =
    if not (is_message_has_read_enabled k config m)
    then failed err_message_has_read_disable
    else dispatch m.session_type k config cs t rs p (encapsulate_msg_data k t m)
