-- ===== src/Message/Model.antt =====
-- Messages, configuration and the constants of the protocol package, as far as internal/rpc/msg reads
-- them.
use open_im_server.Base.{ℕ, Bool, Bytes, [], Option, none, some}
use open_im_server.Auth.Access.{Config}
use open_im_server.Processor.Conversation.{SessionType}
use open_im_server.Processor.Options.{Options, OptionNames}

-- constant.*: content types, roles, states of a group, receive options.
pub record Constants : Type 0 where
  pub text : ℕ
  pub picture : ℕ
  pub voice : ℕ
  pub video : ℕ
  pub file : ℕ
  pub at_text : ℕ
  pub merger : ℕ
  pub card : ℕ
  pub location : ℕ
  pub custom : ℕ
  pub quote : ℕ
  pub revoke : ℕ
  pub has_read_receipt : ℕ
  pub typing : ℕ
  pub notification_begin : ℕ
  pub notification_end : ℕ
  pub group_dismissed_notification : ℕ
  pub msg_revoke_notification : ℕ
  pub group_status_dismissed : ℕ
  pub group_status_muted : ℕ
  pub super_group : ℕ
  pub group_owner : ℕ
  pub group_admin : ℕ
  pub group_ordinary_users : ℕ
  pub receive_message : ℕ
  pub not_receive_message : ℕ
  pub receive_not_notify_message : ℕ
  pub names : OptionNames

pub record MsgConfig : Type 0 where
  pub access : Config
  -- MessageVerify.FriendVerify, a pointer
  pub friend_verify : Option Bool
  pub single_message_has_read_receipt_enable : Bool
  pub group_message_has_read_receipt_enable : Bool

-- sdkws.MsgData. A nil map of options is `none`.
pub record MsgData : Type 0 where
  pub send_id : Bytes
  pub recv_id : Bytes
  pub group_id : Bytes
  pub client_msg_id : Bytes
  pub server_msg_id : Bytes
  pub session_type : SessionType
  pub content_type : ℕ
  pub send_time : ℕ
  pub options : Option Options

-- A nil map reads as an empty one.
abbrev pub readable : Option Options → Options
readable none = []
readable (some o) = o
