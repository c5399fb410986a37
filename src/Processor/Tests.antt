-- ===== src/Processor/Tests.antt =====
-- Concrete conversation identifiers.
use open_im_server.Base.{◌≡◌, ◌≢◌, refl, false, codes, [], ◌∷◌, if◌then◌else◌}
use open_im_server.Processor.Options.{OptionNames}
use open_im_server.Processor.Conversation.{
  SessionType, single_chat_type, notification_chat_type, MsgId, get_conversation_id_by_msg,
  get_chat_conversation_id_by_msg, get_notification_conversation_id_by_msg,
  gen_conversation_unique_key, get_conversation_id_by_session_type, is_notification,
  parse_conversation_id,
}
use open_im_server.Processor.Conversation.Laws.{
  reversed, single_chat_symmetric, is_group_chat, parse_conversation_id_lem,
}
use open_im_server.Processor.Conversation.Derived.{notification_chat_ids_differ}

abbrev pub names : OptionNames
names = record {
  is_not_notification = codes "notNotification";
  is_send_msg = codes "sendMsg";
  is_history = codes "history";
  is_persistent = codes "persistent";
  is_offline_push = codes "offlinePush";
  is_unread_count = codes "unreadCount";
  is_conversation_update = codes "conversationUpdate";
  is_sender_sync = codes "senderSync";
  is_not_private = codes "notPrivate";
  is_sender_conversation_update = codes "senderConversationUpdate";
  is_reaction_from_cache = codes "reactionFromCache";
}

abbrev msg_of : SessionType → MsgId
msg_of t = record {
  session_type = t;
  send_id = codes "u_2";
  recv_id = codes "u1";
  group_id = codes "g";
  options = [];
}

abbrev m : MsgId
m = msg_of single_chat_type

single_chat_symmetric_example :
    (get_conversation_id_by_msg names (reversed m) ≡ get_conversation_id_by_msg names m)
    × (get_chat_conversation_id_by_msg (reversed m) ≡ get_chat_conversation_id_by_msg m)
    × (get_notification_conversation_id_by_msg (reversed m)
        ≡ get_notification_conversation_id_by_msg m)
    × (gen_conversation_unique_key (reversed m) ≡ gen_conversation_unique_key m)
single_chat_symmetric_example = single_chat_symmetric names m refl

parse_conversation_id_example : parse_conversation_id names m ≡ (
    if is_group_chat m.session_type
    then (false, [])
    else (is_notification (get_conversation_id_by_msg names m), get_conversation_id_by_msg names m))
parse_conversation_id_example = parse_conversation_id_lem names m

notification_chat_ids_differ_example :
    get_conversation_id_by_session_type notification_chat_type (codes "u_2" ∷ codes "u1" ∷ [])
    ≢ get_chat_conversation_id_by_msg (msg_of notification_chat_type)
notification_chat_ids_differ_example =
    notification_chat_ids_differ (msg_of notification_chat_type) refl
