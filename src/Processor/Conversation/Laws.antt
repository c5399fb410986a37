-- ===== src/Processor/Conversation/Laws.antt =====
-- How the identifiers of pkg/msgprocessor/conversation.go agree with one another.
use open_im_server.Base.{◌≡◌, refl, Bool, true, false, not, ◌&&◌, Bytes, [], arith, if◌then◌else◌}
use open_im_server.Processor.Strings.{has_prefix, sort_two}
use open_im_server.Processor.Options.{OptionNames}
use open_im_server.Processor.Conversation.{
  SessionType, single_chat_type, group_chat_type, super_group_chat_type, notification_chat_type,
  other_session_type, MsgId, sorted_pair, get_notification_conversation_id_by_msg,
  notification_id_of, get_chat_conversation_id_by_msg, get_conversation_id_by_msg,
  conversation_id_of, is_notification, chat_id_of, is_notification_by_msg, is_not_notification,
  parse_conversation_id, parsed_id, gen_conversation_unique_key,
}

abbrev pub is_known : SessionType → Bool
is_known (other_session_type n) = false
is_known _ = true

sorted_pair_comm : (a b : Bytes) → sorted_pair a b ≡ sorted_pair b a
unfolding sorted_pair
sorted_pair_comm a b = rw (sort_two a b)

-- The message as the other side sends it.
abbrev pub reversed : MsgId → MsgId
reversed m = record m { send_id = m.recv_id; recv_id = m.send_id }

-- The two users of a single chat share one conversation, one notification conversation and one
-- queue key, whoever sends.
pub single_chat_symmetric :
    (n : OptionNames) (m : MsgId)
    → m.session_type ≡ single_chat_type
    → (get_conversation_id_by_msg n (reversed m) ≡ get_conversation_id_by_msg n m)
      × (get_chat_conversation_id_by_msg (reversed m) ≡ get_chat_conversation_id_by_msg m)
      × (get_notification_conversation_id_by_msg (reversed m)
          ≡ get_notification_conversation_id_by_msg m)
      × (gen_conversation_unique_key (reversed m) ≡ gen_conversation_unique_key m)
unfolding get_conversation_id_by_msg get_chat_conversation_id_by_msg
    get_notification_conversation_id_by_msg gen_conversation_unique_key
single_chat_symmetric n m h = ground (arith, sorted_pair_comm m.send_id m.recv_id)

id_of_is_notification :
    (b : Bool) (t : SessionType) (m : MsgId)
    → is_notification (conversation_id_of b t m) ≡ (is_known t && not b)
unfolding is_notification has_prefix
id_of_is_notification true single_chat_type m = refl
id_of_is_notification false single_chat_type m = refl
id_of_is_notification true group_chat_type m = refl
id_of_is_notification false group_chat_type m = refl
id_of_is_notification true super_group_chat_type m = refl
id_of_is_notification false super_group_chat_type m = refl
id_of_is_notification true notification_chat_type m = refl
id_of_is_notification false notification_chat_type m = refl
id_of_is_notification b (other_session_type n) m = refl

-- The prefix test on the identifier of a message says whether the message is a notification; the
-- identifier of an unknown session type is no notification's.
is_notification-get_conversation_id_by_msg :
    (n : OptionNames) (m : MsgId)
    → is_notification (get_conversation_id_by_msg n m)
      ≡ (is_known m.session_type && is_notification_by_msg n m)
unfolding get_conversation_id_by_msg is_notification_by_msg
is_notification-get_conversation_id_by_msg n m =
    id_of_is_notification (is_not_notification n m) m.session_type m

-- The identifier of a message is its notification identifier or its chat identifier.
conversation_id_of_cases :
    (b : Bool) (t : SessionType) (m : MsgId)
    → conversation_id_of b t m ≡ (if not b then notification_id_of t m else chat_id_of t m)
conversation_id_of_cases true single_chat_type m = refl
conversation_id_of_cases false single_chat_type m = refl
conversation_id_of_cases true group_chat_type m = refl
conversation_id_of_cases false group_chat_type m = refl
conversation_id_of_cases true super_group_chat_type m = refl
conversation_id_of_cases false super_group_chat_type m = refl
conversation_id_of_cases true notification_chat_type m = refl
conversation_id_of_cases false notification_chat_type m = refl
conversation_id_of_cases true (other_session_type n) m = refl
conversation_id_of_cases false (other_session_type n) m = refl

get_conversation_id_by_msg_cases :
    (n : OptionNames) (m : MsgId)
    → get_conversation_id_by_msg n m ≡ (
        if is_notification_by_msg n m
        then get_notification_conversation_id_by_msg m
        else get_chat_conversation_id_by_msg m)
unfolding get_conversation_id_by_msg is_notification_by_msg get_notification_conversation_id_by_msg
    get_chat_conversation_id_by_msg
get_conversation_id_by_msg_cases n m =
    conversation_id_of_cases (is_not_notification n m) m.session_type m

abbrev pub is_group_chat : SessionType → Bool
is_group_chat group_chat_type = true
is_group_chat _ = false

parsed_id_cases :
    (b : Bool) (t : SessionType) (m : MsgId)
    → parsed_id b t m ≡ (
        if is_group_chat t
        then (false, [])
        else (is_notification (conversation_id_of b t m), conversation_id_of b t m))
unfolding is_notification has_prefix
parsed_id_cases true single_chat_type m = refl
parsed_id_cases false single_chat_type m = refl
parsed_id_cases b group_chat_type m = refl
parsed_id_cases true super_group_chat_type m = refl
parsed_id_cases false super_group_chat_type m = refl
parsed_id_cases true notification_chat_type m = refl
parsed_id_cases false notification_chat_type m = refl
parsed_id_cases b (other_session_type n) m = refl

-- `ParseConversationID` gives the identifier of `GetConversationIDByMsg` and its prefix test, for
-- every session type but `GroupChatType`; for that one it gives no identifier at all.
pub parse_conversation_id_lem :
    (n : OptionNames) (m : MsgId)
    → parse_conversation_id n m ≡ (
        if is_group_chat m.session_type
        then (false, [])
        else (is_notification (get_conversation_id_by_msg n m), get_conversation_id_by_msg n m))
unfolding parse_conversation_id get_conversation_id_by_msg
parse_conversation_id_lem n m = parsed_id_cases (is_not_notification n m) m.session_type m
