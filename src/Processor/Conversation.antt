-- ===== src/Processor/Conversation.antt =====
-- Conversation identifiers (pkg/msgprocessor/conversation.go).
pub mod Laws
pub mod Derived
use open_im_server.Base.{
  ℕ, Bool, true, false, not, Bytes, codes, List, [], ◌∷◌, ◌++◌, if◌then◌else◌, length, leb, ltb,
  ◌||◌,
}
use open_im_server.Processor.Strings.{sort, join, split, has_prefix}
use open_im_server.Processor.Options.{Options, OptionNames, is}

-- The session types that the code names, and any other number.
pub data SessionType : Type 0 where
  single_chat_type group_chat_type super_group_chat_type notification_chat_type : SessionType
  other_session_type : ℕ → SessionType

-- The part of sdkws.MsgData that identifies the conversation.
pub record MsgId : Type 0 where
  pub session_type : SessionType
  pub send_id : Bytes
  pub recv_id : Bytes
  pub group_id : Bytes
  pub options : Options

abbrev pub bar : Bytes
bar = codes "_"

-- `l := []string{a, b}; sort.Strings(l); strings.Join(l, "_")`
unfoldable pub sorted_pair : Bytes → Bytes → Bytes
sorted_pair a b = join bar (sort (a ∷ b ∷ []))

abbrev pub notification_id_of : SessionType → MsgId → Bytes
notification_id_of single_chat_type m = codes "n_" ++ sorted_pair m.send_id m.recv_id
notification_id_of group_chat_type m = codes "n_" ++ m.group_id
notification_id_of super_group_chat_type m = codes "n_" ++ m.group_id
notification_id_of notification_chat_type m = codes "n_" ++ (m.send_id ++ (bar ++ m.recv_id))
notification_id_of (other_session_type n) m = []

unfoldable pub get_notification_conversation_id_by_msg : MsgId → Bytes
get_notification_conversation_id_by_msg m = notification_id_of m.session_type m

abbrev pub chat_id_of : SessionType → MsgId → Bytes
chat_id_of single_chat_type m = codes "si_" ++ sorted_pair m.send_id m.recv_id
chat_id_of group_chat_type m = codes "g_" ++ m.group_id
chat_id_of super_group_chat_type m = codes "sg_" ++ m.group_id
chat_id_of notification_chat_type m = codes "sn_" ++ (m.send_id ++ (bar ++ m.recv_id))
chat_id_of (other_session_type n) m = []

unfoldable pub get_chat_conversation_id_by_msg : MsgId → Bytes
get_chat_conversation_id_by_msg m = chat_id_of m.session_type m

abbrev pub unique_key_of : SessionType → MsgId → Bytes
unique_key_of single_chat_type m = sorted_pair m.send_id m.recv_id
unique_key_of notification_chat_type m = sorted_pair m.send_id m.recv_id
unique_key_of super_group_chat_type m = m.group_id
unique_key_of _ m = []

unfoldable pub gen_conversation_unique_key : MsgId → Bytes
gen_conversation_unique_key m = unique_key_of m.session_type m

abbrev pub is_not_notification : OptionNames → MsgId → Bool
is_not_notification n m = is m.options n.is_not_notification

abbrev pub conversation_id_of : Bool → SessionType → MsgId → Bytes
conversation_id_of is_not single_chat_type m =
    if not is_not
    then codes "n_" ++ sorted_pair m.send_id m.recv_id
    else codes "si_" ++ sorted_pair m.send_id m.recv_id
conversation_id_of is_not group_chat_type m =
    if not is_not then codes "n_" ++ m.group_id else codes "g_" ++ m.group_id
conversation_id_of is_not super_group_chat_type m =
    if not is_not then codes "n_" ++ m.group_id else codes "sg_" ++ m.group_id
conversation_id_of is_not notification_chat_type m =
    if not is_not
    then codes "n_" ++ (m.send_id ++ (bar ++ m.recv_id))
    else codes "sn_" ++ (m.send_id ++ (bar ++ m.recv_id))
conversation_id_of is_not (other_session_type n) m = []

unfoldable pub get_conversation_id_by_msg : OptionNames → MsgId → Bytes
get_conversation_id_by_msg n m = conversation_id_of (is_not_notification n m) m.session_type m

-- The first identifier of a list that is known to have one.
abbrev pub first : List Bytes → Bytes
first [] = []
first (s ∷ l) = s

abbrev pub id_by_session : SessionType → List Bytes → Bytes
id_by_session single_chat_type ids = codes "si_" ++ join bar ids
id_by_session group_chat_type ids = codes "g_" ++ first ids
id_by_session super_group_chat_type ids = codes "sg_" ++ first ids
id_by_session notification_chat_type ids = codes "sn_" ++ first ids
id_by_session (other_session_type n) ids = []

unfoldable pub get_conversation_id_by_session_type : SessionType → List Bytes → Bytes
get_conversation_id_by_session_type t ids =
    if ltb 2 (length ids) || ltb (length ids) 1 then [] else id_by_session t (sort ids)

abbrev pub rejoin : List Bytes → Bytes
rejoin [] = []
rejoin (s ∷ []) = []
rejoin (s ∷ t ∷ l) = join bar (codes "n" ∷ t ∷ l)

unfoldable pub get_notification_conversation_id_by_conversation_id : Bytes → Bytes
get_notification_conversation_id_by_conversation_id conversation_id =
    rejoin (split b'_' conversation_id)

abbrev pub notification_by_session : SessionType → List Bytes → Bytes
notification_by_session single_chat_type ids = codes "n_" ++ join bar ids
notification_by_session super_group_chat_type ids = codes "n_" ++ first ids
notification_by_session _ ids = []

unfoldable pub get_notification_conversation_id : SessionType → List Bytes → Bytes
get_notification_conversation_id t ids =
    if ltb 2 (length ids) || ltb (length ids) 1 then [] else notification_by_session t (sort ids)

unfoldable pub is_notification : Bytes → Bool
is_notification conversation_id = has_prefix conversation_id (codes "n_")

unfoldable pub is_notification_by_msg : OptionNames → MsgId → Bool
is_notification_by_msg n m = not (is_not_notification n m)

-- The result (isNotification, conversationID); this function has no case for `GroupChatType`.
abbrev pub parsed_id : Bool → SessionType → MsgId → Bool × Bytes
parsed_id is_not single_chat_type m =
    if not is_not
    then (true, codes "n_" ++ sorted_pair m.send_id m.recv_id)
    else (false, codes "si_" ++ sorted_pair m.send_id m.recv_id)
parsed_id is_not super_group_chat_type m =
    if not is_not then (true, codes "n_" ++ m.group_id) else (false, codes "sg_" ++ m.group_id)
parsed_id is_not notification_chat_type m =
    if not is_not
    then (true, codes "n_" ++ (m.send_id ++ (bar ++ m.recv_id)))
    else (false, codes "sn_" ++ (m.send_id ++ (bar ++ m.recv_id)))
parsed_id is_not _ m = (false, [])

unfoldable pub parse_conversation_id : OptionNames → MsgId → Bool × Bytes
parse_conversation_id n m = parsed_id (is_not_notification n m) m.session_type m
