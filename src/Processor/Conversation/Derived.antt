-- ===== src/Processor/Conversation/Derived.antt =====
-- Identifiers computed from other identifiers (pkg/msgprocessor/conversation.go).
use open_im_server.Base.{
  ◌≡◌, ◌≢◌, refl, ap, ◌∙◌, true, Bytes, codes, List, [], ◌∷◌, ◌++◌, arith, length, length-append,
  Bool-cases, inl, inr, ◌⊎◌,
}
use open_im_server.Processor.Strings.{
  sort, join, split, split_ne_nil, join-split, insert_sorted, leb_bytes,
}
use open_im_server.Processor.Conversation.{
  SessionType, single_chat_type, group_chat_type, super_group_chat_type, notification_chat_type,
  other_session_type, MsgId, get_notification_conversation_id_by_msg, notification_id_of, bar,
  get_chat_conversation_id_by_msg, chat_id_of, rejoin, get_conversation_id_by_session_type,
  get_notification_conversation_id_by_conversation_id, first,
}
use open_im_server.Processor.Conversation.Laws.{is_known}

rejoin_lem : (p : Bytes) (l : List Bytes) → l ≢ [] → rejoin (p ∷ l) ≡ codes "n_" ++ join bar l
rejoin_lem p [] h = absurd (h refl)
rejoin_lem p (t ∷ l) h = unfold join in refl

rejoin-split : (p rest : Bytes) → rejoin (p ∷ split b'_' rest) ≡ codes "n_" ++ rest
rejoin-split p rest =
    rejoin_lem p (split b'_' rest) (split_ne_nil b'_' rest)
    ∙ ap (λ s. codes "n_" ++ s) (join-split b'_' rest)

chat_to_notification :
    (t : SessionType) (m : MsgId)
    → is_known t ≡ true
    → get_notification_conversation_id_by_conversation_id (chat_id_of t m) ≡ notification_id_of t m
unfolding get_notification_conversation_id_by_conversation_id split
chat_to_notification single_chat_type m h = rejoin-split (codes "si") _
chat_to_notification group_chat_type m h = rejoin-split (codes "g") m.group_id
chat_to_notification super_group_chat_type m h = rejoin-split (codes "sg") m.group_id
chat_to_notification notification_chat_type m h = rejoin-split (codes "sn") _
chat_to_notification (other_session_type n) m h = cc

-- From the chat identifier of a message of a known session type
-- `GetNotificationConversationIDByConversationID` computes the message's notification identifier,
-- also when the user or group identifiers hold underscores.
chat_id_to_notification_id :
    (m : MsgId)
    → is_known m.session_type ≡ true
    → get_notification_conversation_id_by_conversation_id (get_chat_conversation_id_by_msg m)
      ≡ get_notification_conversation_id_by_msg m
unfolding get_chat_conversation_id_by_msg get_notification_conversation_id_by_msg
chat_id_to_notification_id m h = chat_to_notification m.session_type m h

first_of_sorted : (a b : Bytes) → (first (sort (a ∷ b ∷ [])) ≡ a) ⊎ (first (sort (a ∷ b ∷ [])) ≡ b)
unfolding sort insert_sorted
first_of_sorted a b = elim (Bool-cases (leb_bytes a b)) [ inl e ↦ inl (rw e) | inr e ↦ inr (rw e) ]

-- A text is shorter than the same text joined to another one by a bar.
pair_longer : (p a b s : Bytes) → (s ≡ a) ⊎ (s ≡ b) → p ++ s ≢ p ++ (a ++ (bar ++ b))
pair_longer p a b s h = λ e. omega (
  arith,
  ap length e,
  length-append p s,
  length-append p (a ++ (bar ++ b)),
  length-append a (bar ++ b),
  shorter h,
)
  where
    shorter : (s ≡ a) ⊎ (s ≡ b) → (length s ≡ length a) ⊎ (length s ≡ length b)
    shorter (inl e) = inl (ap length e)
    shorter (inr e) = inr (ap length e)

-- For a notification chat `GetConversationIDBySessionType` keeps one of the two identifiers, and
-- `GetChatConversationIDByMsg` both: for the same two users the results always differ.
pub notification_chat_ids_differ :
    (m : MsgId)
    → m.session_type ≡ notification_chat_type
    → get_conversation_id_by_session_type notification_chat_type (m.send_id ∷ m.recv_id ∷ [])
      ≢ get_chat_conversation_id_by_msg m
unfolding get_chat_conversation_id_by_msg get_conversation_id_by_session_type
notification_chat_ids_differ m h =
    rw h (pair_longer (codes "sn_") m.send_id m.recv_id _ (first_of_sorted m.send_id m.recv_id))
