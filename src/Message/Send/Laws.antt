-- ===== src/Message/Send/Laws.antt =====
-- What reaches the queue, and when (internal/rpc/msg/send.go).
use open_im_server.Base.{
  ◌==◌, ◌≡◌, ◌≢◌, ◌⊎◌, inl, inr, refl, Bool, true, false, Bytes, List, [], ◌∷◌, Option, none, some,
  if◌then◌else◌, Error, Result, ok, err, ◌>>=◌, ◌>>◌, Bool-cases, >>=-eq-ok,
}
use open_im_server.Processor.Options.{Options}
use open_im_server.Processor.Conversation.{
  SessionType, single_chat_type, group_chat_type, super_group_chat_type, notification_chat_type,
  other_session_type,
}
use open_im_server.Message.Model.{Constants, MsgConfig, MsgData}
use open_im_server.Message.Verify.{Caches, message_verification}
use open_im_server.Message.Prepare.{
  Tools, ReceiveOpts, encapsulate_msg_data, is_message_has_read_enabled,
}
use open_im_server.Message.Send.{
  Pipeline, Effect, queued, at_info, SendMsgResp, resp_of, Outcome, failed, delivered, push_single,
  receive_decision, after_decision, if_verified, send_msg_single_chat, push_group,
  send_msg_super_group_chat, send_msg_notification, dispatch, send_msg,
}

-- One message was queued, it is the one that the response describes, and the queue was asked about it.
abbrev pub Queued : Pipeline → List Effect → SendMsgResp → Type 0
Queued p effects r =
    (key : Bytes) × (m : MsgData) × (rest : List Effect) × (effects ≡ queued key m ∷ rest)
    × (p.msg_to_mq key m ≡ ok tt)
    × (r ≡ resp_of m)

-- What an outcome may be: a response with one queued message, or no effect at all.
abbrev pub IsSound : Pipeline → Outcome → Type 0
IsSound p o =
    ((r : SendMsgResp) × (o.1 ≡ ok (some r)) × Queued p o.0 r)
    ⊎ ((o.0 ≡ []) × ((o.1 ≡ ok none) ⊎ ((e : Error) × (o.1 ≡ err e))))

delivered-IsSound :
    (p : Pipeline) (key : MsgData → Bytes) (rest : MsgData → List Effect) (r : Result MsgData)
    → ((m : MsgData) → r ≡ ok m → p.msg_to_mq (key m) m ≡ ok tt)
    → IsSound p (delivered (λ m. queued (key m) m ∷ rest m) r)
delivered-IsSound p key rest (ok m) h =
    inl (resp_of m, refl, (key m, m, rest m, refl, h m refl, refl))
delivered-IsSound p key rest (err e) h = inr (refl, inr (e, refl))

-- The last steps before the queue answers for the message.
queue_answered :
    (p : Pipeline) (key : MsgData → Bytes) (before : Result (Unit {0})) (modify : Result MsgData)
    (m : MsgData)
    → (do before; m' ← modify; p.msg_to_mq (key m') m'; ok m') ≡ ok m
    → p.msg_to_mq (key m) m ≡ ok tt
queue_answered p key (err e) modify m h = cc
queue_answered p key (ok u) (err e) m h = cc
queue_answered p key (ok u) (ok m') m h =
    let (u', sent, same) = >>=-eq-ok (p.msg_to_mq (key m') m') (λ _. ok m') h in
    let e : m' ≡ m = cc same in rw (← e) sent

push_single-IsSound : (p : Pipeline) (m : MsgData) → IsSound p (push_single p m)
unfolding push_single
push_single-IsSound p m =
    delivered-IsSound p (λ x. p.unique_key_for_single x.send_id x.recv_id) (λ x. []) _
      (queue_answered p (λ x. p.unique_key_for_single x.send_id x.recv_id)
        (p.callback_before_send_single_msg m) (p.callback_msg_modify m))

push_group-IsSound : (k : Constants) (p : Pipeline) (m : MsgData) → IsSound p (push_group k p m)
unfolding push_group
push_group-IsSound k p m =
    delivered-IsSound p (λ x. p.unique_key_for_group x.group_id)
      (λ x. if x.content_type == k.at_text then at_info x ∷ [] else []) _
      (queue_answered p (λ x. p.unique_key_for_group x.group_id)
        (p.callback_before_send_group_msg m) (p.callback_msg_modify m))

send_msg_notification-IsSound : (p : Pipeline) (m : MsgData) → IsSound p (send_msg_notification p m)
unfolding send_msg_notification
send_msg_notification-IsSound p m =
    delivered-IsSound p (λ x. p.unique_key_for_single x.send_id x.recv_id) (λ x. []) _
      (queue_answered p (λ x. p.unique_key_for_single x.send_id x.recv_id) (ok tt) (ok m))

failed-IsSound : (p : Pipeline) (e : Error) → IsSound p (failed e)
failed-IsSound p e = inr (refl, inr (e, refl))

after_decision-IsSound :
    (p : Pipeline) (m : MsgData) (d : Result (Bool × Option Options))
    → IsSound p (after_decision p m d)
unfolding after_decision
after_decision-IsSound p m (err e) = failed-IsSound p e
after_decision-IsSound p m (ok (false, o)) = inr (refl, inl refl)
after_decision-IsSound p m (ok (true, o)) = push_single-IsSound p (record m { options = o })

if_verified-IsSound :
    (p : Pipeline) (v : Result (Unit {0})) (o : Outcome) → IsSound p o → IsSound p (if_verified v o)
if_verified-IsSound p (err e) o h = failed-IsSound p e
if_verified-IsSound p (ok u) o h = h

module _ (k : Constants) (config : MsgConfig) (cs : Caches) (t : Tools) (rs : ReceiveOpts)
    (p : Pipeline) where
  dispatch-IsSound : (s : SessionType) (m : MsgData) → IsSound p (dispatch s k config cs t rs p m)
  unfolding dispatch send_msg_single_chat send_msg_super_group_chat
  dispatch-IsSound single_chat_type m =
      if_verified-IsSound p (message_verification k config cs m) _
        (after_decision-IsSound p m (receive_decision k t rs p m))
  dispatch-IsSound notification_chat_type m = send_msg_notification-IsSound p m
  dispatch-IsSound super_group_chat_type m =
      if_verified-IsSound p (message_verification k config cs m) _ (push_group-IsSound k p m)
  dispatch-IsSound group_chat_type m = failed-IsSound p _
  dispatch-IsSound (other_session_type n) m = failed-IsSound p _

  -- Every outcome of `SendMsg` is one of two. Either it answers with a response and the queue took
  -- the very message that the response describes, first of all effects; or nothing happened, and
  -- it answers with nil or an error.
  pub send_msg-IsSound : (m : Option MsgData) → IsSound p (send_msg k config cs t rs p m)
  unfolding send_msg
  send_msg-IsSound none = failed-IsSound p _
  send_msg-IsSound (some m) = elim (Bool-cases (is_message_has_read_enabled k config m)) [
    | inl e ↦ rw e (dispatch-IsSound m.session_type (encapsulate_msg_data k t m))
    | inr e ↦ rw e (failed-IsSound p _)
  ]

  verified_of : (v : Result (Unit {0})) (o : Outcome) → (if_verified v o).0 ≢ [] → v ≡ ok tt
  verified_of (ok u) o h = refl
  verified_of (err e) o h = absurd (h refl)

  dispatch_verified :
      (s : SessionType) (m : MsgData)
      → (dispatch s k config cs t rs p m).0 ≢ []
      → (s ≡ notification_chat_type) ⊎ (message_verification k config cs m ≡ ok tt)
  unfolding dispatch send_msg_single_chat send_msg_super_group_chat
  dispatch_verified single_chat_type m h =
      inr (verified_of (message_verification k config cs m) _ h)
  dispatch_verified notification_chat_type m h = inl refl
  dispatch_verified super_group_chat_type m h =
      inr (verified_of (message_verification k config cs m) _ h)
  dispatch_verified group_chat_type m h = absurd (h refl)
  dispatch_verified (other_session_type n) m h = absurd (h refl)

  -- Whatever has an effect was checked: the read receipt is enabled, and the prepared message
  -- passed the verification, unless it is for a notification chat, which is not verified.
  pub send_msg_verified :
      (m : MsgData)
      → (send_msg k config cs t rs p (some m)).0 ≢ []
      → (is_message_has_read_enabled k config m ≡ true)
        × ((m.session_type ≡ notification_chat_type)
            ⊎ (message_verification k config cs (encapsulate_msg_data k t m) ≡ ok tt))
  unfolding send_msg
  send_msg_verified m h = elim (Bool-cases (is_message_has_read_enabled k config m)) [
    | inl e ↦ (e, dispatch_verified m.session_type (encapsulate_msg_data k t m) (rw e at h))
    | inr e ↦ absurd ((rw e at h) refl)
  ]
