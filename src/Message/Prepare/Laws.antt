-- ===== src/Message/Prepare/Laws.antt =====
-- When `modifyMessageByUserMessageReceiveOpt` of internal/rpc/msg/verify.go withholds a message.
use open_im_server.Base.{
  ℕ, ◌≡◌, ◌≢◌, ◌↔◌, ◌⊎◌, inl, inr, refl, Bool, true, false, not, Bytes, Option, Result, ok, err,
  arith,
}
use open_im_server.Processor.Options.{Options}
use open_im_server.Message.Model.{Constants, MsgData}
use open_im_server.Message.Prepare.{
  Tools, ReceiveOpts, by_conversation_opt, by_global_opt,
  modify_message_by_user_message_receive_opt,
}

-- The three receive options are different numbers.
pub record OptsDiffer (k : Constants) : Type 0 where
  pub first : k.receive_message ≢ k.not_receive_message
  pub second : k.receive_message ≢ k.receive_not_notify_message
  pub third : k.not_receive_message ≢ k.receive_not_notify_message

-- When the conversation's option decides: the global one neither withholds nor silences.
abbrev pub Defers : Constants → ℕ → Type 0
Defers k g = (g ≢ k.not_receive_message) × (g ≢ k.receive_not_notify_message)

-- The answer that the message is not sent.
abbrev pub withholds : Result (Bool × Option Options) → Bool
withholds (ok (b, o)) = not b
withholds (err e) = false

withheld_by_conversation :
    (k : Constants) (t : Tools) (c : ℕ) (o : Option Options) (r : Result ℕ)
    → OptsDiffer k
    → (withholds (by_conversation_opt k t c o r) ≡ true)
      ↔ ((r ≡ ok k.not_receive_message) × (c ≢ k.has_read_receipt))
unfolding by_conversation_opt
withheld_by_conversation k t c o (ok x) d =
    (λ h. ground (arith, d.first), λ h. ground (arith, d.first))
withheld_by_conversation k t c o (err e) d = (λ h. ground arith, λ h. absurd (cc h.0))

decide-Defers :
    (k : Constants) (g : ℕ)
    → Defers k g ⊎ ((g ≡ k.not_receive_message) ⊎ (g ≡ k.receive_not_notify_message))
decide-Defers k g = ground arith

withheld_by_global :
    (k : Constants) (t : Tools) (rs : ReceiveOpts) (user_id conversation_id : Bytes) (m : MsgData)
    (r : Result ℕ)
    → OptsDiffer k
    → (withholds (by_global_opt k t rs user_id conversation_id m r) ≡ true) ↔ (
        (r ≡ ok k.not_receive_message)
        ⊎ ((g : ℕ) × (r ≡ ok g)
            × Defers k g
            × (rs.get_single_conversation_recv_msg_opt user_id conversation_id
                ≡ ok k.not_receive_message)
            × (m.content_type ≢ k.has_read_receipt)))
unfolding by_global_opt
withheld_by_global k t rs u c m (err e) d =
    (λ h. cc, λ h. elim h [ inl a ↦ absurd (cc a) | inr b ↦ absurd (cc b.1) ])
withheld_by_global k t rs u c m (ok g) d = (
  λ h. elim (decide-Defers k g) [
    | inl a ↦
        let both =
          (withheld_by_conversation k t m.content_type m.options
              (rs.get_single_conversation_recv_msg_opt u c) d).0
            (ground (arith, a, h)) in
        inr (g, refl, a, both.0, both.1)
    | inr b ↦ inl (ground (arith, b, d.third, h))
  ],
  λ h. elim h [
    | inl a ↦ ground (arith, a, d.first)
    | inr (g', e, defers, conv, receipt) ↦ ground (
      arith,
      e,
      defers,
      (withheld_by_conversation k t m.content_type m.options
            (rs.get_single_conversation_recv_msg_opt u c) d).1
          (conv, receipt),
    )
  ],
)

-- A message is withheld from its receiver exactly when the receiver's global option says so, or
-- when that leaves it to the conversation, whose option says so, and the message is no read
-- receipt, if the three receive options are different numbers.
pub withheld_iff :
    (k : Constants) (t : Tools) (rs : ReceiveOpts) (user_id conversation_id : Bytes) (m : MsgData)
    → OptsDiffer k
    → (withholds (modify_message_by_user_message_receive_opt k t rs user_id conversation_id m)
        ≡ true)
      ↔ ((rs.get_user_global_msg_recv_opt user_id ≡ ok k.not_receive_message)
          ⊎ ((g : ℕ) × (rs.get_user_global_msg_recv_opt user_id ≡ ok g)
              × Defers k g
              × (rs.get_single_conversation_recv_msg_opt user_id conversation_id
                  ≡ ok k.not_receive_message)
              × (m.content_type ≢ k.has_read_receipt)))
unfolding modify_message_by_user_message_receive_opt
withheld_iff k t rs user_id conversation_id m d =
    withheld_by_global k t rs user_id conversation_id m (rs.get_user_global_msg_recv_opt user_id) d
