-- ===== src/Message/Prepare/Switches.antt =====
-- The switches that the preparation of internal/rpc/msg/verify.go (`encapsulateMsgData`) leaves in a message.
use open_im_server.Base.{
  ℕ, ◌==◌, ◌≡◌, ◌≢◌, refl, ◌∙◌, ap, Bool, true, false, Bytes, bytes_discrete, List, [], ◌∷◌, Option,
  none, some, ite, contains, if◌then◌else◌, ℕ_discrete, arith,
}
use open_im_server.Processor.Options.{Options, is}
use open_im_server.Message.Model.{Constants, MsgData, readable}
use open_im_server.Message.Prepare.{Tools, switches_of, set_switches, encapsulate_msg_data}

-- What SetSwitchFromOptions does to the switches: one is set and the others stay.
abbrev pub SetsSwitch : Tools → Type 0
SetsSwitch t =
    (o : Options) (name x : Bytes) (b : Bool)
    → is (t.set_switch_from_options o name b) x ≡ ite (bytes_discrete name x) b (is o x)

-- The last value that a list of assignments gives to a name.
abbrev pub last_value : Bytes → List (Bytes × Bool) → Bool → Bool
last_value x [] d = d
last_value x ((name, b) ∷ l) d = last_value x l (ite (bytes_discrete name x) b d)

is-set_switches :
    (t : Tools) (l : List (Bytes × Bool)) (o : Options) (x : Bytes)
    → SetsSwitch t
    → is (readable (set_switches t l (some o))) x ≡ last_value x l (is o x)
unfolding set_switches
is-set_switches t [] o x h = refl
is-set_switches t ((name, b) ∷ l) o x h =
    is-set_switches t l (t.set_switch_from_options o name b) x h
    ∙ ap (last_value x l) (h o name x b)

set_switches-none : (t : Tools) (l : List (Bytes × Bool)) → set_switches t l none ≡ none
unfolding set_switches
set_switches-none t [] = refl
set_switches-none t ((name, b) ∷ l) = set_switches-none t l

all_set : Bool → List Bytes → List (Bytes × Bool)
all_set b [] = []
all_set b (n ∷ l) = (n, b) ∷ all_set b l

last_value-all_set :
    (b : Bool) (x : Bytes) (l : List Bytes) (d : Bool)
    → last_value x (all_set b l) d ≡ (if contains bytes_discrete x l then b else d)
unfolding all_set
last_value-all_set b x [] d = refl
last_value-all_set b x (n ∷ l) d = elim (bytes_discrete n x) [
  | yes e ↦ ground (arith, e, last_value-all_set b x l b, last_value-all_set b x l d)
  | no m ↦ ground (arith, m, last_value-all_set b x l d)
]

-- What a message is, by its content type.
pub data ContentKind : Type 0 where
  plain : ContentKind
  revocation : ContentKind
  read_receipt : ContentKind
  typing_sign : ContentKind
  other : ContentKind

-- Texts, media and the like, which a receiver sees as a new message.
abbrev pub plain_contents : Constants → List ℕ
plain_contents k =
    k.text ∷ k.picture ∷ k.voice ∷ k.video ∷ k.file ∷ k.at_text ∷ k.merger ∷ k.card ∷ k.location
    ∷ k.custom ∷ k.quote ∷ []

abbrev pub IsKind : Constants → ContentKind → ℕ → Type 0
IsKind k plain c = contains ℕ_discrete c (plain_contents k) ≡ true
IsKind k revocation c = (contains ℕ_discrete c (plain_contents k) ≡ false) × (c ≡ k.revoke)
IsKind k read_receipt c =
    (contains ℕ_discrete c (plain_contents k) ≡ false) × (c ≢ k.revoke) × (c ≡ k.has_read_receipt)
IsKind k typing_sign c =
    (contains ℕ_discrete c (plain_contents k) ≡ false)
    × (c ≢ k.revoke)
    × (c ≢ k.has_read_receipt)
    × (c ≡ k.typing)
IsKind k other c =
    (contains ℕ_discrete c (plain_contents k) ≡ false)
    × (c ≢ k.revoke)
    × (c ≢ k.has_read_receipt)
    × (c ≢ k.typing)

-- The switches that a kind of message must have on, and those that it must have off.
abbrev pub turned_on : Constants → ContentKind → List Bytes
turned_on k plain =
    k.names.is_conversation_update ∷ k.names.is_unread_count ∷ k.names.is_sender_sync ∷ []
turned_on k _ = []

abbrev pub turned_off : Constants → ContentKind → List Bytes
turned_off k plain = []
turned_off k revocation = k.names.is_unread_count ∷ k.names.is_offline_push ∷ []
turned_off k read_receipt =
    k.names.is_conversation_update ∷ k.names.is_sender_conversation_update ∷ k.names.is_unread_count
    ∷ k.names.is_offline_push ∷ []
turned_off k typing_sign =
    k.names.is_history ∷ k.names.is_persistent ∷ k.names.is_sender_sync
    ∷ k.names.is_conversation_update ∷ k.names.is_sender_conversation_update
    ∷ k.names.is_unread_count ∷ k.names.is_offline_push ∷ []
turned_off k other = []

-- What a switch reads afterwards. A message without a map of options has no switch set.
abbrev pub switch_after : Constants → ContentKind → Bytes → Option Options → Bool
switch_after k kind x none = is [] x
switch_after k kind x (some o) =
    if contains bytes_discrete x (turned_on k kind)
    then true
    else if contains bytes_discrete x (turned_off k kind)
    then false
    else is o x

switches_of-turned_on :
    (k : Constants) (c : ℕ) → IsKind k plain c → switches_of k c ≡ all_set true (turned_on k plain)
unfolding switches_of all_set
switches_of-turned_on k c h = rw h refl

switches_of-turned_off :
    (k : Constants) (kind : ContentKind) (c : ℕ)
    → kind ≢ plain
    → IsKind k kind c
    → switches_of k c ≡ all_set false (turned_off k kind)
unfolding switches_of all_set
switches_of-turned_off k plain c n h = absurd (n refl)
switches_of-turned_off k revocation c n h = rw h.0 (ground (arith, h.1))
switches_of-turned_off k read_receipt c n h = rw h.0 (ground (arith, h.1, h.2))
switches_of-turned_off k typing_sign c n h = rw h.0 (ground (arith, h.1, h.2, h.3))
switches_of-turned_off k other c n h = rw h.0 (ground (arith, h.1, h.2, h.3))

last_value-switches_of :
    (k : Constants) (kind : ContentKind) (c : ℕ) (o : Options) (x : Bytes)
    → IsKind k kind c
    → last_value x (switches_of k c) (is o x) ≡ switch_after k kind x (some o)
last_value-switches_of k plain c o x h =
    ap (λ l. last_value x l (is o x)) (switches_of-turned_on k c h)
    ∙ last_value-all_set true x (turned_on k plain) (is o x)
last_value-switches_of k revocation c o x h =
    ap (λ l. last_value x l (is o x)) (switches_of-turned_off k revocation c (λ e. cc) h)
    ∙ last_value-all_set false x (turned_off k revocation) (is o x)
last_value-switches_of k read_receipt c o x h =
    ap (λ l. last_value x l (is o x)) (switches_of-turned_off k read_receipt c (λ e. cc) h)
    ∙ last_value-all_set false x (turned_off k read_receipt) (is o x)
last_value-switches_of k typing_sign c o x h =
    ap (λ l. last_value x l (is o x)) (switches_of-turned_off k typing_sign c (λ e. cc) h)
    ∙ last_value-all_set false x (turned_off k typing_sign) (is o x)
last_value-switches_of k other c o x h =
    ap (λ l. last_value x l (is o x)) (switches_of-turned_off k other c (λ e. cc) h)
    ∙ last_value-all_set false x (turned_off k other) (is o x)

-- After the preparation a message with a map of options has the switches that its kind wants on or
-- off: a plain one counts as unread, moves the conversation and is synced; a revocation is neither
-- counted nor pushed; a read receipt moreover moves no conversation; a sign of typing moreover is
-- neither stored nor synced. Every other switch is as it was. A message whose map is nil has no
-- switch set. The message has the server's identifier, and a time if it had none.
-- SetSwitchFromOptions sets the switch that it is given.
pub encapsulate_msg_data_lem :
    (k : Constants) (t : Tools) (m : MsgData) (kind : ContentKind) (x : Bytes)
    → SetsSwitch t
    → IsKind k kind m.content_type
    → (is (readable (encapsulate_msg_data k t m).options) x ≡ switch_after k kind x m.options)
      × ((encapsulate_msg_data k t m).server_msg_id ≡ t.msg_id)
      × ((encapsulate_msg_data k t m).send_time ≡ (if m.send_time == 0 then t.now else m.send_time))
      × ((encapsulate_msg_data k t m).content_type ≡ m.content_type)
unfolding encapsulate_msg_data
encapsulate_msg_data_lem k t m kind x h is_kind = (prepared m.options, refl, refl, refl)
  where
    prepared :
        (o : Option Options)
        → is (readable (set_switches t (switches_of k m.content_type) o)) x
          ≡ switch_after k kind x o
    prepared none = ap (λ p. is (readable p) x) (set_switches-none t (switches_of k m.content_type))
    prepared (some o) =
        is-set_switches t (switches_of k m.content_type) o x h
        ∙ last_value-switches_of k kind m.content_type o x is_kind
