-- ===== src/Processor/Options/Laws.antt =====
-- What the switches of pkg/msgprocessor/options.go read after they are set.
use open_im_server.Base.{
  ◌≡◌, refl, Bool, true, false, Bytes, bytes_discrete, List, [], ◌∷◌, ◌++◌, lookup, lookup-insert,
  ite, arith, dec_true, ◌||◌, not, contains, ap, sym, ◌∙◌, ◌&&◌,
}
use open_im_server.Processor.Options.{
  OptionNames, Options, OptionsOpt, set_option, with_options, default_options, new_options, is,
}

-- A switch reads what was set last; setting one leaves the others.
pub is-set_option :
    (o : Options) (name other : Bytes) (b : Bool)
    → is (set_option name b o) other ≡ ite (bytes_discrete name other) b (is o other)
unfolding is set_option
is-set_option o name other b = ground (arith, lookup-insert bytes_discrete name other b o)

with_options-append_one :
    (o : Options) (opts : List OptionsOpt) (opt : OptionsOpt)
    → with_options o (opts ++ opt ∷ []) ≡ opt (with_options o opts)
unfolding with_options
with_options-append_one o [] opt = refl
with_options-append_one o (f ∷ opts) opt = with_options-append_one (f o) opts opt

is-empty : (x : Bytes) → is [] x ≡ true
unfolding is lookup
is-empty x = refl

-- The names that `NewOptions` turns off before it turns `IsSenderSync` on, and after it.
abbrev pub off_before : OptionNames → List Bytes
off_before n =
    n.is_not_notification ∷ n.is_send_msg ∷ n.is_history ∷ n.is_persistent ∷ n.is_offline_push
    ∷ n.is_unread_count ∷ n.is_conversation_update ∷ []

abbrev pub off_after : OptionNames → List Bytes
off_after n = n.is_not_private ∷ n.is_sender_conversation_update ∷ n.is_reaction_from_cache ∷ []

turn_off : List Bytes → List OptionsOpt
turn_off [] = []
turn_off (k ∷ l) = set_option k false ∷ turn_off l

is-turn_off :
    (o : Options) (l : List Bytes) (x : Bytes)
    → is (with_options o (turn_off l)) x ≡ (not (contains bytes_discrete x l) && is o x)
unfolding with_options turn_off
is-turn_off o [] x = refl
is-turn_off o (k ∷ l) x =
    ground (arith, is-turn_off (set_option k false o) l x, is-set_option o k x false)

switch_ladder :
    {P : Type 0} (d : Dec P) (a b : Bool)
    → (P → b ≡ false)
    → (not b && ite d true (not a && true)) ≡ (dec_true d || not (a || b))
switch_ladder (yes p) a b h = rw (h p)
switch_ladder (no p) true true h = refl
switch_ladder (no p) true false h = refl
switch_ladder (no p) false true h = refl
switch_ladder (no p) false false h = refl

-- A new set of options is on at `IsSenderSync`, off at the ten other names that `NewOptions` sets, and
-- on anywhere else, when the names set after `IsSenderSync` differ from it.
is-new_options :
    (n : OptionNames) (x : Bytes)
    → contains bytes_discrete n.is_sender_sync (off_after n) ≡ false
    → is (new_options n []) x ≡ (
        dec_true (bytes_discrete n.is_sender_sync x)
        || not
            (contains bytes_discrete x (off_before n) || contains bytes_discrete x (off_after n)))
unfolding new_options with_options turn_off
is-new_options n x h =
    let first : Options = with_options [] (turn_off (off_before n)) in
    let sync : Options = set_option n.is_sender_sync true first in
    is-turn_off sync (off_after n) x
    ∙ rw (is-set_option first n.is_sender_sync x true, is-turn_off [] (off_before n) x, is-empty x)
        (switch_ladder (bytes_discrete n.is_sender_sync x)
          (contains bytes_discrete x (off_before n)) (contains bytes_discrete x (off_after n))
          (λ e. ap (λ (k : Bytes). contains bytes_discrete k (off_after n)) (sym e) ∙ h))

-- The options given to `NewOptions` are applied to the defaults in order, the last one last.
new_options-append_one :
    (n : OptionNames) (opts : List OptionsOpt) (opt : OptionsOpt)
    → new_options n (opts ++ opt ∷ []) ≡ opt (new_options n opts)
unfolding new_options
new_options-append_one n opts opt = with_options-append_one (default_options n) opts opt
