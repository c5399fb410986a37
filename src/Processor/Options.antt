-- ===== src/Processor/Options.antt =====
-- The switches of a message (pkg/msgprocessor/options.go): a map from option names to Booleans. The
-- names are constants of the protocol package.
pub mod Laws
use open_im_server.Base.{
  Bool, true, false, not, ◌||◌, Bytes, bytes_discrete, List, [], ◌∷◌, Option, none, some, Map,
  lookup, insert,
}

pub record OptionNames : Type 0 where
  pub is_not_notification : Bytes
  pub is_send_msg : Bytes
  pub is_history : Bytes
  pub is_persistent : Bytes
  pub is_offline_push : Bytes
  pub is_unread_count : Bytes
  pub is_conversation_update : Bytes
  pub is_sender_sync : Bytes
  pub is_not_private : Bytes
  pub is_sender_conversation_update : Bytes
  pub is_reaction_from_cache : Bytes

abbrev pub Options : Type 0
Options = Map Bytes Bool

abbrev pub OptionsOpt : Type 0
OptionsOpt = Options → Options

-- `options[name] = b`
unfoldable pub set_option : Bytes → Bool → OptionsOpt
set_option name b options = insert bytes_discrete name b options

unfoldable pub with_options : Options → List OptionsOpt → Options
with_options options [] = options
with_options options (opt ∷ opts) = with_options (opt options) opts

-- The eleven assignments of `NewOptions`, in order.
unfoldable pub default_options : OptionNames → Options
unfolding set_option
default_options n = with_options [] (
    set_option n.is_not_notification false
    ∷ set_option n.is_send_msg false
    ∷ set_option n.is_history false
    ∷ set_option n.is_persistent false
    ∷ set_option n.is_offline_push false
    ∷ set_option n.is_unread_count false
    ∷ set_option n.is_conversation_update false
    ∷ set_option n.is_sender_sync true
    ∷ set_option n.is_not_private false
    ∷ set_option n.is_sender_conversation_update false
    ∷ set_option n.is_reaction_from_cache false
    ∷ [])

unfoldable pub new_options : OptionNames → List OptionsOpt → Options
unfolding default_options with_options
new_options n opts = with_options (default_options n) opts

-- `NewMsgOptions` fills one map and returns another one, which is empty.
unfoldable pub new_msg_options : OptionNames → Options
new_msg_options n = let options = insert bytes_discrete n.is_offline_push false [] in []

abbrev pub with_not_notification : OptionNames → Bool → OptionsOpt
with_not_notification n b = set_option n.is_not_notification b

abbrev pub with_send_msg : OptionNames → Bool → OptionsOpt
with_send_msg n b = set_option n.is_send_msg b

abbrev pub with_history : OptionNames → Bool → OptionsOpt
with_history n b = set_option n.is_history b

abbrev pub with_persistent : OptionNames → OptionsOpt
with_persistent n = set_option n.is_persistent true

abbrev pub with_offline_push : OptionNames → Bool → OptionsOpt
with_offline_push n b = set_option n.is_offline_push b

abbrev pub with_unread_count : OptionNames → Bool → OptionsOpt
with_unread_count n b = set_option n.is_unread_count b

abbrev pub with_conversation_update : OptionNames → OptionsOpt
with_conversation_update n = set_option n.is_conversation_update true

abbrev pub with_sender_sync : OptionNames → OptionsOpt
with_sender_sync n = set_option n.is_sender_sync true

abbrev pub with_not_private : OptionNames → OptionsOpt
with_not_private n = set_option n.is_not_private true

abbrev pub with_sender_conversation_update : OptionNames → OptionsOpt
with_sender_conversation_update n = set_option n.is_sender_conversation_update true

abbrev pub with_reaction_from_cache : OptionNames → OptionsOpt
with_reaction_from_cache n = set_option n.is_reaction_from_cache true

abbrev pub or_true : Option Bool → Bool
or_true none = true
or_true (some v) = v

-- A switch that is missing is on.
unfoldable pub is : Options → Bytes → Bool
is o name = or_true (lookup bytes_discrete name o)
