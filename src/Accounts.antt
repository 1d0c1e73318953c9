-- ===== src/Accounts.antt =====
-- The accounts of internal/config/config.go: the validation of the configuration and the choice of an
-- account's store. The parsed file and the joining of paths are arguments; the order of the accounts in
-- the list stands for the order in which a Go map is run over. The pattern of a name is written out.
pub mod Names
mod Examples
use wacli.Common.{
  Result, ok, err, ltb, leb, ◌==◌, if◌then◌else◌, Bool-cases, Option-cases, ltb→lt, lt→ltb, ==_iff,
  All, All-append, All-trim_space, Text, codes, text_eq, text_eq_iff, text_eq_refl, trim_space,
  has_prefix, length, take, drop, ℕ, zero, suc, ◌+◌, ◌-◌, ◌*◌, ◌/◌, ◌%◌, ◌≤◌, ◌<◌, min, max, ◌≡◌,
  refl, sym, ap, ◌∙◌, ◌≢◌, ◌↔◌, ◌⊎◌, inl, inr, Bool, true, false, not, ◌&&◌, ◌||◌, Option, none,
  some, List, [], ◌∷◌, ◌++◌, map, reverse, arith,
}

pub record AccountEntry : Type 0 where
  pub store : Text
  pub label : Text
  pub delegate_only : Bool

pub record AccountsConfig : Type 0 where
  pub default_account : Text
  pub accounts : List (Text × AccountEntry)

pub record Account : Type 0 where
  pub name : Text
  pub label : Text
  pub configured_store : Text
  pub store_dir : Text
  pub default : Bool

pub data ConfigError : Type 0 where
  name_required : ConfigError
  name_spaced : Text → ConfigError
  name_invalid : Text → ConfigError
  store_required : Text → ConfigError
  store_reserved : Text → ConfigError
  default_invalid : ConfigError → ConfigError
  default_undefined : Text → ConfigError
  not_found : ConfigError
  not_loaded : ℕ → ConfigError
  not_configured : Text → ConfigError

abbrev pub is_alphanumeric : ℕ → Bool
is_alphanumeric c = (leb 48 c && leb c 57) || (leb 65 c && leb c 90) || (leb 97 c && leb c 122)

abbrev pub is_name_char : ℕ → Bool
is_name_char c = is_alphanumeric c || (c == 46) || (c == 95) || (c == 45)

unfoldable pub all_name_chars : Text → Bool
all_name_chars [] = true
all_name_chars (c ∷ s) = is_name_char c && all_name_chars s

-- `accountNameRE`
unfoldable pub matches_name : Text → Bool
unfolding all_name_chars
matches_name [] = false
matches_name (c ∷ s) = is_alphanumeric c && all_name_chars s

-- `ValidateAccountName`
unfoldable pub validate_account_name : Text → Option ConfigError
unfolding matches_name
validate_account_name name =
    if text_eq name []
    then some name_required
    else if not (text_eq (trim_space name) name)
    then some (name_spaced name)
    else if not (matches_name name)
    then some (name_invalid name)
    else none

-- strings.ContainsAny(store, "?#")
unfoldable pub has_query_char : Text → Bool
has_query_char [] = false
has_query_char (c ∷ s) = (c == 63) || (c == 35) || has_query_char s

unfoldable pub find_account : Text → List (Text × AccountEntry) → Option AccountEntry
find_account name [] = none
find_account name ((n, e) ∷ rest) =
    let others = find_account name rest in if text_eq n name then some e else others

unfoldable pub or_else : Option ConfigError → Option ConfigError → Option ConfigError
or_else (some e) later = some e
or_else none later = later

unfoldable pub validate_entry : Text → AccountEntry → Option ConfigError
unfolding has_query_char
validate_entry name e =
    if text_eq (trim_space e.store) []
    then some (store_required name)
    else if has_query_char e.store
    then some (store_reserved name)
    else none

unfoldable pub validate_entries : List (Text × AccountEntry) → Option ConfigError
unfolding or_else validate_entry
validate_entries [] = none
validate_entries ((name, e) ∷ rest) =
    or_else (validate_account_name name) (or_else (validate_entry name e) (validate_entries rest))

abbrev pub as_default : Option ConfigError → Option ConfigError
as_default none = none
as_default (some e) = some (default_invalid e)

abbrev pub defined : Text → Option AccountEntry → Option ConfigError
defined name none = some (default_undefined name)
defined name (some e) = none

unfoldable pub validate_default : AccountsConfig → Option ConfigError
unfolding or_else find_account
validate_default cfg =
    if text_eq cfg.default_account []
    then none
    else or_else (as_default (validate_account_name cfg.default_account))
        (defined cfg.default_account (find_account cfg.default_account cfg.accounts))

-- `validateAccountsConfig`
unfoldable pub validate_accounts_config : AccountsConfig → Option ConfigError
unfolding or_else validate_entries validate_default
validate_accounts_config cfg = or_else (validate_entries cfg.accounts) (validate_default cfg)

unfoldable pub account_of :
    (Text → Text) → Text → AccountsConfig → Option AccountEntry → Result ConfigError Account
account_of join name cfg none = err (not_configured name)
account_of join name cfg (some e) = ok (record {
  name = name;
  label = e.label;
  configured_store = e.store;
  store_dir = join e.store;
  default = text_eq cfg.default_account name;
})

unfoldable pub resolve_name :
    (Text → Text)
    → Text
    → Option ConfigError
    → Result ConfigError AccountsConfig
    → Result ConfigError Account
unfolding account_of
resolve_name join name (some e) loaded = err e
resolve_name join name none (err e) = err e
resolve_name join name none (ok cfg) = account_of join name cfg (find_account name cfg.accounts)

-- `ResolveAccountStore`; `join` is resolveConfiguredStore, `loaded` the outcome of LoadAccountsConfig.
unfoldable pub resolve_account_store :
    (Text → Text) → Result ConfigError AccountsConfig → Text → Result ConfigError Account
unfolding resolve_name
resolve_account_store join loaded name = resolve_name join name (validate_account_name name) loaded
