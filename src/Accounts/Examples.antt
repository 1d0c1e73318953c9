-- ===== src/Accounts/Examples.antt =====
-- A configuration of internal/config/config.go with two accounts.
use wacli.Common.{
  is_space, trim_left, ok, Text, codes, text_eq, trim_space, ◌≡◌, refl, false, none, some, [], ◌∷◌,
}
use wacli.Accounts.{
  AccountEntry, AccountsConfig, all_name_chars, matches_name, validate_account_name, has_query_char,
  find_account, or_else, validate_entry, validate_entries, validate_default,
  validate_accounts_config, resolve_account_store,
}
use wacli.Accounts.Names.{resolve_account_store_lem}

abbrev work : Text
work = codes "work"

abbrev home : Text
home = codes "home-2"

abbrev entry_of : Text → AccountEntry
entry_of store = record { store = store; label = []; delegate_only = false }

abbrev config : AccountsConfig
config = record {
  default_account = home;
  accounts = (work, entry_of (codes "stores/work")) ∷ (home, entry_of (codes "/srv/home")) ∷ [];
}

config-valid : validate_accounts_config config ≡ none
unfolding validate_accounts_config validate_entries validate_entry validate_default
    validate_account_name matches_name all_name_chars has_query_char find_account or_else trim_space
    trim_left is_space
config-valid = refl

home-found : find_account home config.accounts ≡ some (entry_of (codes "/srv/home"))
unfolding find_account
home-found = refl

resolve_account_store_example :
    resolve_account_store (λ s. s) (ok config) home
    ≡ ok (record {
      name = home;
      label = [];
      configured_store = codes "/srv/home";
      store_dir = codes "/srv/home";
      default = text_eq home home;
    })
resolve_account_store_example =
    resolve_account_store_lem (λ s. s) config home (entry_of (codes "/srv/home")) config-valid
      home-found
