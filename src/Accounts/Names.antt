-- ===== src/Accounts/Names.antt =====
-- What the validation of the accounts of internal/config/config.go gives its callers.
use wacli.Common.{
  ok, Bool-cases, Text, text_eq, text_eq_iff, ◌≡◌, refl, sym, ap, ◌∙◌, inl, inr, Option, none, some,
  List, [], ◌∷◌,
}
use wacli.Accounts.{
  AccountEntry, AccountsConfig, ConfigError, validate_account_name, find_account, or_else,
  validate_entry, validate_entries, validate_default, validate_accounts_config, account_of,
  resolve_name, resolve_account_store,
}

or_else-none : (a b : Option ConfigError) → or_else a b ≡ none → (a ≡ none) × (b ≡ none)
unfolding or_else
or_else-none none b h = (refl, h)
or_else-none (some e) b h = absurd cc

validate_entries-found :
    (name : Text) (rows : List (Text × AccountEntry)) (e : AccountEntry)
    → validate_entries rows ≡ none
    → find_account name rows ≡ some e
    → validate_account_name name ≡ none
unfolding validate_entries find_account
validate_entries-found name [] e valid found = absurd cc
validate_entries-found name ((n, x) ∷ rest) e valid found =
    let (head, tail) = or_else-none (validate_account_name n) _ valid in
    let (entry, others) = or_else-none (validate_entry n x) _ tail in
    elim (Bool-cases (text_eq n name)) [
      | inl y ↦ ap validate_account_name (sym ((text_eq_iff n name).0 y)) ∙ head
      | inr m ↦ validate_entries-found name rest e others (rw m at found)
    ]

-- In a configuration that passes the validation, every account that is configured resolves to its own
-- entry.
pub resolve_account_store_lem :
    (join : Text → Text) (cfg : AccountsConfig) (name : Text) (e : AccountEntry)
    → validate_accounts_config cfg ≡ none
    → find_account name cfg.accounts ≡ some e
    → resolve_account_store join (ok cfg) name
      ≡ ok (record {
        name = name;
        label = e.label;
        configured_store = e.store;
        store_dir = join e.store;
        default = text_eq cfg.default_account name;
      })
unfolding validate_accounts_config resolve_account_store resolve_name account_of
resolve_account_store_lem join cfg name e valid found =
    let (entries, default) =
      or_else-none (validate_entries cfg.accounts) (validate_default cfg) valid in
    rw (validate_entries-found name cfg.accounts e entries found, found) refl
