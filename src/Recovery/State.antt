-- ===== src/Recovery/State.antt =====
-- The state of `App` that the repairs of app state use, and setAppStateFullSyncResult,
-- isAppStateFullSyncBroken and their loading, of internal/app/chat_state.go.
pub mod Laws
use wacli.Common.{
  ltb, leb, ◌==◌, if◌then◌else◌, Bool-cases, Option-cases, ltb→lt, lt→ltb, ==_iff, All, All-append,
  All-trim_space, Text, codes, text_eq, text_eq_iff, text_eq_refl, trim_space, has_prefix, length,
  take, drop, ℕ, zero, suc, ◌+◌, ◌-◌, ◌*◌, ◌/◌, ◌%◌, ◌≤◌, ◌<◌, min, max, ◌≡◌, refl, sym, ap, ◌∙◌,
  ◌≢◌, ◌↔◌, ◌⊎◌, inl, inr, Bool, true, false, not, ◌&&◌, ◌||◌, Option, none, some, List, [], ◌∷◌,
  ◌++◌, map, reverse, arith,
}
use wacli.AppState.Intents.{Tables, set_broken}

-- Which data reached the store: an incremental fetch, a full replay or the primary's snapshot.
pub data Entry : Type 0 where
  fetched : Text → Entry
  replayed : Text → Entry
  restored : Text → Entry

-- `flags` and `loaded` are appStateFullSyncBroken and its loaded bit, `requested` the last background
-- request, `late` the generation of the late continuation of a collection, `retry_at` the moment before
-- which no automatic repair starts. `entries` records what was persisted, the latest first.
pub record App : Type 0 where
  pub tables : Tables
  pub flags : Text → Bool
  pub loaded : Bool
  pub requested : Text → Option ℕ
  pub late : Text → Option ℕ
  pub closing : Bool
  pub now : ℕ
  pub entries : List Entry

-- A map with the value of one key replaced.
abbrev pub set_at {ℓ} : {A : Type ℓ} → (Text → A) → Text → A → Text → A
set_at f k v j = if text_eq k j then v else f j

-- AppStateFullSyncBrokenCollections of internal/store/app_state.go, as a set.
unfoldable pub is_marked : Text → List (Text × ℕ) → Bool
is_marked c [] = false
is_marked c ((k, t) ∷ rest) = text_eq k c || is_marked c rest

-- `loadAppStateFullSyncResultsLocked`; whether the table could be read is an argument.
unfoldable pub load_results : Bool → App → App
unfolding is_marked
load_results readable a =
    if a.loaded
    then a
    else if readable
    then record a { loaded = true; flags = λ c. is_marked c a.tables.broken || a.flags c }
    else record a { loaded = true }

unfoldable pub bool_eq : Bool → Bool → Bool
bool_eq true b = b
bool_eq false b = not b

-- `setAppStateFullSyncResult`; whether the flag could be written is an argument.
unfoldable pub set_full_sync_result : Bool → Bool → Text → Bool → App → App
unfolding load_results bool_eq
set_full_sync_result readable writable c broken a =
    let b = load_results readable a in
    let set = record b { flags = set_at b.flags c broken } in
    if bool_eq (b.flags c) broken || not writable
    then set
    else record set { tables = (set_broken a.now c broken set.tables).1 }

-- `isAppStateFullSyncBroken`
unfoldable pub is_full_sync_broken : Bool → Text → App → Bool × App
unfolding load_results
is_full_sync_broken readable c a = let b = load_results readable a in (b.flags c, b)
