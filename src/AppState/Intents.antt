-- ===== src/AppState/Intents.antt =====
-- internal/store/app_state.go: the durable recovery intents and the flags of collections whose full
-- sync is known not to verify. A statement of SQLite is its effect on the rows; each transaction is
-- all or nothing, so a driver error leaves the tables as they were.
pub mod Laws
pub mod Durable
mod Examples
use wacli.Common.{
  ℕ, ◌+◌, Bool, false, not, ◌&&◌, ◌||◌, List, [], ◌∷◌, ◌++◌, leb, ◌==◌, if◌then◌else◌, Text,
  text_eq, trim_space, Result, ok, err,
}

-- A row of `app_state_recovery_intents(id INTEGER PRIMARY KEY AUTOINCREMENT, collection TEXT)`.
pub record Intent : Type 0 where
  pub id : ℕ
  pub collection : Text

-- `seq` is the largest id ever given: AUTOINCREMENT never gives one twice. `broken` is the table
-- `app_state_full_sync_broken(collection PRIMARY KEY, marked_at)`.
pub record Tables : Type 0 where
  pub seq : ℕ
  pub intents : List Intent
  pub broken : List (Text × ℕ)

pub data Error : Type 0 where
  collection_required : Error

-- INSERT … RETURNING id
unfoldable pub insert_intent : Text → Tables → ℕ × Tables
insert_intent c d = (
  d.seq + 1,
  record d {
    seq = d.seq + 1;
    intents = d.intents ++ record { id = d.seq + 1; collection = c } ∷ [];
  },
)

-- EXISTS(SELECT 1 … WHERE p)
unfoldable pub any_intent : (Intent → Bool) → List Intent → Bool
any_intent p [] = false
any_intent p (r ∷ rs) = p r || any_intent p rs

-- DELETE … WHERE p
unfoldable pub delete_intents : (Intent → Bool) → List Intent → List Intent
delete_intents p [] = []
delete_intents p (r ∷ rs) = let rest = delete_intents p rs in if p r then rest else r ∷ rest

abbrev pub of_collection : Text → Intent → Bool
of_collection c r = text_eq r.collection c

-- The loop of `MarkAppStateRecoveryGenerations`, inside its transaction.
unfoldable pub mark_loop : List Text → List ℕ → Tables → Result Error (List ℕ × Tables)
mark_loop [] generations d = ok (generations, d)
mark_loop (c ∷ cs) generations d =
    let c' = trim_space c in
    let inserted = insert_intent c' d in
    let rest = mark_loop cs (generations ++ inserted.0 ∷ []) inserted.1 in
    if text_eq c' [] then err collection_required else rest

-- An error rolls the transaction back.
abbrev pub committed {ℓ} :
    {A : Type ℓ} → Tables → Result Error (A × Tables) → Result Error A × Tables
committed d (ok (a, d')) = (ok a, d')
committed d (err e) = (err e, d)

unfoldable pub mark_generations : List Text → Tables → Result Error (List ℕ) × Tables
unfolding mark_loop
mark_generations [] d = (ok [], d)
mark_generations (c ∷ cs) d = committed d (mark_loop (c ∷ cs) [] d)

-- `generations[0]`
abbrev first_generation : List ℕ → ℕ
first_generation [] = 0
first_generation (g ∷ gs) = g

abbrev first_of_result : Result Error (List ℕ) → Result Error ℕ
first_of_result (ok gs) = ok (first_generation gs)
first_of_result (err e) = err e

unfoldable pub mark_generation : Text → Tables → Result Error ℕ × Tables
unfolding mark_generations
mark_generation c d =
    let marked = mark_generations (c ∷ []) d in (first_of_result marked.0, marked.1)

-- `BeginAppStateRecovery`: the generation, and whether an earlier intent was there.
unfoldable pub begin_recovery : Text → Tables → Result Error (ℕ × Bool) × Tables
unfolding insert_intent any_intent
begin_recovery collection d =
    let c = trim_space collection in
    let inserted = insert_intent c d in
    if text_eq c [] then (err collection_required, d) else (
      ok (
        inserted.0,
        any_intent (λ r. of_collection c r && not (r.id == inserted.0)) inserted.1.intents,
      ),
      inserted.1,
    )

unfoldable pub recovery_required : Text → Tables → Result Error Bool
unfolding any_intent
recovery_required collection d =
    let c = trim_space collection in
    if text_eq c [] then err collection_required else ok (any_intent (of_collection c) d.intents)

-- `ClearAppStateRecoveryRequired`
unfoldable pub clear_required : Text → Tables → Result Error (Unit {0}) × Tables
unfolding delete_intents
clear_required collection d =
    let c = trim_space collection in
    if text_eq c []
    then (err collection_required, d)
    else (ok tt, record d { intents = delete_intents (of_collection c) d.intents })

-- `ClearAppStateRecoveryGeneration`: is nothing of the collection left?
unfoldable pub clear_generation : Text → ℕ → Tables → Result Error Bool × Tables
unfolding delete_intents any_intent
clear_generation collection generation d =
    let c = trim_space collection in
    let left = delete_intents (λ r. of_collection c r && leb r.id generation) d.intents in
    if text_eq c []
    then (err collection_required, d)
    else (ok (not (any_intent (of_collection c) left)), record d { intents = left })

-- `ClearAppStateRecoveryIntent`
unfoldable pub clear_intent : Text → ℕ → Tables → Result Error (Unit {0}) × Tables
unfolding delete_intents
clear_intent collection generation d =
    let c = trim_space collection in
    if text_eq c [] then (err collection_required, d) else (
      ok tt,
      record d {
        intents = delete_intents (λ r. of_collection c r && (r.id == generation)) d.intents;
      },
    )

unfoldable pub without : Text → List (Text × ℕ) → List (Text × ℕ)
without c [] = []
without c ((k, at) ∷ rest) =
    let others = without c rest in if text_eq k c then others else (k, at) ∷ others

-- `SetAppStateFullSyncBroken`: the upsert, or the delete, of the row of the collection.
unfoldable pub set_broken : ℕ → Text → Bool → Tables → Result Error (Unit {0}) × Tables
unfolding without
set_broken now collection broken d =
    let c = trim_space collection in
    if text_eq c []
    then (err collection_required, d)
    else if broken
    then (ok tt, record d { broken = (c, now) ∷ without c d.broken })
    else (ok tt, record d { broken = without c d.broken })
