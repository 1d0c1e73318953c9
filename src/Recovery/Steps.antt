-- ===== src/Recovery/Steps.antt =====
-- The steps of a repair, of internal/app/chat_state.go: fetch and persist, clear, ask the primary.
pub mod Carries
pub mod Owing
pub mod Fresh
use wacli.Common.{
  Result, ok, err, ltb, leb, ◌==◌, if◌then◌else◌, Bool-cases, Option-cases, ltb→lt, lt→ltb, ==_iff,
  All, All-append, All-trim_space, Text, codes, text_eq, text_eq_iff, text_eq_refl, trim_space,
  has_prefix, length, take, drop, ℕ, zero, suc, ◌+◌, ◌-◌, ◌*◌, ◌/◌, ◌%◌, ◌≤◌, ◌<◌, min, max, ◌≡◌,
  refl, sym, ap, ◌∙◌, ◌≢◌, ◌↔◌, ◌⊎◌, inl, inr, Bool, true, false, not, ◌&&◌, ◌||◌, Option, none,
  some, List, [], ◌∷◌, ◌++◌, map, reverse, arith,
}
use wacli.AppState.Intents.{Tables, Error, begin_recovery, recovery_required, clear_generation}
use wacli.AppState.Intents.Durable.{Op, run}
use wacli.Recovery.Tracker.{persist_fetched_events, new_tracker}
use wacli.Recovery.State.{Entry, fetched, replayed, restored, App, set_at, set_full_sync_result}

-- What `errors.Is` tells of an error of whatsmeow's fetch.
pub record FetchError : Type 0 where
  pub mismatching_lthash : Bool
  pub empty_key_share : Bool
  pub key_not_found : Bool
  pub code : ℕ

-- What a fetch meets: its error, the outcome of persisting each event, the error of waiting for the
-- persistence queue, what other goroutines do to the intents meanwhile, and the time it takes.
pub record FetchAnswer : Type 0 where
  pub error : Option FetchError
  pub events : List (Option ℕ)
  pub wait_error : Option ℕ
  pub meanwhile : List Op
  pub took : ℕ
  pub readable : Bool
  pub writable : Bool

pub data StepError : Type 0 where
  intent : Error → StepError
  changed : StepError
  fetch : FetchError → StepError
  persist_fetched : ℕ → StepError
  -- appStatePersistenceFailure
  persistence_failure : ℕ → StepError
  queue_wait : ℕ → StepError
  request_failed : ℕ → StepError
  no_answer_in_time : StepError
  key_wait_ended : StepError
  context_ended : StepError

abbrev pub after_all : List Op → App → App
after_all ops a = record a { tables = run ops a.tables }

-- `result`, or the error of waitThrough, under which the closure's result is not read.
unfoldable pub persistence_error : Option ℕ → List (Option ℕ) → Option ℕ
persistence_error none events = (persist_fetched_events events new_tracker).0
persistence_error (some e) events = some e

-- The flag after a full sync.
unfoldable pub note_result : Text → Option FetchError → FetchAnswer → App → App
note_result c none f a = set_full_sync_result f.readable f.writable c false a
note_result c (some e) f a =
    if e.mismatching_lthash then set_full_sync_result f.readable f.writable c true a else a

abbrev pub entry_of : Bool → Text → Entry
entry_of true c = replayed c
entry_of false c = fetched c

unfoldable pub logged : Entry → Option FetchError → Option ℕ → App → App
logged e none none a = record a { entries = e ∷ a.entries }
logged e none (some p) a = a
logged e (some f) p a = a

-- `fetchAndPersistAppState`
unfoldable pub fetch_and_persist :
    Text → Bool → FetchAnswer → App → (Option FetchError × Option ℕ) × App
unfolding note_result logged persistence_error
fetch_and_persist c full_sync f a =
    let persist = persistence_error f.wait_error f.events in
    let noted = if full_sync then note_result c f.error f a else a in
    let done = after_all f.meanwhile (record noted { now = noted.now + f.took }) in
    ((f.error, persist), logged (entry_of full_sync c) f.error persist done)

unfoldable pub still_required : Result Error Bool → Option StepError
still_required (err e) = some (intent e)
still_required (ok true) = some changed
still_required (ok false) = none

-- clearCompletedAppStateRecovery, on what the clear returned; `between` is what other goroutines do
-- before the second read.
unfoldable pub cleared_or : Text → List Op → Result Error Bool → App → Option StepError × App
unfolding still_required
cleared_or c between (err e) a = (some (intent e), a)
cleared_or c between (ok true) a = (none, a)
cleared_or c between (ok false) a =
    let b = after_all between a in (still_required (recovery_required c b.tables), b)

-- `clearCompletedAppStateRecovery`
unfoldable pub clear_completed : Text → ℕ → List Op → App → Option StepError × App
unfolding cleared_or
clear_completed c generation between a =
    let cleared = clear_generation c generation a.tables in
    cleared_or c between cleared.0 (record a { tables = cleared.1 })

-- What the primary device answers: the request failed, nothing before the context ended, or the
-- snapshot's events.
pub data Primary : Type 0 where
  refused : ℕ → Primary
  silent : Primary
  answered : List (Option ℕ) → Primary

pub record SnapshotAnswer : Type 0 where
  pub primary : Primary
  pub wait_error : Option ℕ
  pub meanwhile : List Op
  pub between : List Op
  pub took : ℕ

-- `adoptLateAppStateRecovery`, as far as the registry goes: a newer generation takes the place.
unfoldable pub newer : Option ℕ → ℕ → Bool
newer none g = true
newer (some old) g = ltb old g

unfoldable pub adopt_late : Text → ℕ → App → App
unfolding newer
adopt_late c generation a =
    if a.closing || not (newer (a.late c) generation)
    then a
    else record a { late = set_at a.late c (some generation) }

-- recoverMismatchingAppState after the wait for the primary: persist, and clear the generation.
unfoldable pub restored_or : Text → ℕ → SnapshotAnswer → Option ℕ → App → Option StepError × App
restored_or c generation s (some e) a = (some (persistence_failure e), a)
restored_or c generation s none a =
    clear_completed c generation s.between (record a { entries = restored c ∷ a.entries })

unfoldable pub on_primary :
    Text → ℕ → SnapshotAnswer → Option ℕ → Primary → App → Option StepError × App
unfolding adopt_late restored_or
on_primary c generation s (some e) (refused r) a = (some (queue_wait e), a)
on_primary c generation s none (refused r) a = (some (request_failed r), a)
on_primary c generation s (some e) silent a = (some (queue_wait e), adopt_late c generation a)
on_primary c generation s none silent a = (some no_answer_in_time, adopt_late c generation a)
on_primary c generation s (some e) (answered events) a = (some (queue_wait e), a)
on_primary c generation s none (answered events) a =
    restored_or c generation s (persist_fetched_events events new_tracker).0 a

-- `recoverMismatchingAppState`
unfoldable pub recover_mismatching : Text → ℕ → SnapshotAnswer → App → Option StepError × App
unfolding on_primary
recover_mismatching c generation s a =
    on_primary c generation s s.wait_error s.primary
      (after_all s.meanwhile (record a { now = a.now + s.took }))

unfoldable pub is_persistence_failure : StepError → Bool
is_persistence_failure (persistence_failure e) = true
is_persistence_failure _ = false
