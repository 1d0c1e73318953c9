-- ===== src/Recovery/Admission.antt =====
-- Which automatic repairs start, of internal/app/sync_recovery.go: handleAppStateSyncError, the guard of
-- syncAppStateDeltas at startup, the deferred function of recoverAppStateCollection, and
-- setAppStateRecoveryOutcome. Times are in milliseconds.
pub mod Laws
pub mod Deferral
use wacli.Common.{
  Result, ok, err, ltb, leb, ◌==◌, if◌then◌else◌, Bool-cases, Option-cases, ltb→lt, lt→ltb, ==_iff,
  All, All-append, All-trim_space, Text, codes, text_eq, text_eq_iff, text_eq_refl, trim_space,
  has_prefix, length, take, drop, ℕ, zero, suc, ◌+◌, ◌-◌, ◌*◌, ◌/◌, ◌%◌, ◌≤◌, ◌<◌, min, max, ◌≡◌,
  refl, sym, ap, ◌∙◌, ◌≢◌, ◌↔◌, ◌⊎◌, inl, inr, Bool, true, false, not, ◌&&◌, ◌||◌, Option, none,
  some, List, [], ◌∷◌, ◌++◌, map, reverse, arith,
}
use wacli.Recovery.State.{App, set_at}
use wacli.Recovery.Steps.{FetchError, StepError}
use wacli.Recovery.Write.{has_ended}
use wacli.Recovery.Ladder.{RepairAnswers, repair_collection}

abbrev pub recovery_retry_delay : ℕ
recovery_retry_delay = 120000

-- A repair that has freed its name and not yet recorded its outcome.
pub record Ending : Type 0 where
  pub repaired : Bool
  pub context_ends : Option ℕ

-- `recoveries` is the map of the run, whose keys are collections and spent budgets; `workers` are the
-- repairs in flight, each with its order of steps; `ending` are those between the two steps of their deferred function.
pub record Desk : Type 0 where
  pub app : App
  pub recoveries : Text → Bool
  pub retry_at : Text → Option ℕ
  pub workers : List (Text × Bool)
  pub ending : List (Text × Ending)
  pub manual_fetches : Text → ℕ

abbrev pub empty_key : Text → Text
empty_key name = codes "empty-key:" ++ name

-- `ownsManualAppStateFetch`
unfoldable pub owns_manual_fetch : Text → Desk → Bool
owns_manual_fetch c d = ltb 0 (d.manual_fetches c)

unfoldable pub is_deferred : Option ℕ → ℕ → Bool
is_deferred none now = false
is_deferred (some retry_at) now = ltb now retry_at

-- recoveries.LoadOrStore, and the repair when the name was not there.
unfoldable pub start_repair : Text → Bool → Desk → Desk
start_repair name snapshot_first d = if d.recoveries name then d else record d {
  recoveries = set_at d.recoveries name true;
  workers = (name, snapshot_first) ∷ d.workers;
}

-- One automatic recovery of a key shared without data per collection and run.
unfoldable pub spend_budget : Text → Desk → Desk
unfolding start_repair
spend_budget name d =
    if d.recoveries (empty_key name)
    then d
    else start_repair name false
        (record d { recoveries = set_at d.recoveries (empty_key name) true })

-- `handleAppStateSyncError`
unfoldable pub handle_sync_error : Text → FetchError → Desk → Desk
unfolding owns_manual_fetch is_deferred start_repair spend_budget
handle_sync_error c e d =
    let name = trim_space c in
    if not (e.empty_key_share || e.mismatching_lthash)
    then d
    else if owns_manual_fetch c d
    then d
    else if text_eq name []
    then d
    else if d.app.closing
    then d
    else if is_deferred (d.retry_at name) d.app.now
    then d
    else if e.empty_key_share
    then spend_budget name d
    else start_repair name true d

-- `setAppStateRecoveryOutcome`
unfoldable pub set_recovery_outcome : Text → Bool → Desk → Desk
set_recovery_outcome name repaired d =
    if repaired
    then record d { retry_at = set_at d.retry_at name none }
    else record d { retry_at = set_at d.retry_at name (some (d.app.now + recovery_retry_delay)) }

-- The first step of the deferred function of recoverAppStateCollection: the name is free again.
unfoldable pub release_repair : Text → Ending → Desk → Desk
release_repair name e d = record d {
  recoveries = set_at d.recoveries name false;
  ending = (name, e) ∷ d.ending;
}

unfoldable pub take_worker {ℓ} : {A : Type ℓ} → Text → List (Text × A) → Option A × List (Text × A)
take_worker name [] = (none, [])
take_worker name ((k, a) ∷ rest) =
    let others = take_worker name rest in
    if text_eq name k then (some a, rest) else (others.0, (k, a) ∷ others.1)

-- Its second step, under another mutex and some time later.
unfoldable pub record_outcome : Text → Option Ending × List (Text × Ending) → Desk → Desk
unfolding set_recovery_outcome
record_outcome name (none, rest) d = d
record_outcome name (some e, rest) d =
    let left : Desk = record d { ending = rest } in
    let told = set_recovery_outcome name e.repaired left in
    if has_ended e.context_ends d.app.now then left else told

unfoldable pub is_repaired : Option StepError → Bool
is_repaired none = true
is_repaired (some e) = false

-- `recoverAppStateCollection` of a repair in flight, up to the first step of its deferred function.
unfoldable pub run_repair : Text → RepairAnswers → Option Bool × List (Text × Bool) → Desk → Desk
unfolding release_repair is_repaired
run_repair name w (none, rest) d = d
run_repair name w (some snapshot_first, rest) d =
    let r = repair_collection name snapshot_first w d.app in
    release_repair name (record { repaired = is_repaired r.0; context_ends = w.context_ends })
      (record d { app = r.1; workers = rest })

-- What happens to the desk: an error reported by whatsmeow, the startup repair of a pending collection, a
-- repair in flight that runs to its end and frees its name, the outcome of such a repair that is
-- recorded, and time that passes.
pub data Event : Type 0 where
  reports : Text → FetchError → Event
  starts_up : Text → Bool → Event
  runs : Text → RepairAnswers → Event
  records : Text → Event
  passes : ℕ → Event

unfoldable pub apply_event : Event → Desk → Desk
unfolding handle_sync_error run_repair record_outcome take_worker
apply_event (reports c e) d = handle_sync_error c e d
apply_event (starts_up name snapshot_first) d = start_repair name snapshot_first d
apply_event (runs name w) d = run_repair name w (take_worker name d.workers) d
apply_event (records name) d = record_outcome name (take_worker name d.ending) d
apply_event (passes t) d = record d { app = record d.app { now = d.app.now + t } }

unfoldable pub apply_events : List Event → Desk → Desk
unfolding apply_event
apply_events [] d = d
apply_events (e ∷ es) d = apply_events es (apply_event e d)
