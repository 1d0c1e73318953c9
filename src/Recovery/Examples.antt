-- ===== src/Recovery/Examples.antt =====
-- The repairs of internal/app/chat_state.go and internal/app/sync_recovery.go on concrete runs.
use wacli.Common.{
  is_space, trim_left, ok, Text, codes, trim_space, ◌≤◌, ◌≡◌, refl, ◌≢◌, true, false, Option, none,
  some, List, [], ◌∷◌, arith,
}
use wacli.AppState.Intents.{
  Tables, begin_recovery, insert_intent, any_intent, clear_intent, mark_generation,
  mark_generations, mark_loop,
}
use wacli.AppState.Intents.Laws.{pending}
use wacli.Chats.{set_chat_pinned}
use wacli.Recovery.Tracker.{persist_fetched_events}
use wacli.Recovery.State.{App, is_marked, load_results, set_full_sync_result, is_full_sync_broken}
use wacli.Recovery.State.Laws.{restarted, IsMirrored, flag_survives}
use wacli.Recovery.Steps.{
  FetchError, FetchAnswer, silent, SnapshotAnswer, fetch_and_persist, logged, persistence_error,
  recover_mismatching, on_primary, adopt_late, is_persistence_failure,
}
use wacli.Recovery.Steps.Carries.{repairs}
use wacli.Recovery.Steps.Fresh.{StepGood}
use wacli.Recovery.Write.{
  Answers, proceeds, sync_before_write, after_begin, or_replay, degraded_replay, degraded_fetch,
  after_degraded, request_background, clear_own, own_cleared,
}
use wacli.Recovery.Write.Debt.{IsQuietFor, debt_survives}
use wacli.Recovery.Write.Ends.{IsIdleFor, Good, sync_before_write-ends}
use wacli.Chats.Events.{ChatEvent, archive, pin, handle_chat_state_event}
use wacli.Recovery.Ladder.{
  RepairAnswers, repair_collection, with_lock, begun_repair, repair_steps, after_first, replay_full,
  replayed_full,
}
use wacli.Recovery.Ladder.Laws.{repair_collection-StepGood}
use wacli.Recovery.LocalWrite.{
  persist_events, persist_event, Persisted, Store, SendAnswer, LocalPersist, write_chat, after_sync,
  after_mark, after_send, complete_local,
}
use wacli.Recovery.LocalWrite.Kept.{IsWritten, write_chat-IsWritten}
use wacli.Recovery.Admission.{
  Desk, Ending, records, record_outcome, set_recovery_outcome, start_repair, handle_sync_error,
  take_worker, is_repaired, Event, reports, runs, passes, apply_event, apply_events,
  owns_manual_fetch, is_deferred,
}
use wacli.Recovery.Admission.Laws.{repairs_of, of_bool, IsGuarded, at_most_one_repair}
use wacli.Recovery.Admission.Deferral.{IsElsewhere, failed_repair_waits, next_report}
use wacli.Recovery.Write.{has_ended}

abbrev low : Text
low = codes "regular_low"

low-named : trim_space low ≢ []
unfolding trim_space trim_left is_space
low-named h = cc

abbrev no_tables : Tables
no_tables = record { seq = 0; intents = []; broken = [] }

-- An earlier write left an intent.
abbrev owing_tables : Tables
owing_tables = record { seq = 7; intents = record { id = 7; collection = low } ∷ []; broken = [] }

abbrev app_of : Tables → App
app_of d = record {
  tables = d;
  flags = λ c. false;
  loaded = true;
  requested = λ c. none;
  late = λ c. none;
  closing = false;
  now = 1000;
  entries = [];
}

abbrev fetch_of : Option FetchError → FetchAnswer
fetch_of e = record {
  error = e;
  events = none ∷ [];
  wait_error = none;
  meanwhile = [];
  took = 5;
  readable = true;
  writable = true;
}

abbrev mismatch : FetchError
mismatch = record {
  mismatching_lthash = true;
  empty_key_share = false;
  key_not_found = false;
  code = 409;
}

abbrev no_key : FetchError
no_key = record {
  mismatching_lthash = false;
  empty_key_share = false;
  key_not_found = true;
  code = 404;
}

abbrev no_answer : SnapshotAnswer
no_answer = record {
  primary = silent;
  wait_error = none;
  meanwhile = [];
  between = [];
  took = 120000;
}

abbrev answers_of : FetchAnswer → FetchAnswer → Answers
answers_of first replay = record {
  first = first;
  replays = λ n. replay;
  snapshot = no_answer;
  replay_snapshot = no_answer;
  context_ends = none;
  has_local = ok true;
  flags_readable = true;
  between = [];
  timer_first = λ n. true;
  lag = λ n. 3;
}

idle_of : (e f : Option FetchError) → IsIdleFor low (answers_of (fetch_of e) (fetch_of f))
idle_of e f = record { first = tt; replays = λ n. tt; snapshot = tt; replay_snapshot = tt }

-- No replay ever finds its key.
abbrev keyless : Answers
keyless = answers_of (fetch_of (some no_key)) (fetch_of (some no_key))

sync_before_write-ends_example :
    Good low
      (app_of owing_tables)
      (sync_before_write low keyless (app_of owing_tables)).0
      (sync_before_write low keyless (app_of owing_tables)).1
sync_before_write-ends_example =
    sync_before_write-ends low keyless (app_of owing_tables) low-named (omega arith, tt)
      (idle_of (some no_key) (some no_key))

abbrev broken_app : App
broken_app = record (app_of owing_tables) { flags = λ c. true }

-- The collection is known broken: the write proceeds on an incremental fetch.
abbrev degraded : Answers
degraded = answers_of (fetch_of none) (fetch_of (some mismatch))

degraded_quiet : IsQuietFor low 7 degraded
degraded_quiet = record {
  first = tt;
  replays = λ n. tt;
  snapshot = tt;
  replay_snapshot = tt;
  between = tt;
}

low-pending : pending low 7 owing_tables ≡ true
unfolding pending any_intent trim_space trim_left is_space
low-pending = refl

-- The degraded write proceeds, and makes no replay.
degraded-proceeds :
    ((sync_before_write low degraded broken_app).0 ≡ proceeds)
    × (repairs (sync_before_write low degraded broken_app).1.entries ≡ 0)
unfolding sync_before_write after_begin begin_recovery insert_intent any_intent or_replay
    degraded_replay is_full_sync_broken load_results degraded_fetch fetch_and_persist logged
    persistence_error persist_fetched_events after_degraded request_background clear_own own_cleared
    clear_intent repairs trim_space trim_left is_space
degraded-proceeds = (refl, refl)

debt_survives_example : pending low 7 (sync_before_write low degraded broken_app).1.tables ≡ true
debt_survives_example =
    debt_survives low low 7 degraded broken_app low-named (omega arith, tt) degraded_quiet
      low-pending (rw degraded-proceeds.1 (omega arith))

low-trimmed : trim_space low ≡ low
unfolding trim_space trim_left is_space
low-trimmed = refl

clean-IsMirrored : IsMirrored (app_of no_tables)
unfolding is_marked
clean-IsMirrored = record { loaded = refl; same = λ c. refl }

flag_survives_example :
    (is_full_sync_broken true low
      (restarted (set_full_sync_result true true low true (app_of no_tables)).tables)).0
    ≡ true
flag_survives_example =
    flag_survives low true (app_of no_tables) low (λ h. cc) low-trimmed clean-IsMirrored

-- The phone does not answer, and the full replay has no key.
abbrev failing : RepairAnswers
failing = record {
  locked = true;
  waited = 0;
  replay = fetch_of (some no_key);
  replay_between = [];
  snapshot = no_answer;
  context_ends = none;
}

repair_collection-StepGood_example :
    StepGood low
      (app_of no_tables)
      (repair_collection low true failing (app_of no_tables)).0
      (repair_collection low true failing (app_of no_tables)).1
repair_collection-StepGood_example =
    repair_collection-StepGood low low-named failing tt tt true (app_of no_tables) tt refl

-- The phone archived the chat meanwhile, and the send brings the echo of the pin.
abbrev event_of : ChatEvent → Persisted
event_of e = record {
  others = λ c. c;
  event = some e;
  canonical = λ jid. jid;
  messages = [];
  error = none;
}

abbrev send : SendAnswer
send = record {
  before_write = event_of (archive (some (codes "1@s.whatsapp.net")) (some true)) ∷ [];
  reserved = true;
  error = none;
  post_send = event_of (pin (some (codes "1@s.whatsapp.net")) (some true)) ∷ [];
  meanwhile = [];
}

abbrev pins : LocalPersist
pins chats = ok (set_chat_pinned (codes "1@s.whatsapp.net") true chats)

abbrev store : Store
store = record { app = broken_app; chats = λ jid. none }

write-done : (write_chat low true degraded send pins store).0 ≡ ok tt
unfolding write_chat persist_events persist_event handle_chat_state_event after_sync after_mark
    after_send complete_local mark_generation mark_generations mark_loop sync_before_write
    after_begin begin_recovery insert_intent any_intent or_replay degraded_replay
    is_full_sync_broken load_results degraded_fetch fetch_and_persist logged persistence_error
    persist_fetched_events after_degraded request_background clear_own own_cleared clear_intent
    trim_space trim_left is_space
write-done = refl

write_chat-IsWritten_example :
    IsWritten low send pins store (write_chat low true degraded send pins store).1
write_chat-IsWritten_example =
    write_chat-IsWritten low true degraded send pins store low-named (omega arith, tt)
      (idle_of none (some mismatch)) tt write-done

abbrev desk : Desk
desk = record {
  app = app_of no_tables;
  recoveries = λ c. false;
  retry_at = λ c. none;
  workers = [];
  ending = [];
  manual_fetches = λ c. 0;
}

-- Two reports of one collection, a failed repair, and a third report.
abbrev story : List Event
story =
    reports low mismatch
    ∷ reports low mismatch
    ∷ runs low failing
    ∷ records low
    ∷ passes 1000
    ∷ reports low mismatch
    ∷ []

at_most_one_repair_example : repairs_of low (apply_events story desk).workers ≤ 1
at_most_one_repair_example = at_most_one_repair low story desk refl

abbrev busy : Desk
busy = record desk { recoveries = λ c. true; workers = (low, true) ∷ [] }

busy-IsGuarded : IsGuarded low busy
unfolding repairs_of
busy-IsGuarded = omega arith

busy-taken : take_worker low busy.workers ≡ (some true, [])
unfolding take_worker
busy-taken = refl

context-runs :
    has_ended failing.context_ends (repair_collection (trim_space low) true failing busy.app).1.now
    ≡ false
unfolding has_ended
context-runs = refl

-- A repair has failed, and its name is free.
abbrev failed : Ending
failed = record { repaired = false; context_ends = none }

abbrev settling : Desk
settling = record desk { ending = (low, failed) ∷ [] }

settling-taken : take_worker low settling.ending ≡ (some failed, [])
unfolding take_worker
settling-taken = refl

abbrev after_failure : List Event
after_failure = passes 60000 ∷ reports low mismatch ∷ []

settled-now : (apply_events after_failure (apply_event (records low) settling)).app.now ≡ 61000
unfolding apply_events apply_event take_worker record_outcome set_recovery_outcome has_ended
    handle_sync_error owns_manual_fetch is_deferred trim_space trim_left is_space
settled-now = refl

failed_repair_waits_example :
    repairs_of low (apply_events after_failure (apply_event (records low) settling)).workers ≡ 0
unfolding IsElsewhere has_ended repairs_of
failed_repair_waits_example =
    failed_repair_waits low failed [] settling after_failure settling-taken refl refl refl refl
      (tt, (tt, tt)) (rw settled-now (omega arith))

-- A report between the two steps of the deferred function starts a repair right after a failed one.
report-between : repairs_of low (apply_event (reports low mismatch) settling).workers ≡ 1
unfolding apply_event handle_sync_error owns_manual_fetch is_deferred start_repair repairs_of
    trim_space trim_left is_space
report-between = refl

still-open : (repair_collection (trim_space low) true failing busy.app).1.closing ≡ false
unfolding repair_collection with_lock begun_repair repair_steps after_first replay_full
    replayed_full begin_recovery insert_intent any_intent recover_mismatching on_primary adopt_late
    fetch_and_persist logged persistence_error persist_fetched_events has_ended
    is_persistence_failure is_repaired trim_space trim_left is_space
still-open = refl

trimmed-fails : is_repaired (repair_collection (trim_space low) true failing busy.app).0 ≡ false
unfolding repair_collection with_lock begun_repair repair_steps after_first replay_full
    replayed_full begin_recovery insert_intent any_intent recover_mismatching on_primary adopt_late
    fetch_and_persist logged persistence_error persist_fetched_events has_ended
    is_persistence_failure is_repaired trim_space trim_left is_space
trimmed-fails = refl

trimmed-taken : take_worker (trim_space low) busy.workers ≡ (some true, [])
unfolding take_worker trim_space trim_left is_space
trimmed-taken = refl

trimmed-IsGuarded : IsGuarded (trim_space low) busy
unfolding repairs_of trim_space trim_left is_space
trimmed-IsGuarded = omega arith

unowned : owns_manual_fetch low busy ≡ false
unfolding owns_manual_fetch
unowned = refl

next_report_example :
    repairs_of
      (trim_space low)
      (handle_sync_error low mismatch
        (apply_events (runs (trim_space low) failing ∷ records (trim_space low) ∷ []) busy)).workers
    ≡ of_bool (is_repaired (repair_collection (trim_space low) true failing busy.app).0)
next_report_example =
    next_report low mismatch failing true [] busy low-named refl refl trimmed-IsGuarded
      trimmed-taken context-runs still-open unowned
