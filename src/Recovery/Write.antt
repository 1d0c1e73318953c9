-- ===== src/Recovery/Write.antt =====
-- Before and around a write of chat state, of internal/app/chat_state.go: syncChatStateBeforeWrite,
-- replayRequiredAppState, degradedAppStateReplay, and the local write with its durable marker. Times
-- are in milliseconds.
pub mod Debt
pub mod Ends
use wacli.Common.{
  Result, ok, err, ltb, leb, ◌==◌, if◌then◌else◌, Bool-cases, Option-cases, ltb→lt, lt→ltb, ==_iff,
  All, All-append, All-trim_space, Text, codes, text_eq, text_eq_iff, text_eq_refl, trim_space,
  has_prefix, length, take, drop, ℕ, zero, suc, ◌+◌, ◌-◌, ◌*◌, ◌/◌, ◌%◌, ◌≤◌, ◌<◌, min, max, ◌≡◌,
  refl, sym, ap, ◌∙◌, ◌≢◌, ◌↔◌, ◌⊎◌, inl, inr, Bool, true, false, not, ◌&&◌, ◌||◌, Option, none,
  some, List, [], ◌∷◌, ◌++◌, map, reverse, arith,
}
use wacli.AppState.Intents.{Tables, Error, begin_recovery, clear_intent, mark_generation}
use wacli.AppState.Intents.Durable.{Op, run}
use wacli.Recovery.State.{Entry, App, set_at, is_full_sync_broken}
use wacli.Recovery.Steps.{
  FetchError, FetchAnswer, StepError, intent, fetch, persist_fetched, key_wait_ended, context_ended,
  after_all, fetch_and_persist, clear_completed, SnapshotAnswer, recover_mismatching,
  is_persistence_failure,
}

abbrev pub retry_initial_delay : ℕ
retry_initial_delay = 250

abbrev pub retry_max_delay : ℕ
retry_max_delay = 5000

abbrev pub recovery_max_wait : ℕ
recovery_max_wait = 300000

abbrev pub background_interval : ℕ
background_interval = 6 * 3600 * 1000

-- What a write meets: the incremental fetch, the n-th full replay, the snapshot asked for first and the
-- one asked for by the replay, when the caller's context ends, and so on.
pub record Answers : Type 0 where
  pub first : FetchAnswer
  pub replays : ℕ → FetchAnswer
  pub snapshot : SnapshotAnswer
  pub replay_snapshot : SnapshotAnswer
  pub context_ends : Option ℕ
  pub has_local : Result ℕ Bool
  pub flags_readable : Bool
  pub between : List Op
  -- Which of two channels ready at once the n-th select takes, and how late the n-th timer fires.
  pub timer_first : ℕ → Bool
  pub lag : ℕ → ℕ

pub data Ended : Type 0 where
  proceeds : Ended
  fails : StepError → Ended
  out_of_fuel : Ended

unfoldable pub ended_by : Option StepError → Ended
ended_by none = proceeds
ended_by (some e) = fails e

abbrev pub ended_with : Option StepError × App → Ended × App
ended_with (o, a) = (ended_by o, a)

-- The deadline of context.WithTimeout under the caller's.
unfoldable pub deadline_of : Option ℕ → ℕ → ℕ
deadline_of none t = t
deadline_of (some ends) t = min ends t

unfoldable pub next_delay : ℕ → ℕ
next_delay delay =
    if ltb delay retry_max_delay
    then (if ltb retry_max_delay (delay * 2) then retry_max_delay else delay * 2)
    else delay

-- The n-th turn after its fetch; `again` is the rest of the loop from the moment the timer fires.
unfoldable pub after_replay :
    Text
    → ℕ
    → Answers
    → ℕ
    → ℕ
    → ℕ
    → (App → Ended × App)
    → Option FetchError × Option ℕ
    → App
    → Ended × App
unfolding ended_by
after_replay c generation w deadline n delay again (o, some p) a = (fails (persist_fetched p), a)
after_replay c generation w deadline n delay again (none, none) a =
    ended_with (clear_completed c generation w.between a)
after_replay c generation w deadline n delay again (some e, none) a =
    let fires = a.now + delay in
    if e.mismatching_lthash || e.empty_key_share
    then ended_with (recover_mismatching c generation w.replay_snapshot a)
    else if not e.key_not_found
    then (fails (fetch e), a)
    else if ltb fires deadline || ((fires == deadline) && w.timer_first n)
    then again (record a { now = fires + w.lag n })
    else (fails key_wait_ended, a)

unfoldable pub replay_loop : Text → ℕ → Answers → ℕ → ℕ → ℕ → ℕ → App → Ended × App
unfolding after_replay next_delay
replay_loop c generation w deadline zero n delay a = (out_of_fuel, a)
replay_loop c generation w deadline (suc fuel) n delay a =
    let fetched = fetch_and_persist c true (w.replays n) a in
    after_replay c generation w deadline n delay
      (λ b. replay_loop c generation w deadline fuel (suc n) (next_delay delay) b) fetched.0
      fetched.1

-- Each turn that goes round waits a quarter of a second at least, for five minutes at most.
abbrev pub replay_fuel : ℕ
replay_fuel = 1202

-- `replayRequiredAppState`
unfoldable pub replay_required : Text → ℕ → Answers → App → Ended × App
unfolding deadline_of
replay_required c generation w a =
    replay_loop c generation w (deadline_of w.context_ends (a.now + recovery_max_wait)) replay_fuel
      0 retry_initial_delay a

-- `requestBackgroundAppStateRecovery`: a failed request has used its turn too.
unfoldable pub asked_lately : Option ℕ → ℕ → Bool
asked_lately none now = false
asked_lately (some last) now = ltb now (last + background_interval)

unfoldable pub request_background : Text → App → App
unfolding asked_lately
request_background c a =
    if asked_lately (a.requested c) a.now
    then a
    else record a { requested = set_at a.requested c (some a.now) }

pub data Handled : Type 0 where
  falls_back : Handled
  handled : Ended → Handled

unfoldable pub own_cleared : Result Error (Unit {0}) × Tables → App → Ended × App
own_cleared (err e, d) a = (fails (intent e), a)
own_cleared (ok u, d) a = (proceeds, record a { tables = d })

unfoldable pub clear_own : Text → ℕ → App → Ended × App
unfolding own_cleared
clear_own c generation a = own_cleared (clear_intent c generation a.tables) a

abbrev pub handled_with : Ended × App → Handled × App
handled_with (e, a) = (handled e, a)

unfoldable pub after_degraded : Text → ℕ → Option FetchError × Option ℕ → App → Handled × App
unfolding request_background clear_own
after_degraded c generation (o, some p) a = (handled (fails (persist_fetched p)), a)
after_degraded c generation (some e, none) a = (falls_back, a)
after_degraded c generation (none, none) a =
    handled_with (clear_own c generation (request_background c a))

unfoldable pub degraded_fetch : Text → ℕ → Answers → Result ℕ Bool → App → Handled × App
unfolding after_degraded
degraded_fetch c generation w (err e) a = (falls_back, a)
degraded_fetch c generation w (ok false) a = (falls_back, a)
degraded_fetch c generation w (ok true) a =
    let fetched = fetch_and_persist c false w.first a in
    after_degraded c generation fetched.0 fetched.1

-- `degradedAppStateReplay`
unfoldable pub degraded_replay : Text → ℕ → Answers → App → Handled × App
unfolding degraded_fetch
degraded_replay c generation w a =
    let broken = is_full_sync_broken w.flags_readable c a in
    if not broken.0
    then (falls_back, broken.1)
    else degraded_fetch c generation w w.has_local broken.1

unfoldable pub or_replay : Text → ℕ → Answers → Handled × App → Ended × App
or_replay c generation w (falls_back, a) = replay_required c generation w a
or_replay c generation w (handled e, a) = (e, a)

unfoldable pub has_ended : Option ℕ → ℕ → Bool
has_ended none now = false
has_ended (some t) now = leb t now

-- After the snapshot asked for on a mismatch.
unfoldable pub after_snapshot : Text → ℕ → Answers → Option StepError × App → Ended × App
unfolding has_ended
after_snapshot c generation w (none, a) = (proceeds, a)
after_snapshot c generation w (some e, a) =
    let replay = replay_required c generation w a in
    if has_ended w.context_ends a.now || is_persistence_failure e then (fails e, a) else replay

unfoldable pub after_incremental :
    Text → ℕ → Answers → Option FetchError × Option ℕ → App → Ended × App
unfolding after_snapshot
after_incremental c generation w (o, some p) a = (fails (persist_fetched p), a)
after_incremental c generation w (none, none) a =
    ended_with (clear_completed c generation w.between a)
after_incremental c generation w (some e, none) a =
    if e.mismatching_lthash
    then after_snapshot c generation w (recover_mismatching c generation w.snapshot a)
    else if e.empty_key_share || e.key_not_found
    then replay_required c generation w a
    else (fails (fetch e), a)

unfoldable pub after_begin : Text → Answers → Result Error (ℕ × Bool) → App → Ended × App
unfolding or_replay degraded_replay after_incremental
after_begin c w (err e) a = (fails (intent e), a)
after_begin c w (ok (generation, true)) a =
    or_replay c generation w (degraded_replay c generation w a)
after_begin c w (ok (generation, false)) a =
    let fetched = fetch_and_persist c false w.first a in
    after_incremental c generation w fetched.0 fetched.1

-- `syncChatStateBeforeWrite`; its loop has no turn that goes round.
unfoldable pub sync_before_write : Text → Answers → App → Ended × App
unfolding after_begin
sync_before_write c w a =
    let begun = begin_recovery c a.tables in after_begin c w begun.0 (record a { tables = begun.1 })
