-- ===== src/Recovery/Ladder.antt =====
-- The two steps of an automatic repair, of internal/app/sync_recovery.go: recoverAppStateSnapshot,
-- replayAppStateFull and the body of recoverAppStateCollection.
pub mod Laws
use wacli.Common.{
  Result, ok, err, ltb, leb, ◌==◌, if◌then◌else◌, Bool-cases, Option-cases, ltb→lt, lt→ltb, ==_iff,
  All, All-append, All-trim_space, Text, codes, text_eq, text_eq_iff, text_eq_refl, trim_space,
  has_prefix, length, take, drop, ℕ, zero, suc, ◌+◌, ◌-◌, ◌*◌, ◌/◌, ◌%◌, ◌≤◌, ◌<◌, min, max, ◌≡◌,
  refl, sym, ap, ◌∙◌, ◌≢◌, ◌↔◌, ◌⊎◌, inl, inr, Bool, true, false, not, ◌&&◌, ◌||◌, Option, none,
  some, List, [], ◌∷◌, ◌++◌, map, reverse, arith,
}
use wacli.AppState.Intents.{Error, begin_recovery}
use wacli.AppState.Intents.Durable.{Op}
use wacli.Recovery.State.{App}
use wacli.Recovery.Steps.{
  FetchError, FetchAnswer, StepError, intent, fetch, persistence_failure, context_ended,
  fetch_and_persist, clear_completed, SnapshotAnswer, recover_mismatching, is_persistence_failure,
}
use wacli.Recovery.Write.{has_ended}

-- What a repair meets: the chat-state lock, the full replay, the snapshot, and the end of the context.
pub record RepairAnswers : Type 0 where
  pub locked : Bool
  pub waited : ℕ
  pub replay : FetchAnswer
  pub replay_between : List Op
  pub snapshot : SnapshotAnswer
  pub context_ends : Option ℕ

-- `replayAppStateFull`, on what the fetch returned.
unfoldable pub replayed_full :
    Text → ℕ → RepairAnswers → Option FetchError × Option ℕ → App → Option StepError × App
replayed_full c generation w (o, some p) a = (some (persistence_failure p), a)
replayed_full c generation w (some e, none) a = (some (fetch e), a)
replayed_full c generation w (none, none) a = clear_completed c generation w.replay_between a

-- `replayAppStateFull`
unfoldable pub replay_full : Text → ℕ → RepairAnswers → App → Option StepError × App
unfolding replayed_full
replay_full c generation w a =
    let fetched = fetch_and_persist c true w.replay a in
    replayed_full c generation w fetched.0 fetched.1

-- The second step follows the first one's failure, unless the context ended or the store failed.
unfoldable pub after_first :
    RepairAnswers → (App → Option StepError × App) → Option StepError × App → Option StepError × App
after_first w second (none, a) = (none, a)
after_first w second (some e, a) =
    let other = second a in
    if has_ended w.context_ends a.now || is_persistence_failure e then (some e, a) else other

unfoldable pub repair_steps : Text → Bool → ℕ → RepairAnswers → App → Option StepError × App
unfolding after_first
repair_steps c true generation w a =
    after_first w (replay_full c generation w) (recover_mismatching c generation w.snapshot a)
repair_steps c false generation w a =
    after_first w (recover_mismatching c generation w.snapshot) (replay_full c generation w a)

unfoldable pub begun_repair :
    Text → Bool → RepairAnswers → Result Error (ℕ × Bool) → App → Option StepError × App
unfolding repair_steps
begun_repair c snapshot_first w (err e) a = (some (intent e), a)
begun_repair c snapshot_first w (ok (generation, required)) a =
    repair_steps c snapshot_first generation w a

-- Under the lock, when it was got.
unfoldable pub with_lock : Bool → Text → Bool → RepairAnswers → App → Option StepError × App
unfolding begun_repair
with_lock false c snapshot_first w a = (some context_ended, a)
with_lock true c snapshot_first w a =
    let begun = begin_recovery c a.tables in
    begun_repair c snapshot_first w begun.0 (record a { tables = begun.1 })

-- `recoverAppStateCollection` under its deferred function: no error is `repaired`.
unfoldable pub repair_collection : Text → Bool → RepairAnswers → App → Option StepError × App
unfolding with_lock
repair_collection c snapshot_first w a =
    with_lock w.locked c snapshot_first w (record a { now = a.now + w.waited })
