-- ===== src/Recovery/Ladder/Laws.antt =====
-- How an automatic repair ends, and that time does not go back over it.
use mathlib.Core.Path.{subst}
use wacli.Common.{
  Result, ok, err, Bool-cases, Text, trim_space, length, ℕ, ◌+◌, ◌≤◌, ◌≡◌, refl, sym, ◌≢◌, inl, inr,
  Bool, true, false, ◌||◌, Option, none, some, List, [], ◌∷◌, arith,
}
use wacli.AppState.Intents.{Error, begin_recovery, clear_generation}
use wacli.AppState.Intents.Laws.{begin_recovery_lem, IsWellFormed}
use wacli.AppState.Intents.Durable.{Op}
use wacli.Recovery.State.{restored, App}
use wacli.Recovery.Steps.{
  FetchError, StepError, fetch_and_persist, clear_completed, cleared_or, Primary, refused, silent,
  answered, SnapshotAnswer, adopt_late, restored_or, on_primary, recover_mismatching,
  is_persistence_failure, after_all,
}
use wacli.Recovery.Steps.Owing.{IsIdle, IsOwing, fetch_and_persist-IsOwing}
use wacli.Recovery.Steps.Fresh.{
  IsFresh, StepGood, clear_completed-StepGood, recover_mismatching-StepGood,
  fetch_and_persist-IsFresh, fetch_and_persist-now,
}
use wacli.Recovery.Write.{has_ended}
use wacli.Recovery.Write.Ends.{begin_recovery-IsOwing, StepGood-from}
use wacli.Recovery.Ladder.{
  RepairAnswers, replayed_full, replay_full, after_first, repair_steps, begun_repair, with_lock,
  repair_collection,
}

cleared_or-now :
    (c : Text) (between : List Op) (r : Result Error Bool) (a : App)
    → (cleared_or c between r a).1.now ≡ a.now
unfolding cleared_or
cleared_or-now c between (err e) a = refl
cleared_or-now c between (ok true) a = refl
cleared_or-now c between (ok false) a = refl

clear_completed-now :
    (c : Text) (n : ℕ) (between : List Op) (a : App) → (clear_completed c n between a).1.now ≡ a.now
unfolding clear_completed
clear_completed-now c n between a =
    let cleared = clear_generation c n a.tables in
    cleared_or-now c between cleared.0 (record a { tables = cleared.1 })

adopt_late-now : (c : Text) (n : ℕ) (a : App) → (adopt_late c n a).now ≡ a.now
unfolding adopt_late
adopt_late-now c n a = ground arith

restored_or-now :
    (c : Text) (n : ℕ) (s : SnapshotAnswer) (o : Option ℕ) (a : App)
    → (restored_or c n s o a).1.now ≡ a.now
unfolding restored_or
restored_or-now c n s (some e) a = refl
restored_or-now c n s none a =
    clear_completed-now c n s.between (record a { entries = restored c ∷ a.entries })

on_primary-now :
    (c : Text) (n : ℕ) (s : SnapshotAnswer) (w : Option ℕ) (p : Primary) (a : App)
    → (on_primary c n s w p a).1.now ≡ a.now
unfolding on_primary
on_primary-now c n s (some e) (refused r) a = refl
on_primary-now c n s none (refused r) a = refl
on_primary-now c n s (some e) silent a = adopt_late-now c n a
on_primary-now c n s none silent a = adopt_late-now c n a
on_primary-now c n s (some e) (answered events) a = refl
on_primary-now c n s none (answered events) a = restored_or-now c n s _ a

recover_mismatching-now :
    (c : Text) (n : ℕ) (s : SnapshotAnswer) (a : App) → a.now ≤ (recover_mismatching c n s a).1.now
unfolding recover_mismatching
recover_mismatching-now c n s a = omega (
  arith,
  on_primary-now c n s s.wait_error s.primary
      (after_all s.meanwhile (record a { now = a.now + s.took })),
)

replayed_full-now :
    (c : Text) (n : ℕ) (w : RepairAnswers) (o : Option FetchError) (p : Option ℕ) (a : App)
    → (replayed_full c n w (o, p) a).1.now ≡ a.now
unfolding replayed_full
replayed_full-now c n w o (some p) a = refl
replayed_full-now c n w (some e) none a = refl
replayed_full-now c n w none none a = clear_completed-now c n w.replay_between a

replay_full-now :
    (c : Text) (n : ℕ) (w : RepairAnswers) (a : App) → a.now ≤ (replay_full c n w a).1.now
unfolding replay_full
replay_full-now c n w a =
    let f = fetch_and_persist c true w.replay a in
    omega (arith, replayed_full-now c n w f.0.0 f.0.1 f.1, fetch_and_persist-now c true w.replay a)

after_first-now :
    (w : RepairAnswers) (second : App → Option StepError × App) (o : Option StepError) (a : App)
    → ((b : App) → b.now ≤ (second b).1.now)
    → a.now ≤ (after_first w second (o, a)).1.now
unfolding after_first
after_first-now w second none a h = omega arith
after_first-now w second (some e) a h = ground (arith, h a)

begun_repair-now :
    (c : Text) (snapshot_first : Bool) (w : RepairAnswers) (r : Result Error (ℕ × Bool)) (a : App)
    → a.now ≤ (begun_repair c snapshot_first w r a).1.now
unfolding begun_repair repair_steps
begun_repair-now c snapshot_first w (err e) a = omega arith
begun_repair-now c true w (ok (n, required)) a =
    let r = recover_mismatching c n w.snapshot a in
    omega (
      arith,
      recover_mismatching-now c n w.snapshot a,
      after_first-now w (replay_full c n w) r.0 r.1 (replay_full-now c n w),
    )
begun_repair-now c false w (ok (n, required)) a =
    let r = replay_full c n w a in
    omega (
      arith,
      replay_full-now c n w a,
      after_first-now w (recover_mismatching c n w.snapshot) r.0 r.1
          (recover_mismatching-now c n w.snapshot),
    )

with_lock-now :
    (t : Bool) (c : Text) (snapshot_first : Bool) (w : RepairAnswers) (a : App)
    → a.now ≤ (with_lock t c snapshot_first w a).1.now
unfolding with_lock
with_lock-now false c snapshot_first w a = omega arith
with_lock-now true c snapshot_first w a =
    let begun = begin_recovery c a.tables in
    begun_repair-now c snapshot_first w begun.0 (record a { tables = begun.1 })

-- Time does not go back over a repair.
pub repair_collection-now :
    (c : Text) (snapshot_first : Bool) (w : RepairAnswers) (a : App)
    → a.now ≤ (repair_collection c snapshot_first w a).1.now
unfolding repair_collection
repair_collection-now c snapshot_first w a =
    omega (arith, with_lock-now w.locked c snapshot_first w (record a { now = a.now + w.waited }))

module _ (k : Text) (named : trim_space k ≢ []) (w : RepairAnswers)
    (replay_idle : IsIdle (trim_space k) w.replay.meanwhile)
    (snapshot_idle : IsIdle (trim_space k) w.snapshot.meanwhile) where
  replayed_full-StepGood :
      (n : ℕ) (o : Option FetchError) (p : Option ℕ) (a b : App)
      → length a.entries ≤ length b.entries
      → (o ≡ none → p ≡ none → IsFresh k a b)
      → IsOwing k b
      → let r = replayed_full k n w (o, p) b in StepGood k a r.0 r.1
  unfolding replayed_full
  replayed_full-StepGood n o (some p) a b le fr ow = record { grows = le; outcome = ow }
  replayed_full-StepGood n (some e) none a b le fr ow = record { grows = le; outcome = ow }
  replayed_full-StepGood n none none a b le fr ow =
      clear_completed-StepGood k named n w.replay_between a b (fr refl refl)

  replay_full-StepGood :
      (n : ℕ) (a : App) → IsOwing k a → let r = replay_full k n w a in StepGood k a r.0 r.1
  unfolding replay_full
  replay_full-StepGood n a ow =
      let f = fetch_and_persist k true w.replay a in
      let fresh = fetch_and_persist-IsFresh k true w.replay a in
      replayed_full-StepGood n f.0.0 f.0.1 a f.1 fresh.0 fresh.1
        (fetch_and_persist-IsOwing k true w.replay a replay_idle ow)

  after_first-StepGood :
      (second : App → Option StepError × App) (o : Option StepError) (a b : App)
      → StepGood k a o b
      → ((d : App) → IsOwing k d → StepGood k d (second d).0 (second d).1)
      → let r = after_first w second (o, b) in StepGood k a r.0 r.1
  unfolding after_first
  after_first-StepGood second none a b h more = h
  after_first-StepGood second (some e) a b h more =
      elim (Bool-cases (has_ended w.context_ends b.now || is_persistence_failure e)) [
        | inl y ↦ rw y h
        | inr y ↦ rw y (StepGood-from k a b (second b).0 (second b).1 h.grows (more b h.outcome))
      ]

  repair_steps-StepGood :
      (n : ℕ) (snapshot_first : Bool) (a : App)
      → IsOwing k a
      → let r = repair_steps k snapshot_first n w a in StepGood k a r.0 r.1
  unfolding repair_steps
  repair_steps-StepGood n true a ow =
      let r = recover_mismatching k n w.snapshot a in
      after_first-StepGood (replay_full k n w) r.0 a r.1
        (recover_mismatching-StepGood k named n w.snapshot a snapshot_idle ow)
        (replay_full-StepGood n)
  repair_steps-StepGood n false a ow =
      let r = replay_full k n w a in
      after_first-StepGood (recover_mismatching k n w.snapshot) r.0 a r.1
        (replay_full-StepGood n a ow)
        (λ d. recover_mismatching-StepGood k named n w.snapshot d snapshot_idle)

  with_lock-StepGood :
      (snapshot_first : Bool) (a : App)
      → IsWellFormed a.tables
      → let r = with_lock true k snapshot_first w a in StepGood k a r.0 r.1
  unfolding with_lock begun_repair
  with_lock-StepGood snapshot_first a wf =
      let (required, asked, begun, ids, marked) = begin_recovery_lem k a.tables named wf in
      let b : App = record a { tables = (begin_recovery k a.tables).1 } in
      let r = repair_steps k snapshot_first (a.tables.seq + 1) w b in
      let good =
        repair_steps-StepGood (a.tables.seq + 1) snapshot_first b
          (begin_recovery-IsOwing k a named wf) in
      subst
        (λ x.
          StepGood k a (begun_repair k snapshot_first w x b).0
            (begun_repair k snapshot_first w x b).1)
        (sym begun) (StepGood-from k a b r.0 r.1 (omega arith) good)

  with_lock-outcome :
      (t snapshot_first : Bool) (a : App)
      → IsWellFormed a.tables
      → t ≡ true
      → let r = with_lock t k snapshot_first w a in StepGood k a r.0 r.1
  with_lock-outcome true snapshot_first a wf locked = with_lock-StepGood snapshot_first a wf
  with_lock-outcome false snapshot_first a wf locked = absurd cc

  -- A repair that got the lock either persisted data of the collection and counts as repaired, or failed
  -- and leaves the collection with a pending intent. The tables are well formed, the collection has a
  -- name, and the other goroutines clear no intent of it.
  pub repair_collection-StepGood :
      (snapshot_first : Bool) (a : App)
      → IsWellFormed a.tables
      → w.locked ≡ true
      → let r = repair_collection k snapshot_first w a in StepGood k a r.0 r.1
  unfolding repair_collection
  repair_collection-StepGood snapshot_first a wf locked =
      let later : App = record a { now = a.now + w.waited } in
      let r = with_lock w.locked k snapshot_first w later in
      StepGood-from k a later r.0 r.1 (omega arith)
        (with_lock-outcome w.locked snapshot_first later wf locked)
