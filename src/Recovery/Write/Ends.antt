-- ===== src/Recovery/Write/Ends.antt =====
-- How the synchronisation before a write ends: always, and with fresh data or a debt.
use mathlib.Core.Path.{subst}
use wacli.Common.{
  Result, ok, err, ltb, ◌==◌, Bool-cases, Text, text_eq_iff, text_eq_refl, trim_space, length, ℕ,
  zero, suc, ◌+◌, ◌*◌, ◌≤◌, ◌<◌, ◌≡◌, refl, sym, ap, ◌∙◌, ◌≢◌, inl, inr, Bool, true, false, not,
  ◌&&◌, ◌||◌, Option, none, some, [], arith,
}
use wacli.AppState.Intents.{Tables, Error, begin_recovery, clear_intent, any_intent, of_collection}
use wacli.AppState.Intents.Laws.{begin_recovery_lem, IsWellFormed}
use wacli.Recovery.State.{App, is_full_sync_broken, load_results}
use wacli.Recovery.Steps.{
  FetchError, StepError, fetch_and_persist, clear_completed, recover_mismatching,
  is_persistence_failure,
}
use wacli.Recovery.Steps.Owing.{IsIdle, IsOwing, fetch_and_persist-IsOwing}
use wacli.Recovery.Steps.Fresh.{
  IsFresh, IsFresh-same, IsFresh-from, StepOutcome, StepGood, clear_completed-StepGood,
  recover_mismatching-StepGood, fetch_and_persist-IsFresh, fetch_and_persist-now,
}
use wacli.AppState.Intents.Laws.{pending}
use wacli.Recovery.Steps.Carries.{pending-of_collection}
use wacli.Recovery.Write.{
  Answers, Ended, proceeds, fails, out_of_fuel, ended_by, ended_with, after_replay, replay_loop,
  replay_required, request_background, Handled, falls_back, handled, own_cleared, clear_own,
  after_degraded, degraded_fetch, degraded_replay, or_replay, after_snapshot, after_incremental,
  after_begin, sync_before_write, deadline_of, replay_fuel, retry_initial_delay, recovery_max_wait,
  next_delay, has_ended,
}

-- The other goroutines clear no intent of the collection meanwhile.
pub record IsIdleFor (k : Text) (w : Answers) : Type 0 where
  pub first : IsIdle (trim_space k) w.first.meanwhile
  pub replays : (n : ℕ) → IsIdle (trim_space k) (w.replays n).meanwhile
  pub snapshot : IsIdle (trim_space k) w.snapshot.meanwhile
  pub replay_snapshot : IsIdle (trim_space k) w.replay_snapshot.meanwhile

abbrev pub Outcome : Text → App → Ended → App → Type 0
Outcome k a proceeds b = IsFresh k a b
Outcome k a (fails e) b = IsOwing k b
Outcome k a out_of_fuel b = ⊥

pub record Good (k : Text) (a : App) (o : Ended) (b : App) : Type 0 where
  pub grows : length a.entries ≤ length b.entries
  pub outcome : Outcome k a o b

Outcome-step :
    (k : Text) (a b : App) (o : Option StepError) → StepOutcome k a o b → Outcome k a (ended_by o) b
unfolding ended_by
Outcome-step k a b none h = h
Outcome-step k a b (some e) h = h

Good-step :
    (k : Text) (a : App) (r : Option StepError × App)
    → StepGood k a r.0 r.1
    → Good k a (ended_with r).0 (ended_with r).1
Good-step k a (o, b) h = record { grows = h.grows; outcome = Outcome-step k a b o h.outcome }

Outcome-from :
    (k : Text) (a b d : App) (o : Ended)
    → length a.entries ≤ length b.entries
    → Outcome k b o d
    → Outcome k a o d
Outcome-from k a b d proceeds le h = IsFresh-from a le h
Outcome-from k a b d (fails e) le h = h
Outcome-from k a b d out_of_fuel le h = h

Good-from :
    (k : Text) (a b : App) (r : Ended × App)
    → length a.entries ≤ length b.entries
    → Good k b r.0 r.1
    → Good k a r.0 r.1
Good-from k a b (o, d) le h = record {
  grows = omega (arith, h.grows);
  outcome = Outcome-from k a b d o le h.outcome;
}

pub StepGood-from :
    (k : Text) (a b : App) (o : Option StepError) (d : App)
    → length a.entries ≤ length b.entries
    → StepGood k b o d
    → StepGood k a o d
StepGood-from k a b none d le h = record {
  grows = omega (arith, h.grows);
  outcome = IsFresh-from a le h.outcome;
}
StepGood-from k a b (some e) d le h = record { grows = omega (arith, h.grows); outcome = h.outcome }

next_delay-le : (delay : ℕ) → retry_initial_delay ≤ delay → retry_initial_delay ≤ next_delay delay
unfolding next_delay
next_delay-le delay h = ground arith

module _ (k : Text) (named : trim_space k ≢ []) (w : Answers) (idle : IsIdleFor k w) where
  -- Enough fuel: each quarter of a second until the deadline, and one turn more.
  abbrev IsEnough : ℕ → ℕ → ℕ → Type 0
  IsEnough fuel deadline now = (0 < fuel) × (deadline + 250 ≤ now + 250 * fuel)

  after_replay-Good :
      (generation deadline n delay fuel : ℕ) (again : App → Ended × App) (o : Option FetchError)
      (p : Option ℕ) (a b : App)
      → 250 ≤ delay
      → a.now ≤ b.now
      → IsEnough (suc fuel) deadline a.now
      → length a.entries ≤ length b.entries
      → (o ≡ none → p ≡ none → IsFresh k a b)
      → IsOwing k b
      → ((d : App) → IsOwing k d → IsEnough fuel deadline d.now → Good k d (again d).0 (again d).1)
      → let r = after_replay k generation w deadline n delay again (o, p) b in Good k a r.0 r.1
  unfolding after_replay
  after_replay-Good generation deadline n delay fuel again o (some p) a b d0 t0 en le fr ow more =
      record { grows = le; outcome = ow }
  after_replay-Good generation deadline n delay fuel again none none a b d0 t0 en le fr ow more =
      Good-step k a (clear_completed k generation w.between b)
        (clear_completed-StepGood k named generation w.between a b (fr refl refl))
  after_replay-Good generation deadline n delay fuel again (some e) none a b d0 t0 en le fr ow
        more =
      let fires = b.now + delay in
      let later : App = record b { now = fires + w.lag n } in
      elim (Bool-cases (e.mismatching_lthash || e.empty_key_share)) [
        | inl y ↦
            let r = recover_mismatching k generation w.replay_snapshot b in
            rw y (
              Good-step k a r (
                StepGood-from k a b r.0 r.1 le (
                  recover_mismatching-StepGood k named generation w.replay_snapshot b
                    idle.replay_snapshot ow)))
        | inr y ↦ elim (Bool-cases (not e.key_not_found)) [
          | inl z ↦ rw (y, z) (record { grows = le; outcome = ow })
          | inr z ↦
              elim (Bool-cases (ltb fires deadline || ((fires == deadline) && w.timer_first n))) [
                | inl t ↦
                    let in_time : fires ≤ deadline = ground arith in
                    rw (y, z, t)
                      (Good-from k a later (again later) le (more later ow (ground arith)))
                | inr t ↦ rw (y, z, t) (record { grows = le; outcome = ow })
              ]
        ]
      ]

  replay_loop-Good :
      (generation deadline fuel n delay : ℕ) (a : App)
      → 250 ≤ delay
      → IsEnough fuel deadline a.now
      → IsOwing k a
      → let r = replay_loop k generation w deadline fuel n delay a in Good k a r.0 r.1
  unfolding replay_loop
  replay_loop-Good generation deadline zero n delay a d0 en ow = absurd (omega (arith, en.0))
  replay_loop-Good generation deadline (suc fuel) n delay a d0 en ow =
      let f = fetch_and_persist k true (w.replays n) a in
      let fresh = fetch_and_persist-IsFresh k true (w.replays n) a in
      after_replay-Good generation deadline n delay fuel
        (λ b. replay_loop k generation w deadline fuel (suc n) (next_delay delay) b) f.0.0 f.0.1 a
        f.1 d0 (fetch_and_persist-now k true (w.replays n) a) en fresh.0 fresh.1
        (fetch_and_persist-IsOwing k true (w.replays n) a (idle.replays n) ow)
        (λ d h e.
          replay_loop-Good generation deadline fuel (suc n) (next_delay delay) d
            (next_delay-le delay d0) e h)

  deadline_of-le : (o : Option ℕ) (t : ℕ) → deadline_of o t ≤ t
  unfolding deadline_of
  deadline_of-le none t = omega arith
  deadline_of-le (some e) t = omega arith

  replay_required-Good :
      (generation : ℕ) (a : App)
      → IsOwing k a
      → let r = replay_required k generation w a in Good k a r.0 r.1
  unfolding replay_required
  replay_required-Good generation a ow =
      replay_loop-Good generation (deadline_of w.context_ends (a.now + recovery_max_wait))
        replay_fuel 0 retry_initial_delay a (omega arith)
        (omega arith, omega (arith, deadline_of-le w.context_ends (a.now + recovery_max_wait))) ow

  after_snapshot-Good :
      (generation : ℕ) (o : Option StepError) (a b : App)
      → StepGood k a o b
      → let r = after_snapshot k generation w (o, b) in Good k a r.0 r.1
  unfolding after_snapshot
  after_snapshot-Good generation none a b h = record { grows = h.grows; outcome = h.outcome }
  after_snapshot-Good generation (some e) a b h =
      elim (Bool-cases (has_ended w.context_ends b.now || is_persistence_failure e)) [
        | inl y ↦ rw y (record { grows = h.grows; outcome = h.outcome })
        | inr y ↦ rw y (
            Good-from k a b (replay_required k generation w b) h.grows
              (replay_required-Good generation b h.outcome))
      ]

  after_incremental-Good :
      (generation : ℕ) (o : Option FetchError) (p : Option ℕ) (a b : App)
      → length a.entries ≤ length b.entries
      → (o ≡ none → p ≡ none → IsFresh k a b)
      → IsOwing k b
      → let r = after_incremental k generation w (o, p) b in Good k a r.0 r.1
  unfolding after_incremental
  after_incremental-Good generation o (some p) a b le fr ow = record { grows = le; outcome = ow }
  after_incremental-Good generation none none a b le fr ow =
      Good-step k a (clear_completed k generation w.between b)
        (clear_completed-StepGood k named generation w.between a b (fr refl refl))
  after_incremental-Good generation (some e) none a b le fr ow =
      elim (Bool-cases e.mismatching_lthash) [
        | inl y ↦
            let r = recover_mismatching k generation w.snapshot b in
            rw y (
              after_snapshot-Good generation r.0 a r.1 (
                StepGood-from k a b r.0 r.1 le
                  (recover_mismatching-StepGood k named generation w.snapshot b idle.snapshot ow)))
        | inr y ↦ elim (Bool-cases (e.empty_key_share || e.key_not_found)) [
          | inl z ↦
              rw (y, z)
                (Good-from k a b (replay_required k generation w b) le
                  (replay_required-Good generation b ow))
          | inr z ↦ rw (y, z) (record { grows = le; outcome = ow })
        ]
      ]

  request_background-same :
      (a : App)
      → ((request_background k a).entries ≡ a.entries)
        × ((request_background k a).tables ≡ a.tables)
  unfolding request_background
  request_background-same a = (ground arith, ground arith)

  own_cleared-Good :
      (r : Result Error (Unit {0})) (d : Tables) (a b : App)
      → ((e : Error) → r ≢ err e)
      → IsFresh k a b
      → Good k a (own_cleared (r, d) b).0 (own_cleared (r, d) b).1
  unfolding own_cleared
  own_cleared-Good (err e) d a b fine h = absurd (fine e refl)
  own_cleared-Good (ok u) d a b fine h = record {
    grows = rw h.latest (omega (arith, h.since));
    outcome = IsFresh-same (record b { tables = d }) refl h;
  }

  clear_intent-ok : (n : ℕ) (d : Tables) (e : Error) → (clear_intent k n d).0 ≢ err e
  unfolding clear_intent
  clear_intent-ok n d e h = ground (arith, text_eq_iff (trim_space k) [])

  clear_own-Good :
      (generation : ℕ) (a b : App)
      → IsFresh k a b
      → Good k a (clear_own k generation b).0 (clear_own k generation b).1
  unfolding clear_own
  clear_own-Good generation a b h =
      let cleared = clear_intent k generation b.tables in
      own_cleared-Good cleared.0 cleared.1 a b (clear_intent-ok generation b.tables) h

  abbrev HandledGood : App → Handled → App → Type 0
  HandledGood a falls_back b = (length a.entries ≤ length b.entries) × IsOwing k b
  HandledGood a (handled e) b = Good k a e b

  after_degraded-Good :
      (generation : ℕ) (o : Option FetchError) (p : Option ℕ) (a b : App)
      → length a.entries ≤ length b.entries
      → (o ≡ none → p ≡ none → IsFresh k a b)
      → IsOwing k b
      → let r = after_degraded k generation (o, p) b in HandledGood a r.0 r.1
  unfolding after_degraded
  after_degraded-Good generation o (some p) a b le fr ow = record { grows = le; outcome = ow }
  after_degraded-Good generation (some e) none a b le fr ow = (le, ow)
  after_degraded-Good generation none none a b le fr ow =
      clear_own-Good generation a (request_background k b)
        (IsFresh-same (request_background k b) (request_background-same b).0 (fr refl refl))

  degraded_fetch-Good :
      (generation : ℕ) (h : Result ℕ Bool) (a b : App)
      → a.entries ≡ b.entries
      → IsOwing k b
      → let r = degraded_fetch k generation w h b in HandledGood a r.0 r.1
  unfolding degraded_fetch
  degraded_fetch-Good generation (err e) a b same ow = (rw same (omega arith), ow)
  degraded_fetch-Good generation (ok false) a b same ow = (rw same (omega arith), ow)
  degraded_fetch-Good generation (ok true) a b same ow =
      let f = fetch_and_persist k false w.first b in
      let fresh = fetch_and_persist-IsFresh k false w.first b in
      let le : length a.entries ≤ length b.entries = rw same (omega arith) in
      after_degraded-Good generation f.0.0 f.0.1 a f.1 (omega (arith, le, fresh.0))
        (λ x y. IsFresh-from a le (fresh.1 x y))
        (fetch_and_persist-IsOwing k false w.first b idle.first ow)

  load_results-same :
      (r : Bool) (a : App)
      → ((load_results r a).entries ≡ a.entries) × ((load_results r a).tables ≡ a.tables)
  unfolding load_results
  load_results-same r a = (ground arith, ground arith)

  degraded_replay-Good :
      (generation : ℕ) (a : App)
      → IsOwing k a
      → let r = degraded_replay k generation w a in HandledGood a r.0 r.1
  unfolding degraded_replay is_full_sync_broken
  degraded_replay-Good generation a ow =
      let b = load_results w.flags_readable a in
      let (entries, tables) = load_results-same w.flags_readable a in
      let still : IsOwing k b =
        ap (λ (d : Tables). any_intent (of_collection (trim_space k)) d.intents) tables ∙ ow in
      elim (Bool-cases (not (b.flags k))) [
        | inl y ↦ rw y (rw entries (omega arith), still)
        | inr y ↦ rw y (degraded_fetch-Good generation w.has_local a b (sym entries) still)
      ]

  or_replay-Good :
      (generation : ℕ) (h : Handled) (a b : App)
      → HandledGood a h b
      → let r = or_replay k generation w (h, b) in Good k a r.0 r.1
  unfolding or_replay
  or_replay-Good generation falls_back a b (le, ow) =
      Good-from k a b (replay_required k generation w b) le (replay_required-Good generation b ow)
  or_replay-Good generation (handled e) a b h = h

  required-Good :
      (generation : ℕ) (required : Bool) (a : App)
      → IsOwing k a
      → let r = after_begin k w (ok (generation, required)) a in Good k a r.0 r.1
  unfolding after_begin
  required-Good generation true a ow =
      let tried = degraded_replay k generation w a in
      or_replay-Good generation tried.0 a tried.1 (degraded_replay-Good generation a ow)
  required-Good generation false a ow =
      let f = fetch_and_persist k false w.first a in
      let fresh = fetch_and_persist-IsFresh k false w.first a in
      after_incremental-Good generation f.0.0 f.0.1 a f.1 fresh.0 fresh.1
        (fetch_and_persist-IsOwing k false w.first a idle.first ow)

pub begin_recovery-IsOwing :
    (k : Text) (a : App)
    → trim_space k ≢ []
    → IsWellFormed a.tables
    → IsOwing k (record a { tables = (begin_recovery k a.tables).1 })
begin_recovery-IsOwing k a named wf =
    let d = a.tables in
    let (required, asked, begun, ids, marked) = begin_recovery_lem k d named wf in
    pending-of_collection (trim_space k) (trim_space k) (d.seq + 1) (begin_recovery k d).1.intents
      (unfold pending in
        marked (trim_space k) (d.seq + 1) ∙ ground (arith, text_eq_refl (trim_space k)))
      (text_eq_refl (trim_space k))

-- The synchronisation before a write ends, however long each replay takes and however the timers and the
-- deadline fall. The write proceeds only when the latest data persisted is of the collection and was
-- persisted since the synchronisation began; otherwise the collection is left with a pending intent. The
-- tables are well formed, the collection has a name, and the other goroutines clear no intent of it.
pub sync_before_write-ends :
    (k : Text) (w : Answers) (a : App)
    → trim_space k ≢ []
    → IsWellFormed a.tables
    → IsIdleFor k w
    → let r = sync_before_write k w a in Good k a r.0 r.1
unfolding sync_before_write
sync_before_write-ends k w a named wf idle =
    let (required, asked, begun, ids, marked) = begin_recovery_lem k a.tables named wf in
    let b : App = record a { tables = (begin_recovery k a.tables).1 } in
    let owing = begin_recovery-IsOwing k a named wf in
    subst (λ r. Good k a (after_begin k w r b).0 (after_begin k w r b).1) (sym begun)
      (Good-from k a b (after_begin k w (ok (a.tables.seq + 1, required)) b) (omega arith)
        (required-Good k named w idle (a.tables.seq + 1) required b owing))
