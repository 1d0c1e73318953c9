-- ===== src/Recovery/Write/Debt.antt =====
-- An older intent is cleared before a write only where a full replay or a snapshot was persisted.
use wacli.Common.{
  Result, ok, err, ltb, ◌==◌, Bool-cases, All, Text, text_eq, text_eq_iff, trim_space, ℕ, zero, suc,
  ◌+◌, ◌≤◌, ◌<◌, ◌≡◌, refl, sym, ◌∙◌, ◌≢◌, inl, inr, Bool, true, false, not, ◌&&◌, ◌||◌, Option,
  none, some, List, [], ◌∷◌, arith,
}
use mathlib.Core.Path.{subst}
use wacli.AppState.Intents.{
  Intent, Tables, begin_recovery, clear_intent, any_intent, recovery_required,
}
use wacli.AppState.Intents.Laws.{
  pending, is_intent, begin_recovery_lem, pending-delete_intent, IsWellFormed,
}
use wacli.Recovery.State.{App, is_full_sync_broken, load_results}
use wacli.Recovery.Steps.{
  is_persistence_failure, FetchError, FetchAnswer, StepError, fetch_and_persist, clear_completed,
  recover_mismatching,
}
use wacli.Recovery.Steps.Carries.{
  repairs, IsQuiet, Carries, Carries-refl, Carries-trans, Carries-same, Carries-repaired,
  fetch_and_persist-Carries, clear_completed-entries, clear_completed-Carries,
  recover_mismatching-Carries, fetch_and_persist-repaired, load_results-Carries,
  pending-of_collection,
}
use wacli.Recovery.Write.{
  Answers, Ended, after_replay, replay_loop, replay_required, request_background, Handled,
  falls_back, handled, own_cleared, clear_own, after_degraded, degraded_fetch, degraded_replay,
  or_replay, after_snapshot, after_incremental, after_begin, sync_before_write, deadline_of,
  replay_fuel, retry_initial_delay, recovery_max_wait, next_delay, has_ended,
}

-- Nothing that the other goroutines do meanwhile erases the generation.
pub record IsQuietFor (c : Text) (g : ℕ) (w : Answers) : Type 0 where
  pub first : IsQuiet c g w.first.meanwhile
  pub replays : (n : ℕ) → IsQuiet c g (w.replays n).meanwhile
  pub snapshot : IsQuiet c g w.snapshot.meanwhile
  pub replay_snapshot : IsQuiet c g w.replay_snapshot.meanwhile
  pub between : IsQuiet c g w.between

module _ (c : Text) (g : ℕ) (k : Text) (w : Answers) (quiet : IsQuietFor c g w) where
  cleared-Carries :
      (n : ℕ) (a b : App)
      → repairs a.entries < repairs b.entries
      → Carries c g a (clear_completed k n w.between b).1
  cleared-Carries n a b lt =
      Carries-repaired c g a (clear_completed k n w.between b).1
        (rw (clear_completed-entries k n w.between b) lt)

  after_replay-Carries :
      (generation deadline n delay : ℕ) (again : App → Ended × App) (o : Option FetchError)
      (p : Option ℕ) (a b : App)
      → Carries c g a b
      → (o ≡ none → p ≡ none → repairs a.entries < repairs b.entries)
      → ((d : App) → Carries c g d (again d).1)
      → Carries c g a (after_replay k generation w deadline n delay again (o, p) b).1
  unfolding after_replay
  after_replay-Carries generation deadline n delay again o (some p) a b h lt more = h
  after_replay-Carries generation deadline n delay again none none a b h lt more =
      cleared-Carries generation a b (lt refl refl)
  after_replay-Carries generation deadline n delay again (some e) none a b h lt more =
      let fires = b.now + delay in
      let later : App = record b { now = fires + w.lag n } in
      elim (Bool-cases (e.mismatching_lthash || e.empty_key_share)) [
        | inl y ↦ rw y (
            Carries-trans c g h (
              recover_mismatching-Carries c g k generation w.replay_snapshot b
                quiet.replay_snapshot))
        | inr y ↦ elim (Bool-cases (not e.key_not_found)) [
          | inl z ↦ rw (y, z) h
          | inr z ↦
              elim (Bool-cases (ltb fires deadline || ((fires == deadline) && w.timer_first n))) [
                | inl t ↦
                    rw (y, z, t)
                      (Carries-trans c g h
                        (Carries-trans c g (Carries-same c g b later refl refl) (more later)))
                | inr t ↦ rw (y, z, t) h
              ]
        ]
      ]

  replay_loop-Carries :
      (generation deadline fuel n delay : ℕ) (a : App)
      → Carries c g a (replay_loop k generation w deadline fuel n delay a).1
  unfolding replay_loop
  replay_loop-Carries generation deadline zero n delay a = Carries-refl c g a
  replay_loop-Carries generation deadline (suc fuel) n delay a =
      let f : FetchAnswer = w.replays n in
      after_replay-Carries generation deadline n delay
        (λ b. replay_loop k generation w deadline fuel (suc n) (next_delay delay) b)
        (fetch_and_persist k true f a).0.0 (fetch_and_persist k true f a).0.1 a
        (fetch_and_persist k true f a).1
        (fetch_and_persist-Carries c g k true f a (quiet.replays n))
        (fetch_and_persist-repaired k f a)
        (λ d. replay_loop-Carries generation deadline fuel (suc n) (next_delay delay) d)

  replay_required-Carries :
      (generation : ℕ) (a : App) → Carries c g a (replay_required k generation w a).1
  unfolding replay_required
  replay_required-Carries generation a =
      replay_loop-Carries generation (deadline_of w.context_ends (a.now + recovery_max_wait))
        replay_fuel 0 retry_initial_delay a

  after_snapshot-Carries :
      (generation : ℕ) (o : Option StepError) (a b : App)
      → Carries c g a b
      → Carries c g a (after_snapshot k generation w (o, b)).1
  unfolding after_snapshot
  after_snapshot-Carries generation none a b h = h
  after_snapshot-Carries generation (some e) a b h =
      elim (Bool-cases (has_ended w.context_ends b.now || is_persistence_failure e)) [
        | inl y ↦ rw y h
        | inr y ↦ rw y (Carries-trans c g h (replay_required-Carries generation b))
      ]

  after_incremental-Carries :
      (generation : ℕ) (o : Option FetchError) (p : Option ℕ) (a b : App)
      → trim_space k ≢ []
      → text_eq (trim_space k) c ≡ false
      → Carries c g a b
      → Carries c g a (after_incremental k generation w (o, p) b).1
  unfolding after_incremental
  after_incremental-Carries generation o (some p) a b named other h = h
  after_incremental-Carries generation none none a b named other h = Carries-trans c g h (
      clear_completed-Carries c g k generation w.between b named quiet.between
        (ground (arith, other)))
  after_incremental-Carries generation (some e) none a b named other h =
      elim (Bool-cases e.mismatching_lthash) [
        | inl y ↦
            let asked = recover_mismatching k generation w.snapshot b in
            let carried =
              Carries-trans c g h
                (recover_mismatching-Carries c g k generation w.snapshot b quiet.snapshot) in
            rw y (after_snapshot-Carries generation asked.0 a asked.1 carried)
        | inr y ↦ elim (Bool-cases (e.empty_key_share || e.key_not_found)) [
          | inl z ↦ rw (y, z) (Carries-trans c g h (replay_required-Carries generation b))
          | inr z ↦ rw (y, z) h
        ]
      ]

  request_background-Carries : (a : App) → Carries c g a (request_background k a)
  unfolding request_background
  request_background-Carries a = Carries-same c g _ _ (ground arith) (ground arith)

  clear_own-Carries :
      (generation : ℕ) (a : App)
      → (g == generation) ≡ false
      → Carries c g a (clear_own k generation a).1
  unfolding clear_own own_cleared clear_intent pending
  clear_own-Carries generation a other = record {
    grows = ground arith;
    keeps = λ le h.
        ground (arith, pending-delete_intent (trim_space k) c generation g a.tables.intents);
  }

  after_degraded-Carries :
      (generation : ℕ) (o : Option FetchError) (p : Option ℕ) (a b : App)
      → (g == generation) ≡ false
      → Carries c g a b
      → Carries c g a (after_degraded k generation (o, p) b).1
  unfolding after_degraded
  after_degraded-Carries generation o (some p) a b other h = h
  after_degraded-Carries generation (some e) none a b other h = h
  after_degraded-Carries generation none none a b other h = Carries-trans c g h (
      Carries-trans c g (request_background-Carries b)
        (clear_own-Carries generation (request_background k b) other))

  degraded_fetch-Carries :
      (generation : ℕ) (r : Result ℕ Bool) (a : App)
      → (g == generation) ≡ false
      → Carries c g a (degraded_fetch k generation w r a).1
  unfolding degraded_fetch
  degraded_fetch-Carries generation (err e) a other = Carries-refl c g a
  degraded_fetch-Carries generation (ok false) a other = Carries-refl c g a
  degraded_fetch-Carries generation (ok true) a other =
      after_degraded-Carries generation (fetch_and_persist k false w.first a).0.0
        (fetch_and_persist k false w.first a).0.1 a (fetch_and_persist k false w.first a).1 other
        (fetch_and_persist-Carries c g k false w.first a quiet.first)

  degraded_replay-Carries :
      (generation : ℕ) (a : App)
      → (g == generation) ≡ false
      → Carries c g a (degraded_replay k generation w a).1
  unfolding degraded_replay is_full_sync_broken
  degraded_replay-Carries generation a other =
      let b = load_results w.flags_readable a in
      elim (Bool-cases (not (b.flags k))) [
        | inl y ↦ rw y (load_results-Carries c g w.flags_readable a)
        | inr y ↦ rw y (
            Carries-trans c g (load_results-Carries c g w.flags_readable a)
              (degraded_fetch-Carries generation w.has_local b other))
      ]

  or_replay-Carries :
      (generation : ℕ) (h : Handled) (a b : App)
      → Carries c g a b
      → Carries c g a (or_replay k generation w (h, b)).1
  unfolding or_replay
  or_replay-Carries generation falls_back a b q =
      Carries-trans c g q (replay_required-Carries generation b)
  or_replay-Carries generation (handled e) a b q = q

  required-Carries :
      (generation : ℕ) (required : Bool) (a : App)
      → trim_space k ≢ []
      → (g == generation) ≡ false
      → (required ≡ false → text_eq (trim_space k) c ≡ false)
      → Carries c g a (after_begin k w (ok (generation, required)) a).1
  unfolding after_begin
  required-Carries generation true a named other fresh =
      let tried = degraded_replay k generation w a in
      or_replay-Carries generation tried.0 a tried.1 (degraded_replay-Carries generation a other)
  required-Carries generation false a named other fresh =
      let f = fetch_and_persist k false w.first a in
      after_incremental-Carries generation f.0.0 f.0.1 a f.1 named (fresh refl)
        (fetch_and_persist-Carries c g k false w.first a quiet.first)

pending-le :
    (c : Text) (g seq : ℕ) (rs : List Intent)
    → All (λ r. r.id ≤ seq) rs
    → any_intent (is_intent c g) rs ≡ true
    → g ≤ seq
unfolding any_intent
pending-le c g seq [] h e = cc
pending-le c g seq (r ∷ rs) (le, h) e = ground (arith, pending-le c g seq rs h)

pub required-pending :
    (c k : Text) (g : ℕ) (d : Tables)
    → trim_space k ≢ []
    → pending c g d ≡ true
    → text_eq (trim_space k) c ≡ true
    → recovery_required k d ≡ ok true
unfolding recovery_required pending
required-pending c k g d named p same = ground (
  arith,
  pending-of_collection c (trim_space k) g d.intents p same,
  text_eq_iff (trim_space k) [],
)

-- The debt of a collection survives a write to it or to another: an intent that was pending before the
-- synchronisation is pending after it, unless a full replay or a snapshot was persisted, provided that
-- no other goroutine erases it meanwhile.
pub debt_survives :
    (k c : Text) (g : ℕ) (w : Answers) (a : App)
    → trim_space k ≢ []
    → IsWellFormed a.tables
    → IsQuietFor c g w
    → pending c g a.tables ≡ true
    → repairs (sync_before_write k w a).1.entries ≤ repairs a.entries
    → pending c g (sync_before_write k w a).1.tables ≡ true
unfolding sync_before_write
debt_survives k c g w a named wf quiet p none_made =
    let (required, asked, begun, ids, marked) = begin_recovery_lem k a.tables named wf in
    let b : App = record a { tables = (begin_recovery k a.tables).1 } in
    let le : g ≤ a.tables.seq =
      pending-le c g a.tables.seq a.tables.intents wf (unfold pending in p) in
    let fresh : required ≡ false → text_eq (trim_space k) c ≡ false = λ no.
      elim (Bool-cases (text_eq (trim_space k) c)) [
        | inl same ↦
            let must = required-pending c k g a.tables named p same in absurd (cc (must, asked, no))
        | inr other ↦ other
      ] in
    let step : Carries c g a b = record {
      grows = omega arith;
      keeps = λ l h. marked c g ∙ rw h refl;
    } in
    let rest =
      required-Carries c g k w quiet (a.tables.seq + 1) required b named (ground (arith, le))
        fresh in
    subst
      (λ r.
        repairs (after_begin k w r b).1.entries ≤ repairs a.entries
        → pending c g (after_begin k w r b).1.tables ≡ true)
      (sym begun) (λ l. (Carries-trans c g step rest).keeps l p) none_made
