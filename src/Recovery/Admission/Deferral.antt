-- ===== src/Recovery/Admission/Deferral.antt =====
-- When the next automatic repair of a collection may start after one has ended.
use wacli.Common.{
  if◌then◌else◌, Bool-cases, lt→ltb, All, Text, text_eq, text_eq_iff, text_eq_refl, trim_space, ℕ,
  ◌+◌, ◌≤◌, ◌<◌, ◌≡◌, refl, sym, ap, ◌∙◌, ◌≢◌, inl, inr, Bool, true, false, not, Option, none, some,
  List, [], ◌∷◌, arith,
}
use mathlib.Core.Path.{subst}
use wacli.Recovery.State.{set_at}
use wacli.Recovery.Steps.{FetchError}
use wacli.Recovery.Write.{has_ended}
use wacli.Recovery.Ladder.{RepairAnswers, repair_collection}
use wacli.Recovery.Ladder.Laws.{repair_collection-now}
use wacli.Recovery.Admission.{
  Ending, record_outcome, records, recovery_retry_delay, Desk, empty_key, owns_manual_fetch,
  is_deferred, start_repair, spend_budget, handle_sync_error, set_recovery_outcome, release_repair,
  take_worker, is_repaired, run_repair, Event, reports, starts_up, runs, passes, apply_event,
  apply_events,
}
use wacli.Recovery.Admission.Laws.{
  repairs_of, of_bool, IsGuarded, of_option, either_way, take_worker-split, take_worker-le,
  record_outcome-fields, of_bool-le,
}

-- The startup repair asks no deadline: these are the events of a run after its startup.
unfoldable pub IsElsewhere : Text → Event → Type 0
IsElsewhere name (starts_up k b) = text_eq k name ≡ false
IsElsewhere name (reports c e) = Unit
IsElsewhere name (runs k w) = Unit
IsElsewhere name (records k) = Unit
IsElsewhere name (passes t) = Unit

-- No repair in flight or ending, and none before the moment `r`.
record Waits (name : Text) (r : ℕ) (d : Desk) : Type 0 where
  at : d.retry_at name ≡ some r
  idle : repairs_of name d.workers ≡ 0
  told : repairs_of name d.ending ≡ 0

module _ (name : Text) (r : ℕ) where
  start_repair-Waits :
      (k : Text) (b : Bool) (d : Desk)
      → text_eq k name ≡ false
      → Waits name r d
      → Waits name r (start_repair k b d)
  unfolding start_repair repairs_of
  start_repair-Waits k b d other h = elim (either_way name k) [
    | inl (same, kn, nk) ↦ absurd cc
    | inr (kn, nk) ↦ elim (Bool-cases (d.recoveries k)) [
      | inl y ↦ rw y h
      | inr n ↦ rw n (record { at = h.at; idle = rw nk h.idle; told = h.told })
    ]
  ]

  spend_budget-Waits :
      (k : Text) (d : Desk)
      → text_eq k name ≡ false
      → Waits name r d
      → Waits name r (spend_budget k d)
  unfolding spend_budget
  spend_budget-Waits k d other h =
      let marked : Desk = record d { recoveries = set_at d.recoveries (empty_key k) true } in
      elim (Bool-cases (d.recoveries (empty_key k))) [
        | inl y ↦ rw y h
        | inr n ↦ rw n (
            start_repair-Waits k false marked other
              (record { at = h.at; idle = h.idle; told = h.told }))
      ]

  is_deferred-Waits :
      (d : Desk) → d.app.now < r → Waits name r d → is_deferred (d.retry_at name) d.app.now ≡ true
  unfolding is_deferred
  is_deferred-Waits d early h = rw h.at (lt→ltb d.app.now r early)

  handle_sync_error-Waits :
      (c : Text) (e : FetchError) (d : Desk)
      → d.app.now < r
      → Waits name r d
      → Waits name r (handle_sync_error c e d)
  unfolding handle_sync_error
  handle_sync_error-Waits c e d early h = elim (either_way name (trim_space c)) [
    | inl (same, kn, nk) ↦
        let deferred =
          subst (λ x. is_deferred (d.retry_at x) d.app.now ≡ true) same
            (is_deferred-Waits d early h) in
        rw deferred (ground (arith, h))
    | inr (kn, nk) ↦ ground (
      arith,
      spend_budget-Waits (trim_space c) d kn h,
      start_repair-Waits (trim_space c) true d kn h,
    )
  ]

  taken-own {ℓ} :
      {A : Type ℓ} (k : Text) (ws : List (Text × A))
      → name ≡ k
      → repairs_of name ws ≡ of_option (take_worker k ws).0 + repairs_of name (take_worker k ws).1
  taken-own k ws same =
      subst
        (λ x.
          repairs_of name ws
          ≡ of_option (take_worker x ws).0 + repairs_of name (take_worker x ws).1)
        same (take_worker-split name ws)

  run_repair-Waits :
      (k : Text) (w : RepairAnswers) (o : Option Bool) (rest : List (Text × Bool)) (d : Desk)
      → repairs_of name rest ≤ repairs_of name d.workers
      → (name ≡ k → repairs_of name d.workers ≡ of_option o + repairs_of name rest)
      → Waits name r d
      → Waits name r (run_repair k w (o, rest) d)
  unfolding run_repair release_repair repairs_of
  run_repair-Waits k w none rest d le own h = h
  run_repair-Waits k w (some b) rest d le own h = elim (either_way name k) [
    | inl (same, kn, nk) ↦ absurd (omega (arith, own same, h.idle))
    | inr (kn, nk) ↦ record { at = h.at; idle = omega (arith, h.idle); told = rw nk h.told }
  ]

  record_outcome-Waits :
      (k : Text) (o : Option Ending) (rest : List (Text × Ending)) (d : Desk)
      → repairs_of name rest ≤ repairs_of name d.ending
      → (name ≡ k → repairs_of name d.ending ≡ of_option o + repairs_of name rest)
      → Waits name r d
      → Waits name r (record_outcome k (o, rest) d)
  unfolding record_outcome set_recovery_outcome
  record_outcome-Waits k none rest d le own h = h
  record_outcome-Waits k (some e) rest d le own h = elim (either_way name k) [
    | inl (same, kn, nk) ↦ absurd (omega (arith, own same, h.told))
    | inr (kn, nk) ↦ record {
      at = ground (arith, kn, h.at);
      idle = ground (arith, h.idle);
      told = ground (arith, h.told, le);
    }
  ]

  apply_event-Waits :
      (e : Event) (d : Desk)
      → IsElsewhere name e
      → d.app.now < r
      → Waits name r d
      → Waits name r (apply_event e d)
  unfolding apply_event IsElsewhere
  apply_event-Waits (reports c e) d away early h = handle_sync_error-Waits c e d early h
  apply_event-Waits (starts_up k b) d away early h = start_repair-Waits k b d away h
  apply_event-Waits (passes t) d away early h = record { at = h.at; idle = h.idle; told = h.told }
  apply_event-Waits (runs k w) d away early h =
      let taken = take_worker k d.workers in
      run_repair-Waits k w taken.0 taken.1 d (take_worker-le name k d.workers)
        (taken-own k d.workers) h
  apply_event-Waits (records k) d away early h =
      let taken = take_worker k d.ending in
      record_outcome-Waits k taken.0 taken.1 d (take_worker-le name k d.ending)
        (taken-own k d.ending) h

start_repair-app : (k : Text) (b : Bool) (d : Desk) → (start_repair k b d).app ≡ d.app
unfolding start_repair
start_repair-app k b d = ground arith

spend_budget-app : (k : Text) (d : Desk) → (spend_budget k d).app ≡ d.app
unfolding spend_budget
spend_budget-app k d = ground (
  arith,
  start_repair-app k false (record d { recoveries = set_at d.recoveries (empty_key k) true }),
)

handle_sync_error-app :
    (c : Text) (e : FetchError) (d : Desk) → (handle_sync_error c e d).app ≡ d.app
unfolding handle_sync_error
handle_sync_error-app c e d =
    ground (arith, spend_budget-app (trim_space c) d, start_repair-app (trim_space c) true d)

run_repair-now :
    (k : Text) (w : RepairAnswers) (o : Option Bool) (rest : List (Text × Bool)) (d : Desk)
    → d.app.now ≤ (run_repair k w (o, rest) d).app.now
unfolding run_repair release_repair
run_repair-now k w none rest d = omega arith
run_repair-now k w (some b) rest d = repair_collection-now k b w d.app

record_outcome-now :
    (k : Text) (o : Option Ending) (rest : List (Text × Ending)) (d : Desk)
    → d.app.now ≤ (record_outcome k (o, rest) d).app.now
record_outcome-now k o rest d =
    let (workers, recoveries, app) = record_outcome-fields k k o rest d in rw app (omega arith)

apply_event-now : (e : Event) (d : Desk) → d.app.now ≤ (apply_event e d).app.now
unfolding apply_event
apply_event-now (reports c e) d = rw (handle_sync_error-app c e d) (omega arith)
apply_event-now (starts_up k b) d = rw (start_repair-app k b d) (omega arith)
apply_event-now (passes t) d = omega arith
apply_event-now (runs k w) d = let t = take_worker k d.workers in run_repair-now k w t.0 t.1 d
apply_event-now (records k) d = let t = take_worker k d.ending in record_outcome-now k t.0 t.1 d

apply_events-now : (es : List Event) (d : Desk) → d.app.now ≤ (apply_events es d).app.now
unfolding apply_events
apply_events-now [] d = omega arith
apply_events-now (e ∷ es) d =
    omega (arith, apply_event-now e d, apply_events-now es (apply_event e d))

apply_events-Waits :
    (name : Text) (r : ℕ) (es : List Event) (d : Desk)
    → All (IsElsewhere name) es
    → (apply_events es d).app.now < r
    → Waits name r d
    → Waits name r (apply_events es d)
unfolding apply_events
apply_events-Waits name r [] d away early h = h
apply_events-Waits name r (e ∷ es) d (here, away) early h =
    let v = apply_event e d in
    let soon : d.app.now < r = omega (arith, apply_event-now e d, apply_events-now es v) in
    apply_events-Waits name r es v away early (apply_event-Waits name r e d here soon h)

recorded-Waits :
    (name : Text) (e : Ending) (rest : List (Text × Ending)) (d : Desk)
    → e.repaired ≡ false
    → has_ended e.context_ends d.app.now ≡ false
    → repairs_of name rest ≡ 0
    → repairs_of name d.workers ≡ 0
    → Waits name (d.app.now + recovery_retry_delay) (record_outcome name (some e, rest) d)
unfolding record_outcome set_recovery_outcome
recorded-Waits name e rest d failed running none_ending none_left =
    rw (running, failed)
      (record { at = rw (text_eq_refl name) refl; idle = none_left; told = none_ending })

-- Once the failure of a repair that was not cancelled is recorded, no error that whatsmeow reports starts
-- another repair of its collection for two minutes, whatever happens to the other collections and unless a
-- new startup repairs it. When the failure is recorded no other repair of the collection is in flight or
-- about to record its outcome.
pub failed_repair_waits :
    (name : Text) (e : Ending) (rest : List (Text × Ending)) (d : Desk) (es : List Event)
    → take_worker name d.ending ≡ (some e, rest)
    → e.repaired ≡ false
    → has_ended e.context_ends d.app.now ≡ false
    → repairs_of name rest ≡ 0
    → repairs_of name d.workers ≡ 0
    → All (IsElsewhere name) es
    → (apply_events es (apply_event (records name) d)).app.now < d.app.now + recovery_retry_delay
    → repairs_of name (apply_events es (apply_event (records name) d)).workers ≡ 0
unfolding apply_event
failed_repair_waits name e rest d es taken failed running none_ending none_left away early =
    let v = record_outcome name (some e, rest) d in
    let waits = recorded-Waits name e rest d failed running none_ending none_left in
    subst
      (λ x.
        (apply_events es (record_outcome name x d)).app.now < d.app.now + recovery_retry_delay
        → repairs_of name (apply_events es (record_outcome name x d)).workers ≡ 0)
      (sym taken)
      (λ soon.
        (apply_events-Waits name (d.app.now + recovery_retry_delay) es v away soon waits).idle)
      early

rest-none :
    (name : Text) (b : Bool) (rest : List (Text × Bool)) (d : Desk)
    → IsGuarded name d
    → take_worker name d.workers ≡ (some b, rest)
    → repairs_of name rest ≡ 0
rest-none name b rest d guarded taken =
    let split : repairs_of name d.workers ≡ 1 + repairs_of name rest =
      subst (λ x. repairs_of name d.workers ≡ of_option x.0 + repairs_of name x.1) taken
        (take_worker-split name d.workers) in
    omega (arith, split, of_bool-le name (d.recoveries name))

report-starts :
    (c : Text) (e : FetchError) (v : Desk)
    → trim_space c ≢ []
    → e.mismatching_lthash ≡ true
    → e.empty_key_share ≡ false
    → v.app.closing ≡ false
    → owns_manual_fetch c v ≡ false
    → v.recoveries (trim_space c) ≡ false
    → repairs_of (trim_space c) v.workers ≡ 0
    → repairs_of (trim_space c) (handle_sync_error c e v).workers
      ≡ of_bool (not (is_deferred (v.retry_at (trim_space c)) v.app.now))
unfolding handle_sync_error start_repair repairs_of
report-starts c e v named mismatch keyed unclosed own free none_left =
    ground (arith, text_eq_iff (trim_space c) [], text_eq_refl (trim_space c))

-- The two steps of the deferred function, one right after the other, and then a report.
recorded-report :
    (c : Text) (e : FetchError) (o : Ending) (rest : List (Text × Ending)) (d : Desk)
    → has_ended o.context_ends d.app.now ≡ false
    → trim_space c ≢ []
    → e.mismatching_lthash ≡ true
    → e.empty_key_share ≡ false
    → d.app.closing ≡ false
    → owns_manual_fetch c d ≡ false
    → d.recoveries (trim_space c) ≡ false
    → repairs_of (trim_space c) d.workers ≡ 0
    → repairs_of
        (trim_space c)
        (handle_sync_error c e (record_outcome (trim_space c) (some o, rest) d)).workers
      ≡ of_bool o.repaired
unfolding record_outcome set_recovery_outcome owns_manual_fetch is_deferred
recorded-report c e o rest d running named mismatch keyed unclosed own free none_left =
    let same = text_eq_refl (trim_space c) in
    let name = trim_space c in
    let left : Desk = record d { ending = rest } in
    elim (Bool-cases o.repaired) [
      | inl y ↦
          let v : Desk = record left { retry_at = set_at d.retry_at name none } in
          rw (running, y)
            (report-starts c e v named mismatch keyed unclosed own free none_left ∙ rw same refl)
      | inr n ↦
          let v : Desk = record left {
            retry_at = set_at d.retry_at name (some (d.app.now + recovery_retry_delay));
          } in
          rw (running, n)
            (report-starts c e v named mismatch keyed unclosed own free none_left
              ∙ rw same (
                  ap (λ x. of_bool (not x))
                    (lt→ltb d.app.now (d.app.now + recovery_retry_delay) (omega arith))))
    ]

-- When a repair that was not cancelled frees its name and records its outcome with nothing in between, a
-- mismatch of the collection reported right after starts the next repair exactly when that one succeeded.
-- The app is not closing, no command fetches the collection itself, and no two repairs of it were in
-- flight.
pub next_report :
    (c : Text) (e : FetchError) (w : RepairAnswers) (b : Bool) (rest : List (Text × Bool))
    (d : Desk)
    → trim_space c ≢ []
    → e.mismatching_lthash ≡ true
    → e.empty_key_share ≡ false
    → IsGuarded (trim_space c) d
    → take_worker (trim_space c) d.workers ≡ (some b, rest)
    → has_ended w.context_ends (repair_collection (trim_space c) b w d.app).1.now ≡ false
    → (repair_collection (trim_space c) b w d.app).1.closing ≡ false
    → owns_manual_fetch c d ≡ false
    → repairs_of
        (trim_space c)
        (handle_sync_error c e
          (apply_events (runs (trim_space c) w ∷ records (trim_space c) ∷ []) d)).workers
      ≡ of_bool (is_repaired (repair_collection (trim_space c) b w d.app).0)
unfolding apply_events apply_event run_repair release_repair owns_manual_fetch take_worker
next_report c e w b rest d named mismatch keyed guarded taken running unclosed own =
    let name = trim_space c in
    let r = repair_collection name b w d.app in
    let o : Ending = record { repaired = is_repaired r.0; context_ends = w.context_ends } in
    let v : Desk = release_repair name o (record d { app = r.1; workers = rest }) in
    let same = text_eq_refl name in
    let free : (if text_eq name name then false else d.recoveries name) ≡ false = rw same refl in
    let told : take_worker name v.ending ≡ (some o, d.ending) = rw same refl in
    subst
      (λ x.
        repairs_of name
          (handle_sync_error c e (
            record_outcome name (take_worker name (run_repair name w x d).ending)
              (run_repair name w x d))).workers
        ≡ of_bool (is_repaired r.0))
      (sym taken)
      (rw told (
        recorded-report c e o d.ending v running named mismatch keyed unclosed own free
          (rest-none name b rest d guarded taken)))
