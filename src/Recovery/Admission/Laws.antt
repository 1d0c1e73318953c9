-- ===== src/Recovery/Admission/Laws.antt =====
-- Never two repairs of one collection in flight, and a failed one is not tried again at once.
use wacli.Common.{
  if◌then◌else◌, Bool-cases, Text, text_eq, text_eq_iff, text_eq_refl, trim_space, ℕ, suc, ◌+◌, ◌≤◌,
  ◌≡◌, refl, sym, ◌⊎◌, inl, inr, Bool, true, false, Option, none, some, List, [], ◌∷◌, arith,
}
use mathlib.Core.Path.{subst}
use wacli.Recovery.State.{set_at}
use wacli.Recovery.Steps.{FetchError}
use wacli.Recovery.Ladder.{RepairAnswers}
use wacli.Recovery.Admission.{
  Ending, record_outcome, records, Desk, empty_key, start_repair, spend_budget, handle_sync_error,
  set_recovery_outcome, release_repair, take_worker, run_repair, Event, reports, starts_up, runs,
  passes, apply_event, apply_events,
}

-- The repairs of a collection in flight.
unfoldable pub repairs_of {ℓ} : {A : Type ℓ} → Text → List (Text × A) → ℕ
repairs_of name [] = 0
repairs_of name ((k, a) ∷ rest) =
    let others = repairs_of name rest in if text_eq name k then suc others else others

abbrev pub of_bool : Bool → ℕ
of_bool false = 0
of_bool true = 1

-- No more repairs in flight than the map of the run says.
abbrev pub IsGuarded : Text → Desk → Type 0
IsGuarded name d = repairs_of name d.workers ≤ of_bool (d.recoveries name)

abbrev pub of_option {ℓ} : {A : Type ℓ} → Option A → ℕ
of_option none = 0
of_option (some b) = 1

-- Both orders of a test of two keys.
pub either_way :
    (j k : Text)
    → ((j ≡ k) × (text_eq k j ≡ true) × (text_eq j k ≡ true))
      ⊎ ((text_eq k j ≡ false) × (text_eq j k ≡ false))
either_way j k = elim (Bool-cases (text_eq j k)) [
  | inl y ↦ let same = (text_eq_iff j k).0 y in inl (same, rw same (text_eq_refl k), y)
  | inr n ↦ elim (Bool-cases (text_eq k j)) [
    | inl y ↦ let same = (text_eq_iff k j).0 y in absurd (cc ((text_eq_iff j k).1 (sym same), n))
    | inr m ↦ inr (m, n)
  ]
]

pub take_worker-split {ℓ} :
    {A : Type ℓ} (name : Text) (ws : List (Text × A))
    → repairs_of name ws
      ≡ of_option (take_worker name ws).0 + repairs_of name (take_worker name ws).1
unfolding take_worker repairs_of
take_worker-split name [] = refl
take_worker-split name ((j, b) ∷ ws) = ground (arith, take_worker-split name ws)

pub take_worker-le {ℓ} :
    {A : Type ℓ} (name k : Text) (ws : List (Text × A))
    → repairs_of name (take_worker k ws).1 ≤ repairs_of name ws
unfolding take_worker repairs_of
take_worker-le name k [] = omega arith
take_worker-le name k ((j, b) ∷ ws) = ground (arith, take_worker-le name k ws)

module _ (name : Text) where
  start_repair-IsGuarded :
      (k : Text) (b : Bool) (d : Desk) → IsGuarded name d → IsGuarded name (start_repair k b d)
  unfolding start_repair repairs_of
  start_repair-IsGuarded k b d h = elim (Bool-cases (d.recoveries k)) [
    | inl there ↦ rw there h
    | inr free ↦ elim (either_way name k) [
      | inl (same, kn, nk) ↦ rw (free, kn, nk) (ground (arith, same))
      | inr (kn, nk) ↦ rw (free, kn, nk) h
    ]
  ]

  pub of_bool-le : (b : Bool) → of_bool b ≤ 1
  of_bool-le true = omega arith
  of_bool-le false = omega arith

  marked-IsGuarded :
      (k : Text) (d : Desk)
      → IsGuarded name d
      → IsGuarded name (record d { recoveries = set_at d.recoveries k true })
  marked-IsGuarded k d h = elim (Bool-cases (text_eq k name)) [
    | inl y ↦ rw y (omega (arith, of_bool-le (d.recoveries name)))
    | inr n ↦ rw n h
  ]

  spend_budget-IsGuarded :
      (k : Text) (d : Desk) → IsGuarded name d → IsGuarded name (spend_budget k d)
  unfolding spend_budget
  spend_budget-IsGuarded k d h =
      let marked : Desk = record d { recoveries = set_at d.recoveries (empty_key k) true } in
      elim (Bool-cases (d.recoveries (empty_key k))) [
        | inl y ↦ rw y h
        | inr n ↦ rw n (start_repair-IsGuarded k false marked (marked-IsGuarded (empty_key k) d h))
      ]

  handle_sync_error-IsGuarded :
      (c : Text) (e : FetchError) (d : Desk)
      → IsGuarded name d
      → IsGuarded name (handle_sync_error c e d)
  unfolding handle_sync_error
  handle_sync_error-IsGuarded c e d h = ground (
    arith,
    spend_budget-IsGuarded (trim_space c) d h,
    start_repair-IsGuarded (trim_space c) true d h,
  )

  pub record_outcome-fields :
      (k : Text) (o : Option Ending) (rest : List (Text × Ending)) (d : Desk)
      → let r = record_outcome k (o, rest) d in
        (r.workers ≡ d.workers) × (r.recoveries ≡ d.recoveries) × (r.app ≡ d.app)
  unfolding record_outcome set_recovery_outcome
  record_outcome-fields k none rest d = (refl, refl, refl)
  record_outcome-fields k (some e) rest d = (ground arith, ground arith, ground arith)

  -- A repair that is through leaves the map and the list, whatever its outcome.
  run_repair-IsGuarded :
      (k : Text) (w : RepairAnswers) (o : Option Bool) (rest : List (Text × Bool)) (d : Desk)
      → repairs_of name rest ≤ repairs_of name d.workers
      → (name ≡ k → repairs_of name d.workers ≡ of_option o + repairs_of name rest)
      → IsGuarded name d
      → IsGuarded name (run_repair k w (o, rest) d)
  unfolding run_repair release_repair
  run_repair-IsGuarded k w none rest d le own h = h
  run_repair-IsGuarded k w (some b) rest d le own h = elim (either_way name k) [
    | inl (same, kn, nk) ↦
        let none_left : repairs_of name rest ≡ 0 =
          omega (arith, own same, of_bool-le (d.recoveries name)) in
        rw (kn, none_left) (omega arith)
    | inr (kn, nk) ↦ rw kn (omega arith)
  ]

  record_outcome-IsGuarded :
      (k : Text) (o : Option Ending) (rest : List (Text × Ending)) (d : Desk)
      → IsGuarded name d
      → IsGuarded name (record_outcome k (o, rest) d)
  record_outcome-IsGuarded k o rest d h =
      let (workers, recoveries, app) = record_outcome-fields k o rest d in
      rw (workers, recoveries) h

  pub apply_event-IsGuarded :
      (e : Event) (d : Desk) → IsGuarded name d → IsGuarded name (apply_event e d)
  unfolding apply_event
  apply_event-IsGuarded (reports c e) d h = handle_sync_error-IsGuarded c e d h
  apply_event-IsGuarded (starts_up k b) d h = start_repair-IsGuarded k b d h
  apply_event-IsGuarded (passes t) d h = h
  apply_event-IsGuarded (records k) d h =
      let taken = take_worker k d.ending in record_outcome-IsGuarded k taken.0 taken.1 d h
  apply_event-IsGuarded (runs k w) d h =
      let taken = take_worker k d.workers in
      run_repair-IsGuarded k w taken.0 taken.1 d (take_worker-le name k d.workers)
        (λ same.
          subst
            (λ x.
              repairs_of name d.workers
              ≡ of_option (take_worker x d.workers).0 + repairs_of name (take_worker x d.workers).1)
            same (take_worker-split name d.workers))
        h

  apply_events-IsGuarded :
      (es : List Event) (d : Desk) → IsGuarded name d → IsGuarded name (apply_events es d)
  unfolding apply_events
  apply_events-IsGuarded [] d h = h
  apply_events-IsGuarded (e ∷ es) d h =
      apply_events-IsGuarded es (apply_event e d) (apply_event-IsGuarded e d h)

  -- Whatever whatsmeow reports and however the repairs run, a desk that starts with no repair in flight
  -- never has two of one collection.
  pub at_most_one_repair :
      (es : List Event) (d : Desk)
      → d.workers ≡ []
      → repairs_of name (apply_events es d).workers ≤ 1
  unfolding repairs_of
  at_most_one_repair es d empty =
      let start : IsGuarded name d = rw empty (omega arith) in
      omega
        (arith, apply_events-IsGuarded es d start, of_bool-le ((apply_events es d).recoveries name))
