-- ===== src/Recovery/Steps/Fresh.antt =====
-- What a step of a repair leaves: fresh data of the collection, or a debt that stands.
use wacli.Common.{
  Result, ok, err, if◌then◌else◌, Bool-cases, Text, text_eq, text_eq_iff, trim_space, length, ℕ,
  ◌+◌, ◌≤◌, ◌≡◌, refl, ap, ◌∙◌, ◌≢◌, ◌⊎◌, inl, inr, Bool, true, false, Option, none, some, List, [],
  ◌∷◌, arith,
}
use wacli.AppState.Intents.{
  Tables, Error, any_intent, of_collection, recovery_required, clear_generation,
}
use wacli.AppState.Intents.Durable.{Op}
use wacli.Recovery.State.{
  Entry, fetched, replayed, restored, App, set_full_sync_result, load_results,
}
use wacli.Recovery.Steps.{
  FetchError, FetchAnswer, StepError, after_all, note_result, logged, entry_of, fetch_and_persist,
  clear_completed, cleared_or, still_required, Primary, refused, silent, answered, SnapshotAnswer,
  adopt_late, restored_or, on_primary, recover_mismatching, persistence_error,
}
use wacli.Recovery.Steps.Carries.{clear_completed-entries}
use wacli.Recovery.Steps.Owing.{IsIdle, IsOwing, after_all-IsOwing}

-- The latest entry is of the collection, and was made since.
pub record IsFresh (k : Text) (a b : App) : Type 0 where
  pub entry : Entry
  pub rest : List Entry
  pub latest : b.entries ≡ entry ∷ rest
  pub of_it : (entry ≡ fetched k) ⊎ ((entry ≡ replayed k) ⊎ (entry ≡ restored k))
  pub since : length a.entries ≤ length rest

pub IsFresh-same :
    {k : Text} {a b : App} (d : App) → d.entries ≡ b.entries → IsFresh k a b → IsFresh k a d
IsFresh-same d same h = record {
  entry = h.entry;
  rest = h.rest;
  latest = same ∙ h.latest;
  of_it = h.of_it;
  since = h.since;
}

pub IsFresh-from :
    {k : Text} {b d : App} (a : App)
    → length a.entries ≤ length b.entries
    → IsFresh k b d
    → IsFresh k a d
IsFresh-from a le h = record {
  entry = h.entry;
  rest = h.rest;
  latest = h.latest;
  of_it = h.of_it;
  since = omega (arith, le, h.since);
}

-- What a step leaves: fresh data of the collection, or a debt.
abbrev pub StepOutcome : Text → App → Option StepError → App → Type 0
StepOutcome k a none b = IsFresh k a b
StepOutcome k a (some e) b = IsOwing k b

pub record StepGood (k : Text) (a : App) (o : Option StepError) (b : App) : Type 0 where
  pub grows : length a.entries ≤ length b.entries
  pub outcome : StepOutcome k a o b

module _ (k : Text) (named : trim_space k ≢ []) where
  still_required-outcome :
      (a b : App)
      → IsFresh k a b
      → StepOutcome k a (still_required (recovery_required k b.tables)) b
  unfolding still_required recovery_required
  still_required-outcome a b h = elim (Bool-cases (text_eq (trim_space k) [])) [
    | inl e ↦ absurd (named ((text_eq_iff (trim_space k) []).0 e))
    | inr e ↦ elim (Bool-cases (any_intent (of_collection (trim_space k)) b.tables.intents)) [
      | inl y ↦ rw (e, y) y
      | inr n ↦ rw (e, n) h
    ]
  ]

  cleared_or-outcome :
      (between : List Op) (r : Result Error Bool) (a b : App)
      → ((e : Error) → r ≢ err e)
      → IsFresh k a b
      → StepOutcome k a (cleared_or k between r b).0 (cleared_or k between r b).1
  unfolding cleared_or
  cleared_or-outcome between (err e) a b fine h = absurd (fine e refl)
  cleared_or-outcome between (ok true) a b fine h = h
  cleared_or-outcome between (ok false) a b fine h =
      still_required-outcome a (after_all between b) (IsFresh-same (after_all between b) refl h)

  clear_generation-ok : (n : ℕ) (d : Tables) (e : Error) → (clear_generation k n d).0 ≢ err e
  unfolding clear_generation
  clear_generation-ok n d e h = ground (arith, text_eq_iff (trim_space k) [])

  pub clear_completed-StepGood :
      (n : ℕ) (between : List Op) (a b : App)
      → IsFresh k a b
      → StepGood k a (clear_completed k n between b).0 (clear_completed k n between b).1
  clear_completed-StepGood n between a b h = record {
    grows = rw (clear_completed-entries k n between b) (rw h.latest (omega (arith, h.since)));
    outcome =
        unfold clear_completed in
        cleared_or-outcome between (clear_generation k n b.tables).0 a
          (record b { tables = (clear_generation k n b.tables).1 }) (clear_generation-ok n b.tables)
          (IsFresh-same (record b { tables = (clear_generation k n b.tables).1 }) refl h);
  }

  restored_or-StepGood :
      (n : ℕ) (s : SnapshotAnswer) (o : Option ℕ) (a : App)
      → IsOwing k a
      → StepGood k a (restored_or k n s o a).0 (restored_or k n s o a).1
  unfolding restored_or
  restored_or-StepGood n s (some e) a h = record { grows = omega arith; outcome = h }
  restored_or-StepGood n s none a h =
      clear_completed-StepGood n s.between a (record a { entries = restored k ∷ a.entries })
        (record {
          entry = restored k;
          rest = a.entries;
          latest = refl;
          of_it = inr (inr refl);
          since = omega arith;
        })

  adopt_late-same :
      (n : ℕ) (a : App)
      → ((adopt_late k n a).entries ≡ a.entries) × ((adopt_late k n a).tables ≡ a.tables)
  unfolding adopt_late
  adopt_late-same n a = (ground arith, ground arith)

  adopt_late-StepGood :
      (n : ℕ) (e : StepError) (a : App) → IsOwing k a → StepGood k a (some e) (adopt_late k n a)
  adopt_late-StepGood n e a h =
      let (entries, tables) = adopt_late-same n a in
      record {
        grows = rw entries (omega arith);
        outcome =
            ap (λ (d : Tables). any_intent (of_collection (trim_space k)) d.intents) tables ∙ h;
      }

  on_primary-StepGood :
      (n : ℕ) (s : SnapshotAnswer) (w : Option ℕ) (p : Primary) (a : App)
      → IsOwing k a
      → StepGood k a (on_primary k n s w p a).0 (on_primary k n s w p a).1
  unfolding on_primary
  on_primary-StepGood n s (some e) (refused r) a h = record { grows = omega arith; outcome = h }
  on_primary-StepGood n s none (refused r) a h = record { grows = omega arith; outcome = h }
  on_primary-StepGood n s (some e) silent a h = adopt_late-StepGood n _ a h
  on_primary-StepGood n s none silent a h = adopt_late-StepGood n _ a h
  on_primary-StepGood n s (some e) (answered events) a h = record {
    grows = omega arith;
    outcome = h;
  }
  on_primary-StepGood n s none (answered events) a h = restored_or-StepGood n s _ a h

  -- Asking the primary brings its snapshot, or leaves the debt.
  pub recover_mismatching-StepGood :
      (n : ℕ) (s : SnapshotAnswer) (a : App)
      → IsIdle (trim_space k) s.meanwhile
      → IsOwing k a
      → StepGood k a (recover_mismatching k n s a).0 (recover_mismatching k n s a).1
  unfolding recover_mismatching
  recover_mismatching-StepGood n s a idle h =
      let later : App = after_all s.meanwhile (record a { now = a.now + s.took }) in
      let r =
        on_primary-StepGood n s s.wait_error s.primary later
          (after_all-IsOwing k s.meanwhile (record a { now = a.now + s.took }) idle h) in
      record {
        grows = r.grows;
        outcome = same_outcome (on_primary k n s s.wait_error s.primary later).0 r.outcome;
      }
    where
      same_outcome :
          (o : Option StepError)
          → StepOutcome k
              (after_all s.meanwhile (record a { now = a.now + s.took }))
              o
              (on_primary k n s s.wait_error s.primary
                (after_all s.meanwhile (record a { now = a.now + s.took }))).1
          → StepOutcome k a o
              (on_primary k n s s.wait_error s.primary
                (after_all s.meanwhile (record a { now = a.now + s.took }))).1
      same_outcome none q = IsFresh-from a (omega arith) q
      same_outcome (some e) q = q

note_result-same :
    (k : Text) (full : Bool) (o : Option FetchError) (f : FetchAnswer) (a : App)
    → (if full then note_result k o f a else a).entries ≡ a.entries
unfolding note_result set_full_sync_result load_results
note_result-same k false o f a = refl
note_result-same k true none f a = ground arith
note_result-same k true (some e) f a = ground arith

entry_of-of_it :
    (k : Text) (full : Bool)
    → (entry_of full k ≡ fetched k)
      ⊎ ((entry_of full k ≡ replayed k) ⊎ (entry_of full k ≡ restored k))
entry_of-of_it k true = inr (inl refl)
entry_of-of_it k false = inl refl

logged-IsFresh :
    (k : Text) (full : Bool) (o : Option FetchError) (p : Option ℕ) (a b : App)
    → b.entries ≡ a.entries
    → (length a.entries ≤ length (logged (entry_of full k) o p b).entries)
      × (o ≡ none → p ≡ none → IsFresh k a (logged (entry_of full k) o p b))
unfolding logged
logged-IsFresh k full none none a b e = (
  rw e (omega arith),
  λ x y. record {
    entry = entry_of full k;
    rest = b.entries;
    latest = refl;
    of_it = entry_of-of_it k full;
    since = rw e (omega arith);
  },
)
logged-IsFresh k full none (some p) a b e = (rw e (omega arith), λ x y. absurd cc)
logged-IsFresh k full (some f) p a b e = (rw e (omega arith), λ x y. absurd cc)

-- A fetch loses no entry, and one without an error makes one.
pub fetch_and_persist-IsFresh :
    (k : Text) (full : Bool) (f : FetchAnswer) (a : App)
    → (length a.entries ≤ length (fetch_and_persist k full f a).1.entries)
      × ((fetch_and_persist k full f a).0.0 ≡ none
          → (fetch_and_persist k full f a).0.1 ≡ none
          → IsFresh k a (fetch_and_persist k full f a).1)
unfolding fetch_and_persist
fetch_and_persist-IsFresh k full f a =
    let noted : App = if full then note_result k f.error f a else a in
    logged-IsFresh k full f.error (persistence_error f.wait_error f.events) a
      (after_all f.meanwhile (record noted { now = noted.now + f.took }))
      (note_result-same k full f.error f a)

logged-now :
    (e : Entry) (o : Option FetchError) (p : Option ℕ) (a : App) → (logged e o p a).now ≡ a.now
unfolding logged
logged-now e none none a = refl
logged-now e none (some p) a = refl
logged-now e (some f) p a = refl

note_result-now :
    (k : Text) (full : Bool) (o : Option FetchError) (f : FetchAnswer) (a : App)
    → (if full then note_result k o f a else a).now ≡ a.now
unfolding note_result set_full_sync_result load_results
note_result-now k false o f a = refl
note_result-now k true none f a = ground arith
note_result-now k true (some e) f a = ground arith

-- Time does not go back over a fetch.
pub fetch_and_persist-now :
    (k : Text) (full : Bool) (f : FetchAnswer) (a : App)
    → a.now ≤ (fetch_and_persist k full f a).1.now
unfolding fetch_and_persist
fetch_and_persist-now k full f a =
    let noted : App = if full then note_result k f.error f a else a in
    let done : App = after_all f.meanwhile (record noted { now = noted.now + f.took }) in
    omega (
      arith,
      logged-now (entry_of full k) f.error (persistence_error f.wait_error f.events) done,
      note_result-now k full f.error f a,
    )
