-- ===== src/Recovery/Steps/Owing.antt =====
-- A collection that must be recovered through the steps of a repair.
use wacli.Common.{
  if◌then◌else◌, Bool-cases, ==_iff, All, Text, text_eq, text_eq_refl, trim_space, ℕ, ◌+◌, ◌≡◌,
  refl, inl, inr, Bool, true, false, Option, none, some, List, [], ◌∷◌, arith,
}
use wacli.AppState.Intents.{Intent, any_intent, of_collection, set_broken}
use wacli.AppState.Intents.Laws.{pending, is_intent}
use wacli.AppState.Intents.Durable.{
  Op, marks, begins, clears_required, clears_generation, clears_intent, flags, run, covers,
  run_durable,
}
use wacli.Recovery.State.{Entry, App, set_full_sync_result, load_results}
use wacli.Recovery.Steps.{
  FetchError, FetchAnswer, after_all, note_result, logged, entry_of, fetch_and_persist,
  persistence_error,
}
use wacli.Recovery.Steps.Carries.{pending-of_collection}

-- May the operation erase an intent of the collection?
abbrev pub clears : Op → Text → Bool
clears (clears_required j) c = text_eq (trim_space j) c
clears (clears_generation j n) c = text_eq (trim_space j) c
clears (clears_intent j n) c = text_eq (trim_space j) c
clears _ c = false

abbrev pub IsIdle : Text → List Op → Type 0
IsIdle c ops = All (λ op. clears op c ≡ false) ops

covers-clears : (op : Op) (c : Text) (g : ℕ) → clears op c ≡ false → covers op c g ≡ false
covers-clears (marks cs) c g h = refl
covers-clears (begins j) c g h = refl
covers-clears (clears_required j) c g h = h
covers-clears (clears_generation j n) c g h = ground (arith, h)
covers-clears (clears_intent j n) c g h = ground (arith, h)
covers-clears (flags now j b) c g h = refl

IsIdle-covers :
    (ops : List Op) (c : Text) (g : ℕ) → IsIdle c ops → All (λ op. covers op c g ≡ false) ops
IsIdle-covers [] c g h = tt
IsIdle-covers (op ∷ ops) c g (p, h) = (covers-clears op c g p, IsIdle-covers ops c g h)

of_collection-pending :
    (c : Text) (rs : List Intent)
    → any_intent (of_collection c) rs ≡ true
    → (g : ℕ) × (any_intent (is_intent c g) rs ≡ true)
unfolding any_intent
of_collection-pending c [] h = absurd cc
of_collection-pending c (r ∷ rs) h = elim (Bool-cases (text_eq r.collection c)) [
  | inl y ↦ (r.id, ground (arith, ==_iff r.id r.id))
  | inr n ↦
      let (g, found) = of_collection-pending c rs (ground (arith, h)) in (g, ground (arith, found))
]

-- The collection has an intent.
abbrev pub IsOwing : Text → App → Type 0
IsOwing k a = any_intent (of_collection (trim_space k)) a.tables.intents ≡ true

module _ (k : Text) where
  pub after_all-IsOwing :
      (ops : List Op) (a : App)
      → IsIdle (trim_space k) ops
      → IsOwing k a
      → IsOwing k (after_all ops a)
  after_all-IsOwing ops a idle h =
      let (g, found) = of_collection-pending (trim_space k) a.tables.intents h in
      pending-of_collection (trim_space k) (trim_space k) g (run ops a.tables).intents
        (unfold pending in
          run_durable ops a.tables (trim_space k) g found (IsIdle-covers ops (trim_space k) g idle))
        (text_eq_refl (trim_space k))

  note_result-IsOwing :
      (o : Option FetchError) (f : FetchAnswer) (a : App)
      → IsOwing k a
      → IsOwing k (note_result k o f a)
  unfolding note_result set_full_sync_result load_results set_broken
  note_result-IsOwing none f a h = ground arith
  note_result-IsOwing (some e) f a h = ground arith

  logged-IsOwing :
      (e : Entry) (o : Option FetchError) (p : Option ℕ) (a : App)
      → IsOwing k a
      → IsOwing k (logged e o p a)
  unfolding logged
  logged-IsOwing e none none a h = h
  logged-IsOwing e none (some p) a h = h
  logged-IsOwing e (some f) p a h = h

  noted-IsOwing :
      (full : Bool) (o : Option FetchError) (f : FetchAnswer) (a : App)
      → IsOwing k a
      → IsOwing k (if full then note_result k o f a else a)
  noted-IsOwing true o f a h = note_result-IsOwing o f a h
  noted-IsOwing false o f a h = h

  pub fetch_and_persist-IsOwing :
      (full : Bool) (f : FetchAnswer) (a : App)
      → IsIdle (trim_space k) f.meanwhile
      → IsOwing k a
      → IsOwing k (fetch_and_persist k full f a).1
  unfolding fetch_and_persist
  fetch_and_persist-IsOwing full f a idle h =
      let noted : App = if full then note_result k f.error f a else a in
      let later : App = record noted { now = noted.now + f.took } in
      logged-IsOwing (entry_of full k) f.error (persistence_error f.wait_error f.events)
        (after_all f.meanwhile later)
        (after_all-IsOwing f.meanwhile later idle (noted-IsOwing full f.error f a h))
