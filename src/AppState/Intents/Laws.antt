-- ===== src/AppState/Intents/Laws.antt =====
-- The recovery intents seen as a set of pairs of a collection and a generation: what each operation
-- does to it.
use wacli.Common.{
  ℕ, ◌+◌, ◌≤◌, ◌<◌, ◌≡◌, ◌≢◌, refl, Bool, false, not, ◌&&◌, ◌||◌, List, [], ◌∷◌, ◌++◌, arith, leb,
  ltb, ◌==◌, if◌then◌else◌, Text, text_eq, text_eq_iff, trim_space, ok, All,
}
use wacli.AppState.Intents.{
  Intent, Tables, any_intent, delete_intents, of_collection, begin_recovery, recovery_required,
  clear_generation,
}

abbrev pub is_intent : Text → ℕ → Intent → Bool
is_intent c g r = text_eq r.collection c && (r.id == g)

-- Is generation `g` of the collection pending?
unfoldable pub pending : Text → ℕ → Tables → Bool
pending c g d = any_intent (is_intent c g) d.intents

-- Every generation given is at most `seq`.
abbrev pub IsWellFormed : Tables → Type 0
IsWellFormed d = All (λ r. r.id ≤ d.seq) d.intents

pub any_intent-append :
    (p : Intent → Bool) (rs : List Intent) (r : Intent)
    → any_intent p (rs ++ r ∷ []) ≡ (any_intent p rs || p r)
unfolding any_intent
any_intent-append p [] r = ground arith
any_intent-append p (x ∷ rs) r = ground (arith, any_intent-append p rs r)

pub pending-delete_generation :
    (c c' : Text) (g g' : ℕ) (rs : List Intent)
    → any_intent (is_intent c' g') (delete_intents (λ r. of_collection c r && leb r.id g) rs)
      ≡ (if text_eq c c' && leb g' g then false else any_intent (is_intent c' g') rs)
unfolding any_intent delete_intents
pending-delete_generation c c' g g' [] = ground arith
pending-delete_generation c c' g g' (r ∷ rs) = ground (
  arith,
  pending-delete_generation c c' g g' rs,
  text_eq_iff c c',
  text_eq_iff r.collection c,
  text_eq_iff r.collection c',
)

pub pending-delete_intent :
    (c c' : Text) (g g' : ℕ) (rs : List Intent)
    → any_intent (is_intent c' g') (delete_intents (λ r. of_collection c r && (r.id == g)) rs)
      ≡ (if text_eq c c' && (g' == g) then false else any_intent (is_intent c' g') rs)
unfolding any_intent delete_intents
pending-delete_intent c c' g g' [] = ground arith
pending-delete_intent c c' g g' (r ∷ rs) = ground (
  arith,
  pending-delete_intent c c' g g' rs,
  text_eq_iff c c',
  text_eq_iff r.collection c,
  text_eq_iff r.collection c',
)

pub pending-delete_collection :
    (c c' : Text) (g' : ℕ) (rs : List Intent)
    → any_intent (is_intent c' g') (delete_intents (of_collection c) rs)
      ≡ (if text_eq c c' then false else any_intent (is_intent c' g') rs)
unfolding any_intent delete_intents
pending-delete_collection c c' g' [] = ground arith
pending-delete_collection c c' g' (r ∷ rs) = ground (
  arith,
  pending-delete_collection c c' g' rs,
  text_eq_iff c c',
  text_eq_iff r.collection c,
  text_eq_iff r.collection c',
)

-- What is left of a collection after clearing a generation is what is newer.
any_intent-newer :
    (c : Text) (g : ℕ) (rs : List Intent)
    → any_intent (of_collection c) (delete_intents (λ r. of_collection c r && leb r.id g) rs)
      ≡ any_intent (λ r. of_collection c r && ltb g r.id) rs
unfolding any_intent delete_intents
any_intent-newer c g [] = refl
any_intent-newer c g (r ∷ rs) = ground (arith, any_intent-newer c g rs)

-- An id above all others is not among them.
any_intent-others :
    (c : Text) (g : ℕ) (rs : List Intent)
    → All (λ r. r.id < g) rs
    → any_intent (λ r. of_collection c r && not (r.id == g)) rs ≡ any_intent (of_collection c) rs
unfolding any_intent
any_intent-others c g [] h = refl
any_intent-others c g (r ∷ rs) (lt, h) = ground (arith, any_intent-others c g rs h)

All-lt : (n : ℕ) (rs : List Intent) → All (λ r. r.id ≤ n) rs → All (λ r. r.id < n + 1) rs
All-lt n [] h = tt
All-lt n (r ∷ rs) (le, h) = (omega arith, All-lt n rs h)

-- Beginning a recovery of a named collection gives a generation above all earlier ones, reports
-- whether an intent of the collection was pending before, and adds exactly its own generation.
pub begin_recovery_lem :
    (collection : Text) (d : Tables)
    → trim_space collection ≢ []
    → IsWellFormed d
    → (required : Bool) × (recovery_required collection d ≡ ok required)
      × ((begin_recovery collection d).0 ≡ ok (d.seq + 1, required))
      × All (λ r. r.id < d.seq + 1) d.intents
      × ((c' : Text) (g' : ℕ)
          → pending c' g' (begin_recovery collection d).1
            ≡ (pending c' g' d || (text_eq (trim_space collection) c' && (d.seq + 1 == g'))))
unfolding pending recovery_required begin_recovery
begin_recovery_lem collection d named wf =
    let c = trim_space collection in
    let new : Intent = record { id = d.seq + 1; collection = c } in
    let older = any_intent-others c (d.seq + 1) d.intents (All-lt d.seq d.intents wf) in
    (
      any_intent (of_collection c) d.intents,
      ground (arith, text_eq_iff c []),
      ground (
        arith,
        text_eq_iff c [],
        older,
        any_intent-append (λ r. of_collection c r && not (r.id == d.seq + 1)) d.intents new,
      ),
      All-lt d.seq d.intents wf,
      λ c' g'. ground (arith, text_eq_iff c [], any_intent-append (is_intent c' g') d.intents new),
    )

-- Clearing up to a generation of a named collection removes that collection's intents up to it and
-- no other, and answers true exactly when no newer intent of the collection was there.
pub clear_generation_lem :
    (collection : Text) (g : ℕ) (d : Tables)
    → trim_space collection ≢ []
    → ((clear_generation collection g d).0
        ≡ ok (
            not
              (any_intent (λ r. of_collection (trim_space collection) r && ltb g r.id) d.intents)))
      × ((c' : Text) (g' : ℕ)
          → pending c' g' (clear_generation collection g d).1
            ≡ (if text_eq (trim_space collection) c' && leb g' g then false else pending c' g' d))
unfolding pending clear_generation
clear_generation_lem collection g d named =
    let c = trim_space collection in
    (
      ground (arith, text_eq_iff c [], any_intent-newer c g d.intents),
      λ c' g'. ground (arith, text_eq_iff c [], pending-delete_generation c c' g g' d.intents),
    )
