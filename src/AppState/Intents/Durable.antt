-- ===== src/AppState/Intents/Durable.antt =====
-- Sequences of operations on the recovery intents: an intent stays until an operation that covers
-- it, and a generation that is gone never comes back.
use wacli.Common.{
  ℕ, zero, suc, ◌+◌, ◌≤◌, ◌≡◌, refl, inl, inr, Bool, true, false, not, ◌&&◌, List, [], ◌∷◌, arith,
  leb, ◌==◌, Bool-cases, Text, text_eq, trim_space, Result, ok, err, All, All-append,
}
use wacli.AppState.Intents.{
  Intent, Tables, Error, insert_intent, delete_intents, of_collection, committed, mark_loop,
  mark_generations, begin_recovery, clear_required, clear_generation, clear_intent, set_broken,
}
use wacli.AppState.Intents.Laws.{
  is_intent, pending, IsWellFormed, any_intent-append, pending-delete_generation,
  pending-delete_intent, pending-delete_collection,
}

pub data Op : Type 0 where
  marks : List Text → Op
  begins : Text → Op
  clears_required : Text → Op
  clears_generation : Text → ℕ → Op
  clears_intent : Text → ℕ → Op
  flags : ℕ → Text → Bool → Op

unfoldable pub apply : Op → Tables → Tables
apply (marks cs) d = (mark_generations cs d).1
apply (begins c) d = (begin_recovery c d).1
apply (clears_required c) d = (clear_required c d).1
apply (clears_generation c g) d = (clear_generation c g d).1
apply (clears_intent c g) d = (clear_intent c g d).1
apply (flags now c b) d = (set_broken now c b d).1

unfoldable pub run : List Op → Tables → Tables
unfolding apply
run [] d = d
run (op ∷ ops) d = run ops (apply op d)

-- May the operation erase generation `g` of collection `c`?
abbrev pub covers : Op → Text → ℕ → Bool
covers (clears_required k) c g = text_eq (trim_space k) c
covers (clears_generation k n) c g = text_eq (trim_space k) c && leb g n
covers (clears_intent k n) c g = text_eq (trim_space k) c && (g == n)
covers _ c g = false

-- From `d` to `e` ids only grow, and no earlier generation appears.
record Grew (d e : Tables) : Type 0 where
  seq_le : d.seq ≤ e.seq
  wf : IsWellFormed d → IsWellFormed e
  old : (c : Text) (g : ℕ) → g ≤ d.seq → pending c g e ≡ true → pending c g d ≡ true

-- … and nothing is lost.
record Kept (d e : Tables) : Type 0 where
  grew : Grew d e
  keeps : (c : Text) (g : ℕ) → pending c g d ≡ true → pending c g e ≡ true

Kept-refl : (d : Tables) → Kept d d
Kept-refl d = record {
  grew = record { seq_le = omega arith; wf = λ h. h; old = λ c g le h. h };
  keeps = λ c g h. h;
}

Kept-trans : {a b c : Tables} → Kept a b → Kept b c → Kept a c
Kept-trans h k = record {
  grew = record {
    seq_le = omega (arith, h.grew.seq_le, k.grew.seq_le);
    wf = λ w. k.grew.wf (h.grew.wf w);
    old = λ x g le p. h.grew.old x g le (k.grew.old x g (omega (arith, h.grew.seq_le)) p);
  };
  keeps = λ x g p. k.keeps x g (h.keeps x g p);
}

All-weaken : (n m : ℕ) (rs : List Intent) → n ≤ m → All (λ r. r.id ≤ n) rs → All (λ r. r.id ≤ m) rs
All-weaken n m [] le h = tt
All-weaken n m (r ∷ rs) le (p, h) = (omega arith, All-weaken n m rs le h)

insert_intent-Kept : (c : Text) (d : Tables) → Kept d (insert_intent c d).1
unfolding insert_intent pending
insert_intent-Kept c d =
    let new : Intent = record { id = d.seq + 1; collection = c } in
    record {
      grew = record {
        seq_le = omega arith;
        wf = λ w.
            All-append (λ r. r.id ≤ d.seq + 1) d.intents (new ∷ [])
              (All-weaken d.seq (d.seq + 1) d.intents (omega arith) w) (omega arith, tt);
        old = λ k g le h. ground (arith, any_intent-append (is_intent k g) d.intents new);
      };
      keeps = λ k g h. ground (arith, any_intent-append (is_intent k g) d.intents new);
    }

committed-Kept {ℓ} :
    {A : Type ℓ} (d : Tables) (r : Result Error (A × Tables))
    → ((a : A) (e : Tables) → r ≡ ok (a, e) → Kept d e)
    → Kept d (committed d r).1
committed-Kept d (ok (a, e)) h = h a e refl
committed-Kept d (err x) h = Kept-refl d

mark_loop-Kept :
    (cs : List Text) (gs gs' : List ℕ) (d e : Tables) → mark_loop cs gs d ≡ ok (gs', e) → Kept d e
unfolding mark_loop
mark_loop-Kept [] gs gs' d e h = let same : d ≡ e = cc in rw (← same) (Kept-refl d)
mark_loop-Kept (c ∷ cs) gs gs' d e h = elim (Bool-cases (text_eq (trim_space c) [])) [
  | inl missing ↦ absurd (cc (h, missing))
  | inr named ↦
      Kept-trans (insert_intent-Kept (trim_space c) d)
        (mark_loop-Kept cs _ gs' _ e (rw (named, mark_loop) at h))
]

All-delete :
    (n : ℕ) (p : Intent → Bool) (rs : List Intent)
    → All (λ r. r.id ≤ n) rs
    → All (λ r. r.id ≤ n) (delete_intents p rs)
unfolding delete_intents
All-delete n p [] h = tt
All-delete n p (r ∷ rs) (le, h) = elim (Bool-cases (p r)) [
  | inl e ↦ rw e (All-delete n p rs h)
  | inr e ↦ rw e (le, All-delete n p rs h)
]

marks-Kept : (cs : List Text) (d : Tables) → Kept d (mark_generations cs d).1
unfolding mark_generations
marks-Kept [] d = Kept-refl d
marks-Kept (c ∷ cs) d =
    committed-Kept d (mark_loop (c ∷ cs) [] d) (λ gs e h. mark_loop-Kept (c ∷ cs) [] gs d e h)

begins-Kept : (c : Text) (d : Tables) → Kept d (begin_recovery c d).1
unfolding begin_recovery
begins-Kept c d = elim (Bool-cases (text_eq (trim_space c) [])) [
  | inl e ↦ rw e (Kept-refl d)
  | inr e ↦ rw e (insert_intent-Kept (trim_space c) d)
]

flags-Kept : (now : ℕ) (c : Text) (b : Bool) (d : Tables) → Kept d (set_broken now c b d).1
unfolding set_broken pending
flags-Kept now c b d = elim (Bool-cases (text_eq (trim_space c) [])) [
  | inl e ↦ rw e (Kept-refl d)
  | inr e ↦ rw e (elim (Bool-cases b) [
    | inl on ↦ rw on (record {
      grew = record { seq_le = omega arith; wf = λ h. h; old = λ c g le h. h };
      keeps = λ c g h. h;
    })
    | inr off ↦ rw off (record {
      grew = record { seq_le = omega arith; wf = λ h. h; old = λ c g le h. h };
      keeps = λ c g h. h;
    })
  ])
]

-- One operation: ids only grow, and what it does not cover stays.
record Moved (op : Op) (d e : Tables) : Type 0 where
  grew : Grew d e
  keeps : (c : Text) (g : ℕ) → covers op c g ≡ false → pending c g d ≡ true → pending c g e ≡ true

Kept-Moved : {op : Op} {d e : Tables} → Kept d e → Moved op d e
Kept-Moved k = record { grew = k.grew; keeps = λ c g n h. k.keeps c g h }

apply-Moved : (op : Op) (d : Tables) → Moved op d (apply op d)
unfolding apply clear_required clear_generation clear_intent pending
apply-Moved (marks cs) d = Kept-Moved (marks-Kept cs d)
apply-Moved (begins c) d = Kept-Moved (begins-Kept c d)
apply-Moved (flags now c b) d = Kept-Moved (flags-Kept now c b d)
apply-Moved (clears_required k) d = elim (Bool-cases (text_eq (trim_space k) [])) [
  | inl e ↦ rw (e, apply) (Kept-Moved (Kept-refl d))
  | inr e ↦
      rw (e, apply)
        (record {
          grew = record {
            seq_le = omega arith;
            wf = All-delete d.seq (of_collection (trim_space k)) d.intents;
            old =
                λ c g le h. ground (arith, pending-delete_collection (trim_space k) c g d.intents);
          };
          keeps = λ c g n h. ground (arith, pending-delete_collection (trim_space k) c g d.intents);
        })
]
apply-Moved (clears_generation k m) d = elim (Bool-cases (text_eq (trim_space k) [])) [
  | inl e ↦ rw (e, apply) (Kept-Moved (Kept-refl d))
  | inr e ↦
      rw (e, apply)
        (record {
          grew = record {
            seq_le = omega arith;
            wf = All-delete d.seq _ d.intents;
            old = λ c g le h.
                ground (arith, pending-delete_generation (trim_space k) c m g d.intents);
          };
          keeps =
              λ c g n h. ground (arith, pending-delete_generation (trim_space k) c m g d.intents);
        })
]
apply-Moved (clears_intent k m) d = elim (Bool-cases (text_eq (trim_space k) [])) [
  | inl e ↦ rw (e, apply) (Kept-Moved (Kept-refl d))
  | inr e ↦
      rw (e, apply)
        (record {
          grew = record {
            seq_le = omega arith;
            wf = All-delete d.seq _ d.intents;
            old = λ c g le h. ground (arith, pending-delete_intent (trim_space k) c m g d.intents);
          };
          keeps = λ c g n h. ground (arith, pending-delete_intent (trim_space k) c m g d.intents);
        })
]

-- A pending intent stays pending through any operations none of which covers it.
pub run_durable :
    (ops : List Op) (d : Tables) (c : Text) (g : ℕ)
    → pending c g d ≡ true
    → All (λ op. covers op c g ≡ false) ops
    → pending c g (run ops d) ≡ true
unfolding run
run_durable [] d c g h all = h
run_durable (op ∷ ops) d c g h (this, all) =
    run_durable ops (apply op d) c g ((apply-Moved op d).keeps c g this h) all

-- A generation that was given and is pending no more is never pending again, whatever operations
-- follow.
pub run_cleared :
    (ops : List Op) (d : Tables) (c : Text) (g : ℕ)
    → g ≤ d.seq
    → pending c g d ≡ false
    → pending c g (run ops d) ≡ false
unfolding run
run_cleared [] d c g le h = h
run_cleared (op ∷ ops) d c g le h =
    let m = apply-Moved op d in
    run_cleared ops (apply op d) c g (omega (arith, m.grew.seq_le))
      (elim (Bool-cases (pending c g (apply op d))) [
        | inl e ↦ absurd (cc (m.grew.old c g le e, h))
        | inr e ↦ e
      ])

-- Every reachable table is well formed.
pub run-IsWellFormed : (ops : List Op) (d : Tables) → IsWellFormed d → IsWellFormed (run ops d)
unfolding run
run-IsWellFormed [] d h = h
run-IsWellFormed (op ∷ ops) d h = run-IsWellFormed ops (apply op d) ((apply-Moved op d).grew.wf h)

-- All names of a batch are given.
abbrev pub all_named : List Text → Bool
all_named [] = true
all_named (c ∷ cs) = not (text_eq (trim_space c) []) && all_named cs

abbrev pub ids_from : ℕ → ℕ → List ℕ
ids_from n zero = []
ids_from n (suc k) = n ∷ ids_from (suc n) k
