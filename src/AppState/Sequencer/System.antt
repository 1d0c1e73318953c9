-- ===== src/AppState/Sequencer/System.antt =====
-- The interleavings of the callers of `appStatePersistenceSequencer` and its drainers, and the
-- invariant of every reachable state.
use wacli.Common.{
  ℕ, zero, suc, ◌≤◌, ◌<◌, ◌≡◌, ◌≢◌, Bool, true, false, none, some, List, [], ◌∷◌, ◌++◌,
}
use wacli.AppState.Sequencer.{
  Sequencer, Drainer, at_top, in_run, Completed, empty, reserve_task, complete_task, is_ready,
  drain_step,
}

pub record System : Type 0 where
  pub seq : Sequencer
  pub drainers : List Drainer

abbrev pub init : System
init = record { seq = empty; drainers = [] }

-- A caller reserves or completes a ticket, or one drainer moves.
pub data Step (s : System) : System → Type 0 where
  reserves :
      (blocks : Bool)
      → Step s (record { seq = (reserve_task blocks s.seq).1; drainers = s.drainers })
  completes :
      (ticket : ℕ) (include : Bool) (c : Completed)
      → complete_task ticket include s.seq ≡ some c
      → Step s (record { seq = c.seq; drainers = c.drainers ++ s.drainers })
  drains :
      (before after : List Drainer) (d : Drainer)
      → s.drainers ≡ before ++ d ∷ after
      → Step s (record {
        seq = (drain_step d s.seq).1;
        drainers = before ++ (drain_step d s.seq).0 ++ after;
      })

pub data Reach : System → Type 0 where
  start : Reach init
  later : {s t : System} → Reach s → Step s t → Reach t

-- [n - 1, …, 0]: the tickets below `n`, the latest first.
abbrev pub below : ℕ → List ℕ
below zero = []
below (suc n) = n ∷ below n

-- What the single drainer knows; `k` tickets have been handed to `task.run()`.
abbrev pub DrainerFits : Sequencer → Drainer → Type 0
DrainerFits s (at_top f) = (f < s.next) × (s.ran ≡ below s.serving)
DrainerFits s (in_run f) =
    (f < s.next) × (s.ran ≡ below (suc s.serving)) × (is_ready (s.tasks s.serving) ≡ true)

abbrev pub Fits : Sequencer → List Drainer → Type 0
Fits s [] = (s.running ≡ false) × (s.ran ≡ below s.serving) × (is_ready (s.tasks s.serving) ≡ false)
Fits s (d ∷ []) = (s.running ≡ true) × DrainerFits s d
Fits s (d ∷ e ∷ ds) = ⊥

pub record Inv (s : System) : Type 0 where
  pub gone : (c : ℕ) → c < s.seq.serving → s.seq.tasks c ≡ none
  pub live : (c : ℕ) → s.seq.serving ≤ c → c < s.seq.next → s.seq.tasks c ≢ none
  pub fresh : (c : ℕ) → s.seq.next ≤ c → s.seq.tasks c ≡ none
  pub bounded : s.seq.serving ≤ s.seq.next
  pub fits : Fits s.seq s.drainers
