-- ===== src/AppState/Sequencer/Invariant.antt =====
-- Every step of the interleaved system keeps the invariant.
use wacli.Common.{
  ℕ, zero, suc, ◌+◌, ◌-◌, ◌≤◌, ◌<◌, ◌≡◌, ◌≢◌, refl, inl, inr, Bool, true, Option, none, some, List,
  [], ◌∷◌, ◌++◌, arith, Option-cases, le_or_lt,
}
use mathlib.Core.List.{append-nil}
use wacli.AppState.Sequencer.{
  Task, Scan, Drainer, at_top, in_run, Completed, update, reserve_task, scan_task, scan, frontiers,
  completed, complete_task, drain_step,
}
use wacli.AppState.Sequencer.System.{
  System, init, Step, reserves, completes, drains, Reach, start, later, Fits, Inv,
}

-- Both frontiers stay below the next ticket.
module _ (n : ℕ) (include : Bool) (tasks : ℕ → Option Task) where
  abbrev Below : Scan → Type 0
  Below f = (f.wait_frontier < n) × (f.drain_frontier < n)

  scan_task-Below :
      (c : ℕ) (t : Option Task) (f g : Scan)
      → c < n
      → Below f
      → scan_task include c t f ≡ some g
      → Below g
  unfolding scan_task
  scan_task-Below c none f g lt h e = cc
  scan_task-Below c (some t) f g lt h e = ground arith

  pub scan-Below : (k c : ℕ) (f : Scan) → c + k ≤ n → Below f → Below (scan k include c tasks f)
  unfolding scan
  scan-Below zero c f le h = h
  scan-Below (suc k) c f le h = elim (Option-cases (scan_task include c (tasks c) f)) [
    | inl e ↦ rw (e, scan) h
    | inr (g, e) ↦
        rw (e, scan)
          (scan-Below k (suc c) g (omega arith) (scan_task-Below c (tasks c) f g (omega arith) h e))
  ]

Inv-init : Inv init
Inv-init = record {
  gone = λ c h. refl;
  live = λ c h k. absurd (omega arith);
  fresh = λ c h. refl;
  bounded = omega arith;
  fits = (refl, refl, refl);
}

module _ {s : System} (inv : Inv s) where
  open inv use {gone, live, fresh, bounded, fits}

  pub below-next : (c : ℕ) → s.seq.tasks c ≢ none → c < s.seq.next
  below-next c h = elim (le_or_lt s.seq.next c) [ inl le ↦ absurd (h (fresh c le)) | inr lt ↦ lt ]

  Reserve-Fits :
      (ds : List Drainer) (blocks : Bool) → Fits s.seq ds → Fits (reserve_task blocks s.seq).1 ds
  unfolding reserve_task
  Reserve-Fits [] blocks h = ground (arith, bounded)
  Reserve-Fits (at_top f ∷ []) blocks h = ground (arith, bounded)
  Reserve-Fits (in_run f ∷ []) blocks h = ground (arith, bounded, fresh s.seq.next)
  Reserve-Fits (x ∷ y ∷ ds) blocks h = h

  Reserve-Inv :
      (blocks : Bool) → Inv (record { seq = (reserve_task blocks s.seq).1; drainers = s.drainers })
  unfolding reserve_task
  Reserve-Inv blocks = record {
    gone = λ c h. ground (arith, gone c, bounded);
    live = λ c h k. ground (arith, live c, bounded);
    fresh = λ c h. ground (arith, fresh c);
    bounded = omega (arith, bounded);
    fits = Reserve-Fits s.drainers blocks fits;
  }

  -- A completed ticket had a task, and the result is the one on that task.
  pub complete_task-some :
      (ticket : ℕ) (include : Bool) (c : Completed)
      → complete_task ticket include s.seq ≡ some c
      → (t : Task) × (s.seq.tasks ticket ≡ some t) × (c ≡ completed ticket include t s.seq)
  unfolding complete_task
  complete_task-some ticket include c e = elim (Option-cases (s.seq.tasks ticket)) [
    | inl missing ↦ absurd (cc missing)
    | inr (t, here) ↦ (t, here, cc here)
  ]

  pub frontiers-Below :
      (ticket : ℕ) (include : Bool) (tasks : ℕ → Option Task)
      → ticket < s.seq.next
      → Below s.seq.next include tasks (frontiers ticket include tasks s.seq.next)
  unfolding frontiers
  frontiers-Below ticket include tasks lt =
      scan-Below s.seq.next include tasks (s.seq.next - (ticket + 1)) (ticket + 1) _ (omega arith)
        (lt, lt)

  Complete-Fits :
      (ds : List Drainer) (ticket : ℕ) (include : Bool) (t : Task)
      → Fits s.seq ds
      → s.seq.tasks ticket ≡ some t
      → Fits
          (completed ticket include t s.seq).seq
          ((completed ticket include t s.seq).drainers ++ ds)
  unfolding completed
  Complete-Fits [] ticket include t h e = ground (
    arith,
    below-next ticket,
    frontiers-Below ticket include (update s.seq.tasks ticket (some (record t { ready = true }))),
  )
  Complete-Fits (at_top f ∷ []) ticket include t h e = ground arith
  Complete-Fits (in_run f ∷ []) ticket include t h e = ground arith
  Complete-Fits (x ∷ y ∷ ds) ticket include t h e = absurd h

  Complete-Inv :
      (ticket : ℕ) (include : Bool) (c : Completed)
      → complete_task ticket include s.seq ≡ some c
      → Inv (record { seq = c.seq; drainers = c.drainers ++ s.drainers })
  unfolding completed
  Complete-Inv ticket include c e =
      let (t, here, same) = complete_task-some ticket include c e in
      rw same (record {
        gone = λ k h. ground (arith, gone k, gone ticket, here);
        live = λ k h l. ground (arith, live k);
        fresh = λ k h. ground (arith, fresh k, fresh ticket, here);
        bounded = bounded;
        fits = Complete-Fits s.drainers ticket include t fits here;
      })

  -- A drainer that is one of at most one is the only one.
  Fits-single :
      (before after : List Drainer) (d : Drainer)
      → Fits s.seq (before ++ d ∷ after)
      → (before ≡ []) × (after ≡ [])
  Fits-single [] [] d h = (refl, refl)
  Fits-single [] (e ∷ after) d h = absurd h
  Fits-single (x ∷ []) after d h = absurd h
  Fits-single (x ∷ y ∷ before) after d h = absurd h

  Drain-Fits :
      (d : Drainer) → Fits s.seq (d ∷ []) → Fits (drain_step d s.seq).1 (drain_step d s.seq).0
  unfolding drain_step
  Drain-Fits (at_top f) h = ground (arith, bounded, fresh s.seq.serving)
  Drain-Fits (in_run f) h = ground (arith, fresh s.seq.serving, bounded)

  Drain-Inv :
      (d : Drainer)
      → Fits s.seq (d ∷ [])
      → Inv (record { seq = (drain_step d s.seq).1; drainers = (drain_step d s.seq).0 })
  unfolding drain_step
  Drain-Inv (at_top f) h = record {
    gone = λ c k. ground (arith, gone c);
    live = λ c k l. ground (arith, live c);
    fresh = λ c k. ground (arith, fresh c);
    bounded = ground (arith, bounded);
    fits = Drain-Fits (at_top f) h;
  }
  Drain-Inv (in_run f) h = record {
    gone = λ c k. ground (arith, gone c);
    live = λ c k l. ground (arith, live c);
    fresh = λ c k. ground (arith, fresh c);
    bounded = omega (arith, below-next s.seq.serving (λ e. cc (e, h.1.2)));
    fits = Drain-Fits (in_run f) h;
  }

  pub Step-Inv : {t : System} → Step s t → Inv t
  Step-Inv (reserves blocks) = Reserve-Inv blocks
  Step-Inv (completes ticket include c e) = Complete-Inv ticket include c e
  Step-Inv (drains before after d e) =
      let single : Fits s.seq (before ++ d ∷ after) = rw (← e) fits in
      let (no_before, no_after) = Fits-single before after d single in
      rw (no_before, no_after, append-nil) (Drain-Inv d (rw (no_before, no_after) at single))

pub Reach-Inv : {s : System} → Reach s → Inv s
Reach-Inv start = Inv-init
Reach-Inv (later r st) = Step-Inv (Reach-Inv r) st
