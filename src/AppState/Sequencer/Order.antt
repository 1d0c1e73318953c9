-- ===== src/AppState/Sequencer/Order.antt =====
-- What the sequencer promises to its callers: order, exclusion, no task left behind, and what a wait
-- through a frontier has waited for.
use mathlib.Core.List.{Memᴰ}
use wacli.Common.{
  ℕ, zero, suc, ◌+◌, ◌-◌, ◌≤◌, ◌<◌, ◌≡◌, refl, ◌⊎◌, inl, inr, Bool, true, false, Option, none, some,
  List, [], ◌∷◌, ap, sym, ◌∙◌, arith, length, Option-cases, le_or_lt,
}
use wacli.AppState.Sequencer.{
  Task, Sequencer, Scan, Drainer, at_top, in_run, Completed, update, scan_task, scan, frontiers,
  completed, complete_task, is_ready, wait_through, wait_idle,
}
use wacli.AppState.Sequencer.System.{System, Reach, below, Fits}
use wacli.AppState.Sequencer.Invariant.{Reach-Inv, complete_task-some, frontiers-Below, below-next}

Fits-order :
    (s : Sequencer) (ds : List Drainer)
    → Fits s ds
    → (n : ℕ) × (s.ran ≡ below n) × (s.serving ≤ n) × (n ≤ s.serving + 1)
Fits-order s [] h = (s.serving, h.1, omega arith, omega arith)
Fits-order s (at_top f ∷ []) h = (s.serving, h.1.1, omega arith, omega arith)
Fits-order s (in_run f ∷ []) h = (suc s.serving, h.1.1, omega arith, omega arith)
Fits-order s (x ∷ y ∷ ds) h = absurd h

-- In every reachable state the closures that were called are those of the tickets 0, …, n - 1, each
-- once and in this order, where n is the serving ticket or, while its closure runs, the one after.
pub ran_in_order :
    {s : System}
    → Reach s
    → (n : ℕ) × (s.seq.ran ≡ below n) × (s.seq.serving ≤ n) × (n ≤ s.seq.serving + 1)
ran_in_order {s} r = Fits-order s.seq s.drainers (Reach-Inv r).fits

Fits-alone :
    (s : Sequencer) (ds : List Drainer)
    → Fits s ds
    → (length ds ≤ 1) × (s.running ≡ false → ds ≡ []) × (ds ≡ [] → s.running ≡ false)
Fits-alone s [] h = (omega arith, (λ _. refl), (λ _. h.0))
Fits-alone s (d ∷ []) h = (omega arith, (λ e. cc (e, h.0)), (λ e. cc))
Fits-alone s (x ∷ y ∷ ds) h = absurd h

-- At most one goroutine drains at a time, and `running` is false exactly when there is none.
pub one_drainer :
    {s : System}
    → Reach s
    → (length s.drainers ≤ 1)
      × (s.seq.running ≡ false → s.drainers ≡ [])
      × (s.drainers ≡ [] → s.seq.running ≡ false)
one_drainer {s} r = Fits-alone s.seq s.drainers (Reach-Inv r).fits

Fits-idle :
    (s : Sequencer) (ds : List Drainer) → Fits s ds → ds ≡ [] → is_ready (s.tasks s.serving) ≡ false
Fits-idle s [] h e = h.2
Fits-idle s (d ∷ ds) h e = cc

pub idle_queue :
    {s : System}
    → Reach s
    → s.drainers ≡ []
    → (is_ready (s.seq.tasks s.seq.serving) ≡ false)
      × (((c : ℕ) → s.seq.serving ≤ c → c < s.seq.next → is_ready (s.seq.tasks c) ≡ true)
          → wait_idle s.seq ≡ true)
unfolding wait_idle
idle_queue {s} r e =
    let inv = Reach-Inv r in
    let idle = Fits-idle s.seq s.drainers inv.fits e in
    (idle, (λ all. ground (arith, idle, all s.seq.serving, inv.bounded)))

mem-below : (n k : ℕ) → k < n → Memᴰ k (below n)
mem-below zero k h = absurd (omega arith)
mem-below (suc n) k h = elim (le_or_lt n k) [
  | inl le ↦ Memᴰ.head (omega arith)
  | inr lt ↦ Memᴰ.tail (mem-below n k lt)
]

-- When `waitThrough frontier` returns nil, the closure of every ticket up to the frontier has been
-- called.
pub wait_through-ran :
    {s : System} (frontier : ℕ)
    → Reach s
    → wait_through frontier s.seq ≡ true
    → (k : ℕ) → k ≤ frontier
    → Memᴰ k s.seq.ran
unfolding wait_through
wait_through-ran {s} frontier r e k le =
    let (n, same, low, high) = ran_in_order r in rw same (mem-below n k (ground (arith, low)))

-- A ticket that a wait through a frontier may pass over: ready, or a live task that holds back the
-- tickets before it.
abbrev pub Passed : Option Task → Type 0
Passed none = ⊥
Passed (some t) = (t.ready ≡ true) ⊎ (t.blocks_earlier ≡ true)

module _ (ticket : ℕ) (tasks : ℕ → Option Task) where
  record Covers (f : Scan) : Type 0 where
    from : ticket ≤ f.wait_frontier
    passed : (k : ℕ) → ticket < k → k ≤ f.wait_frontier → Passed (tasks k)

  scan_task-include :
      (c : ℕ) (t : Option Task) (f g : Scan)
      → scan_task true c t f ≡ some g
      → Passed t × (g.wait_frontier ≡ c)
  unfolding scan_task
  scan_task-include c none f g e = cc
  scan_task-include c (some t) f g e = ground arith

  Covers-next :
      (f g : Scan)
      → Covers f
      → Passed (tasks (suc f.wait_frontier))
      → g.wait_frontier ≡ suc f.wait_frontier
      → Covers g
  Covers-next f g h p e = record {
    from = omega (arith, h.from);
    passed = λ k a b. elim (le_or_lt k f.wait_frontier) [
      | inl le ↦ h.passed k a le
      | inr lt ↦ let same : k ≡ suc f.wait_frontier = omega arith in rw same p
    ];
  }

  scan-Covers :
      (n c : ℕ) (f : Scan) → c ≡ suc f.wait_frontier → Covers f → Covers (scan n true c tasks f)
  unfolding scan
  scan-Covers zero c f e h = h
  scan-Covers (suc n) c f e h = elim (Option-cases (scan_task true c (tasks c) f)) [
    | inl stop ↦ rw (stop, scan) h
    | inr (g, more) ↦
        let (passed, at) = scan_task-include c (tasks c) f g more in
        rw (more, scan)
          (scan-Covers n (suc c) g (ap suc (sym at)) (Covers-next f g h (rw e at passed) (at ∙ e)))
  ]

  scan_task-one :
      (c : ℕ) (t : Option Task) (f g : Scan)
      → scan_task false c t f ≡ some g
      → g.wait_frontier ≡ f.wait_frontier
  unfolding scan_task
  scan_task-one c none f g e = cc
  scan_task-one c (some t) f g e = ground arith

  scan-one : (n c : ℕ) (f : Scan) → (scan n false c tasks f).wait_frontier ≡ f.wait_frontier
  unfolding scan
  scan-one zero c f = refl
  scan-one (suc n) c f = elim (Option-cases (scan_task false c (tasks c) f)) [
    | inl stop ↦ rw (stop, scan)
    | inr (g, more) ↦ rw (more, scan) (scan-one n (suc c) g ∙ scan_task-one c (tasks c) f g more)
  ]

Covers-start :
    (ticket : ℕ) (tasks : ℕ → Option Task) (f : Scan)
    → f.wait_frontier ≡ ticket
    → Covers ticket tasks f
Covers-start ticket tasks f e = record {
  from = omega arith;
  passed = λ k a b. absurd (omega arith);
}

frontiers-Covers :
    (ticket : ℕ) (include : Bool) (tasks : ℕ → Option Task) (next : ℕ)
    → Covers ticket tasks (frontiers ticket include tasks next)
unfolding frontiers
frontiers-Covers ticket true tasks next =
    scan-Covers ticket tasks (next - (ticket + 1)) (ticket + 1) _ (omega arith)
      (Covers-start ticket tasks _ refl)
frontiers-Covers ticket false tasks next =
    Covers-start ticket tasks _ (scan-one ticket tasks (next - (ticket + 1)) (ticket + 1) _)

frontiers-one :
    (ticket : ℕ) (include : Bool) (tasks : ℕ → Option Task) (next : ℕ)
    → include ≡ false
    → (frontiers ticket include tasks next).wait_frontier ≡ ticket
unfolding frontiers
frontiers-one ticket true tasks next e = cc
frontiers-one ticket false tasks next e = scan-one ticket tasks (next - (ticket + 1)) (ticket + 1) _

-- Completing a reserved ticket marks it ready; `complete` returns a frontier that is at least the
-- ticket and was reserved, and every ticket between has a task that is ready or was reserved by
-- `reserveLive`; `completeOne` returns the ticket itself.
pub complete_task-frontier :
    {s : System} (ticket : ℕ) (include : Bool) (c : Completed)
    → Reach s
    → complete_task ticket include s.seq ≡ some c
    → (is_ready (c.seq.tasks ticket) ≡ true)
      × (ticket ≤ c.frontier)
      × (c.frontier < c.seq.next)
      × ((k : ℕ) → ticket < k → k ≤ c.frontier → Passed (c.seq.tasks k))
      × (include ≡ false → c.frontier ≡ ticket)
unfolding completed
complete_task-frontier {s} ticket include c r e =
    let inv = Reach-Inv r in
    let (t, here, same) = complete_task-some inv ticket include c e in
    let tasks = update s.seq.tasks ticket (some (record t { ready = true })) in
    let covers = frontiers-Covers ticket include tasks s.seq.next in
    let lt = below-next inv ticket (λ h. cc (h, here)) in
    rw same (
      ground arith,
      covers.from,
      (frontiers-Below inv ticket include tasks lt).0,
      covers.passed,
      frontiers-one ticket include tasks s.seq.next,
    )
