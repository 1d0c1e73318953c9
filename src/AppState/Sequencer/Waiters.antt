-- ===== src/AppState/Sequencer/Waiters.antt =====
-- The callers of `waitThrough` and `waitIdle` beside those of System: what blocks them and what wakes
-- them.
use wacli.Common.{
  ℕ, ◌+◌, ◌≤◌, ◌<◌, ◌≡◌, refl, ◌⊎◌, inl, inr, true, false, List, [], ◌∷◌, ◌++◌, All, arith,
  Bool-cases,
}
use wacli.AppState.Sequencer.{
  Sequencer, Drainer, at_top, in_run, reserve_task, completed, drain_step, wait_through, wait_idle,
  Wait, through, until_idle, Waiter, is_over, wait_round, is_woken, is_ready,
}
use wacli.AppState.Sequencer.System.{
  System, init, Step, reserves, completes, drains, Reach, start, later, Inv,
}
use wacli.AppState.Sequencer.Invariant.{Reach-Inv, complete_task-some}
use wacli.AppState.Sequencer.Order.{idle_queue}

pub record Waiting : Type 0 where
  pub sys : System
  pub waiters : List Waiter

-- A step of the system; a new call of a wait; a blocked call whose channel is closed goes round its
-- loop; the context of a blocked call ends.
pub data WaitStep (w : Waiting) : Waiting → Type 0 where
  moves : {t : System} → Step w.sys t → WaitStep w (record { sys = t; waiters = w.waiters })
  waits :
      (c : Wait)
      → WaitStep w (record { sys = w.sys; waiters = wait_round c w.sys.seq ++ w.waiters })
  wakes :
      (before after : List Waiter) (x : Waiter)
      → w.waiters ≡ before ++ x ∷ after
      → is_woken x w.sys.seq ≡ true
      → WaitStep w
          (record { sys = w.sys; waiters = before ++ wait_round x.wait w.sys.seq ++ after })
  gives_up :
      (before after : List Waiter) (x : Waiter)
      → w.waiters ≡ before ++ x ∷ after
      → WaitStep w (record { sys = w.sys; waiters = before ++ after })

pub data WaitReach : Waiting → Type 0 where
  begins : WaitReach (record { sys = init; waiters = [] })
  continues : {w v : Waiting} → WaitReach w → WaitStep w v → WaitReach v

pub WaitReach-Reach : {w : Waiting} → WaitReach w → Reach w.sys
WaitReach-Reach begins = start
WaitReach-Reach (continues r (moves st)) = later (WaitReach-Reach r) st
WaitReach-Reach (continues r (waits c)) = WaitReach-Reach r
WaitReach-Reach (continues r (wakes before after x e woken)) = WaitReach-Reach r
WaitReach-Reach (continues r (gives_up before after x e)) = WaitReach-Reach r

-- A step closes the channel, or leaves the served ticket as it is and takes no ticket back.
abbrev Quiet : Sequencer → Sequencer → Type 0
Quiet s t = (t.changed ≡ s.changed) × (t.serving ≡ s.serving) × (s.next ≤ t.next)

drain_step-Quiet :
    (d : Drainer) (s : Sequencer)
    → Quiet s (drain_step d s).1 ⊎ ((drain_step d s).1.changed ≡ s.changed + 1)
unfolding drain_step
drain_step-Quiet (at_top f) s = inl (ground arith, ground arith, ground arith)
drain_step-Quiet (in_run f) s = inr refl

Step-Quiet :
    {s t : System} → Inv s → Step s t → Quiet s.seq t.seq ⊎ (t.seq.changed ≡ s.seq.changed + 1)
unfolding reserve_task completed
Step-Quiet {s} inv (reserves blocks) = inl (refl, refl, omega arith)
Step-Quiet {s} inv (completes ticket include c e) =
    let (t, here, same) = complete_task-some inv ticket include c e in
    rw same (inl (refl, refl, omega arith))
Step-Quiet {s} inv (drains before after d e) = drain_step-Quiet d s.seq

-- A blocked call whose condition holds is blocked on a closed channel.
unfoldable Asleep : Sequencer → Waiter → Type 0
Asleep s x = (x.channel ≤ s.changed) × (x.channel ≡ s.changed → is_over x.wait s ≡ false)

is_over-Quiet :
    (c : Wait) (s t : Sequencer)
    → Quiet s t
    → s.serving ≤ s.next
    → is_over c s ≡ false
    → is_over c t ≡ false
unfolding is_over wait_through wait_idle
is_over-Quiet (through f) s t q le h = ground (arith, q)
is_over-Quiet until_idle s t q le h = ground (arith, q)

Asleep-step :
    (s t : Sequencer) (x : Waiter)
    → Quiet s t ⊎ (t.changed ≡ s.changed + 1)
    → s.serving ≤ s.next
    → Asleep s x
    → Asleep t x
unfolding Asleep
Asleep-step s t x (inl q) le (low, open_) =
    (omega (arith, q.0), λ e. is_over-Quiet x.wait s t q le (open_ (omega (arith, q.0))))
Asleep-step s t x (inr closed) le (low, open_) = (omega arith, λ e. absurd (omega arith))

all_asleep :
    (s t : Sequencer) (xs : List Waiter)
    → Quiet s t ⊎ (t.changed ≡ s.changed + 1)
    → s.serving ≤ s.next
    → All (Asleep s) xs
    → All (Asleep t) xs
all_asleep s t [] q le h = tt
all_asleep s t (x ∷ xs) q le h = (Asleep-step s t x q le h.0, all_asleep s t xs q le h.1)

wait_round-Asleep :
    (c : Wait) (s : Sequencer) (xs : List Waiter)
    → All (Asleep s) xs
    → All (Asleep s) (wait_round c s ++ xs)
unfolding wait_round Asleep
wait_round-Asleep c s xs h = elim (Bool-cases (is_over c s)) [
  | inl y ↦ rw y h
  | inr n ↦ rw n ((omega arith, λ e. n), h)
]

without :
    (s : Sequencer) (before after : List Waiter) (x : Waiter)
    → All (Asleep s) (before ++ x ∷ after)
    → All (Asleep s) (before ++ after)
without s [] after x h = h.1
without s (b ∷ before) after x h = (h.0, without s before after x h.1)

again :
    (s : Sequencer) (c : Wait) (before after : List Waiter)
    → All (Asleep s) (before ++ after)
    → All (Asleep s) (before ++ wait_round c s ++ after)
again s c [] after h = wait_round-Asleep c s after h
again s c (b ∷ before) after h = (h.0, again s c before after h.1)

WaitReach-Asleep : {w : Waiting} → WaitReach w → All (Asleep w.sys.seq) w.waiters
WaitReach-Asleep begins = tt
WaitReach-Asleep (continues {w} r (moves st)) =
    let inv = Reach-Inv (WaitReach-Reach r) in
    all_asleep w.sys.seq _ w.waiters (Step-Quiet inv st) inv.bounded (WaitReach-Asleep r)
WaitReach-Asleep (continues {w} r (waits c)) =
    wait_round-Asleep c w.sys.seq w.waiters (WaitReach-Asleep r)
WaitReach-Asleep (continues {w} r (wakes before after x e woken)) =
    let h : All (Asleep w.sys.seq) (before ++ x ∷ after) = rw (← e) (WaitReach-Asleep r) in
    again w.sys.seq x.wait before after (without w.sys.seq before after x h)
WaitReach-Asleep (continues {w} r (gives_up before after x e)) =
    let h : All (Asleep w.sys.seq) (before ++ x ∷ after) = rw (← e) (WaitReach-Asleep r) in
    without w.sys.seq before after x h

-- The next move of a blocked call whose condition holds: its channel is closed, and its round of the
-- loop returns nil.
abbrev pub Returns : Sequencer → Waiter → Type 0
Returns s x = is_over x.wait s ≡ true → (is_woken x s ≡ true) × (wait_round x.wait s ≡ [])

Asleep-Returns : (s : Sequencer) (xs : List Waiter) → All (Asleep s) xs → All (Returns s) xs
unfolding Asleep is_woken wait_round
Asleep-Returns s [] h = tt
Asleep-Returns s (x ∷ xs) h = ((λ e. (ground (arith, h.0), rw e refl)), Asleep-Returns s xs h.1)

-- No wakeup is lost, however callers, drainers and waits interleave: a call blocked in `waitThrough` or
-- `waitIdle` whose condition has come to hold is blocked on a channel that is closed, and its next round
-- returns nil; and when no goroutine drains, the serving ticket has no ready task, so if every reserved
-- task is ready the queue is empty.
pub no_lost_wakeup :
    {w : Waiting}
    → WaitReach w
    → All (Returns w.sys.seq) w.waiters
      × (w.sys.drainers ≡ []
          → (is_ready (w.sys.seq.tasks w.sys.seq.serving) ≡ false)
            × (((c : ℕ)
                  → w.sys.seq.serving ≤ c
                  → c < w.sys.seq.next
                  → is_ready (w.sys.seq.tasks c) ≡ true)
                → wait_idle w.sys.seq ≡ true))
no_lost_wakeup {w} r =
    (Asleep-Returns w.sys.seq w.waiters (WaitReach-Asleep r), idle_queue (WaitReach-Reach r))
