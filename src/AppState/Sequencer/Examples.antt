-- ===== src/AppState/Sequencer/Examples.antt =====
-- Runs of the sequencer of internal/app/app_state.go on two tasks: a live one, and one that blocks.
use mathlib.Core.List.{Memᴰ}
use wacli.Common.{ℕ, ◌+◌, ◌≤◌, ◌<◌, ◌≡◌, refl, true, false, some, [], ◌∷◌, length, arith, All, ◌++◌}
use wacli.AppState.Sequencer.{
  at_top, in_run, Completed, reserve_task, scan_task, scan, frontiers, completed, complete_at,
  complete_task, is_ready, drain_step, wait_through, wait_idle, empty, through, until_idle, is_over,
  wait_round,
}
use wacli.AppState.Sequencer.System.{
  System, Reach, start, later, reserves, completes, drains, below,
}
use wacli.AppState.Sequencer.Order.{ran_in_order, one_drainer, wait_through-ran}
use wacli.AppState.Sequencer.Waiters.{
  Waiting, WaitReach, begins, continues, moves, waits, Returns, no_lost_wakeup,
}
use wacli.AppState.Sequencer.Drain.{drain_alone-idle, drain_alone, AllReady}

-- Two tickets are reserved; the second blocks the completions before it.
abbrev reserved : System
unfolding reserve_task
reserved = record { seq = (reserve_task true (reserve_task false empty).1).1; drainers = [] }

reserved-Reach : Reach reserved
unfolding reserve_task
reserved-Reach = later (later start (reserves false)) (reserves true)

-- The first ticket is completed, and the caller drains.
abbrev first_completed : Completed
unfolding completed reserve_task
first_completed = completed 0 true (record { ready = false; blocks_earlier = false }) reserved.seq

abbrev draining : System
draining = record { seq = first_completed.seq; drainers = first_completed.drainers }

completes_first : complete_task 0 true reserved.seq ≡ some first_completed
unfolding complete_task complete_at reserve_task completed
completes_first = refl

-- The closure of the first ticket runs.
abbrev running : System
running = record {
  seq = (drain_step (at_top 0) draining.seq).1;
  drainers = (drain_step (at_top 0) draining.seq).0;
}

abbrev returned : System
returned = record {
  seq = (drain_step (in_run 0) running.seq).1;
  drainers = (drain_step (in_run 0) running.seq).0;
}

-- The drainer finds the second task unready and stops.
abbrev stopped : System
stopped = record {
  seq = (drain_step (at_top 0) returned.seq).1;
  drainers = (drain_step (at_top 0) returned.seq).0;
}

running-Reach : Reach running
unfolding complete_task complete_at completed frontiers scan scan_task reserve_task drain_step
running-Reach =
    later (later reserved-Reach (completes 0 true first_completed completes_first))
      (drains [] [] (at_top 0) refl)

stopped-Reach : Reach stopped
unfolding complete_task complete_at completed frontiers scan scan_task reserve_task drain_step
stopped-Reach =
    later (later running-Reach (drains [] [] (in_run 0) refl)) (drains [] [] (at_top 0) refl)

runs_first : stopped.seq.ran ≡ 0 ∷ []
unfolding drain_step completed frontiers scan scan_task reserve_task
runs_first = refl

ran_in_order_example :
    (n : ℕ) × (running.seq.ran ≡ below n)
    × (running.seq.serving ≤ n)
    × (n ≤ running.seq.serving + 1)
ran_in_order_example = ran_in_order running-Reach

one_drainer_example :
    (length running.drainers ≤ 1)
    × (running.seq.running ≡ false → running.drainers ≡ [])
    × (running.drainers ≡ [] → running.seq.running ≡ false)
one_drainer_example = one_drainer running-Reach

-- While the first closure runs, a call waits through its ticket and another until idle.
abbrev blocked : Waiting
unfolding wait_round is_over wait_through wait_idle drain_step completed frontiers scan scan_task
    reserve_task
blocked = record {
  sys = running;
  waiters = wait_round until_idle running.seq ++ wait_round (through 0) running.seq ++ [];
}

blocks_both : length blocked.waiters ≡ 2
unfolding wait_round is_over wait_through wait_idle drain_step completed frontiers scan scan_task
    reserve_task
blocks_both = refl

-- The drainer has returned from the closure and stopped.
abbrev past : Waiting
past = record { sys = stopped; waiters = blocked.waiters }

past-WaitReach : WaitReach past
unfolding wait_round is_over wait_through wait_idle drain_step completed frontiers scan scan_task
    reserve_task complete_task complete_at
past-WaitReach =
    let one = continues begins (moves (reserves false)) in
    let two = continues one (moves (reserves true)) in
    let three = continues two (moves (completes 0 true first_completed completes_first)) in
    let four = continues three (moves (drains [] [] (at_top 0) refl)) in
    let five = continues (continues four (waits (through 0))) (waits until_idle) in
    let six = continues five (moves (drains [] [] (in_run 0) refl)) in
    continues six (moves (drains [] [] (at_top 0) refl))

no_lost_wakeup_example :
    All (Returns past.sys.seq) past.waiters
    × (past.sys.drainers ≡ []
        → (is_ready (past.sys.seq.tasks past.sys.seq.serving) ≡ false)
          × (((c : ℕ)
                → past.sys.seq.serving ≤ c
                → c < past.sys.seq.next
                → is_ready (past.sys.seq.tasks c) ≡ true)
              → wait_idle past.sys.seq ≡ true))
no_lost_wakeup_example = no_lost_wakeup past-WaitReach

wait_through-ran_example : Memᴰ 0 stopped.seq.ran
unfolding drain_step completed frontiers scan scan_task reserve_task wait_through
wait_through-ran_example = wait_through-ran 0 stopped-Reach refl 0 (omega arith)

drain_alone-idle_example :
    (Reach (drain_alone 9 running))
    × ((drain_alone 9 running).drainers ≡ [])
    × (AllReady running.seq
        → (wait_idle (drain_alone 9 running).seq ≡ true)
          × ((drain_alone 9 running).seq.ran ≡ below running.seq.next))
unfolding drain_step completed frontiers scan scan_task reserve_task
drain_alone-idle_example = drain_alone-idle 9 running-Reach (omega arith)
