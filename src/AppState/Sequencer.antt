-- ===== src/AppState/Sequencer.antt =====
-- `appStatePersistenceSequencer` of internal/app/app_state.go. Each section under the mutex is one
-- function; a goroutine inside `drainThrough` is a `Drainer`.
pub mod System
pub mod Invariant
pub mod Order
pub mod Drain
pub mod Waiters
mod Examples
use wacli.Common.{
  ℕ, zero, suc, ◌+◌, ◌-◌, Bool, true, false, not, ◌&&◌, Option, none, some, List, [], ◌∷◌, ltb,
  ◌==◌, if◌then◌else◌,
}

-- `appStatePersistenceTask`; the closure `run` is named by its ticket.
pub record Task : Type 0 where
  pub ready : Bool
  pub blocks_earlier : Bool

-- `changed` is the number of the channel of that name: closing it and making the next adds one. `ran`
-- records the tickets whose closure was called, the latest first. Tickets are uint64 in the code; they
-- do not wrap here.
pub record Sequencer : Type 0 where
  pub next : ℕ
  pub serving : ℕ
  pub running : Bool
  pub tasks : ℕ → Option Task
  pub changed : ℕ
  pub ran : List ℕ

abbrev pub update : (ℕ → Option Task) → ℕ → Option Task → ℕ → Option Task
update f i t j = if i == j then t else f j

abbrev pub empty : Sequencer
empty = record { next = 0; serving = 0; running = false; tasks = λ _. none; changed = 0; ran = [] }

-- `reserveTask`: the ticket, and the state with its task.
unfoldable pub reserve_task : Bool → Sequencer → ℕ × Sequencer
reserve_task blocks s = (
  s.next,
  record s {
    next = s.next + 1;
    tasks = update s.tasks s.next (some (record { ready = false; blocks_earlier = blocks }));
  },
)

-- The variables of the loop in `completeTask`.
pub record Scan : Type 0 where
  pub wait_frontier : ℕ
  pub drain_frontier : ℕ
  pub drain_blocked : Bool

-- One round at `candidate`; `none` is `break`.
unfoldable pub scan_task : Bool → ℕ → Option Task → Scan → Option Scan
scan_task include candidate none f = none
scan_task include candidate (some t) f =
    if t.ready
    then some (record f {
      drain_frontier = if f.drain_blocked then f.drain_frontier else candidate;
      wait_frontier = if include then candidate else f.wait_frontier;
    })
    else if include && t.blocks_earlier
    then some (record f { wait_frontier = candidate; drain_blocked = true })
    else none

-- The loop from `candidate`, with the number of rounds left before `next`.
unfoldable pub scan : ℕ → Bool → ℕ → (ℕ → Option Task) → Scan → Scan
scan zero include candidate tasks f = f
scan (suc k) include candidate tasks f = elim (scan_task include candidate (tasks candidate) f) [
  | none ↦ f
  | some g ↦ scan k include (suc candidate) tasks g
]

-- A goroutine in `drainThrough(frontier)`: before its first lock, or in `task.run()`.
pub data Drainer : Type 0 where
  at_top : ℕ → Drainer
  in_run : ℕ → Drainer

pub record Completed : Type 0 where
  pub frontier : ℕ
  pub drainers : List Drainer
  pub seq : Sequencer

-- The loop of `completeTask` behind `ticket`, over the tasks with `ticket` marked ready.
unfoldable pub frontiers : ℕ → Bool → (ℕ → Option Task) → ℕ → Scan
frontiers ticket include tasks next =
    scan (next - (ticket + 1)) include (ticket + 1) tasks
      (record { wait_frontier = ticket; drain_frontier = ticket; drain_blocked = false })

-- `completeTask` on the task `t` of `ticket`; the caller is the drainer if it starts one.
unfoldable pub completed : ℕ → Bool → Task → Sequencer → Completed
completed ticket include t s =
    let tasks = update s.tasks ticket (some (record t { ready = true })) in
    let f : Scan = frontiers ticket include tasks s.next in
    let start = not s.running && (ticket == s.serving) in
    record {
      frontier = f.wait_frontier;
      drainers = if start then at_top f.drain_frontier ∷ [] else [];
      seq = record s { tasks = tasks; running = if start then true else s.running };
    }

-- `none` is the nil dereference at a ticket without a task.
unfoldable pub complete_at : ℕ → Bool → Option Task → Sequencer → Option Completed
complete_at ticket include none s = none
complete_at ticket include (some t) s = some (completed ticket include t s)

unfoldable pub complete_task : ℕ → Bool → Sequencer → Option Completed
unfolding complete_at
complete_task ticket include s = complete_at ticket include (s.tasks ticket) s

abbrev pub is_ready : Option Task → Bool
is_ready none = false
is_ready (some t) = t.ready

-- One locked section of `drainThrough`, or the call of `task.run()` that follows it.
unfoldable pub drain_step : Drainer → Sequencer → List Drainer × Sequencer
drain_step (at_top frontier) s =
    if ltb frontier s.serving
    then (if is_ready (s.tasks s.serving)
        then (at_top (s.next - 1) ∷ [], record s { running = true })
        else ([], record s { running = false }))
    else if is_ready (s.tasks s.serving)
    then (in_run frontier ∷ [], record s { ran = s.serving ∷ s.ran })
    else ([], record s { running = false })
drain_step (in_run frontier) s = (
  at_top frontier ∷ [],
  record s {
    tasks = update s.tasks s.serving none;
    serving = s.serving + 1;
    changed = s.changed + 1;
  },
)

-- The test of `waitThrough` under the lock: does it return nil?
unfoldable pub wait_through : ℕ → Sequencer → Bool
wait_through frontier s = ltb frontier s.serving

-- The test of `waitIdle`.
unfoldable pub wait_idle : Sequencer → Bool
wait_idle s = s.serving == s.next

-- A call of `waitThrough` or `waitIdle`.
pub data Wait : Type 0 where
  through : ℕ → Wait
  until_idle : Wait

-- A call that is blocked in its select, on the channel it read under the lock.
pub record Waiter : Type 0 where
  pub wait : Wait
  pub channel : ℕ

unfoldable pub is_over : Wait → Sequencer → Bool
unfolding wait_through wait_idle
is_over (through frontier) s = wait_through frontier s
is_over until_idle s = wait_idle s

-- One round of the loop of a wait up to its select; [] is the return of nil.
unfoldable pub wait_round : Wait → Sequencer → List Waiter
unfolding is_over
wait_round c s = if is_over c s then [] else record { wait = c; channel = s.changed } ∷ []

-- Has the channel of a blocked call been closed?
unfoldable pub is_woken : Waiter → Sequencer → Bool
is_woken x s = not (x.channel == s.changed)
