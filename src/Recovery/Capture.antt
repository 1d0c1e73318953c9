-- ===== src/Recovery/Capture.antt =====
-- Capturing the primary's snapshot, of internal/app/chat_state.go: appStateRecoveryCapture, its sentinel
-- and the ticket it reserves, waitForPrimaryAppStateRecovery and the late continuation that takes the
-- capture over. An event is its number and the collections it belongs to.
pub mod Laws
mod Examples
use wacli.Common.{
  ltb, leb, ◌==◌, if◌then◌else◌, Bool-cases, Option-cases, ltb→lt, lt→ltb, ==_iff, All, All-append,
  All-trim_space, Text, codes, text_eq, text_eq_iff, text_eq_refl, trim_space, has_prefix, length,
  take, drop, ℕ, zero, suc, ◌+◌, ◌-◌, ◌*◌, ◌/◌, ◌%◌, ◌≤◌, ◌<◌, min, max, ◌≡◌, refl, sym, ap, ◌∙◌,
  ◌≢◌, ◌↔◌, ◌⊎◌, inl, inr, Bool, true, false, not, ◌&&◌, ◌||◌, Option, none, some, List, [], ◌∷◌,
  ◌++◌, map, reverse, arith,
}
use wacli.Recovery.Tracker.{new_tracker, persist_fetched_events}

pub data Event : Type 0 where
  -- AppStateSyncComplete: none is the nil pointer, else whether it ends a recovery, and its collection.
  sync_complete : Option (Bool × Text) → Event
  mutation : List Text → ℕ → Event

pub record Completion : Type 0 where
  pub events : List ℕ
  pub ticket : ℕ

-- `open_tickets` are the tickets that this capture reserved and nobody has completed.
pub record Capture : Type 0 where
  pub collection : Text
  pub finished : Bool
  pub captured : List ℕ
  pub completed : Option Completion
  pub next_ticket : ℕ
  pub open_tickets : List ℕ

-- `newAppStateRecoveryCapture`
abbrev pub new_capture : Text → ℕ → Capture
new_capture collection next = record {
  collection = collection;
  finished = false;
  captured = [];
  completed = none;
  next_ticket = next;
  open_tickets = [];
}

unfoldable pub contains : Text → List Text → Bool
contains x [] = false
contains x (y ∷ ys) = text_eq y x || contains x ys

unfoldable pub finish_capture : Capture → Capture
finish_capture c = record c {
  finished = true;
  completed = some (record { events = c.captured; ticket = c.next_ticket });
  next_ticket = c.next_ticket + 1;
  open_tickets = c.next_ticket ∷ c.open_tickets;
}

-- `handle`
unfoldable pub handle : Event → Capture → Capture
unfolding finish_capture contains
handle (sync_complete none) c = c
handle (sync_complete (some (recovery, name))) c =
    if c.finished then c else if recovery && text_eq name c.collection then finish_capture c else c
handle (mutation collections id) c =
    if c.finished
    then c
    else if contains c.collection collections
    then record c { captured = c.captured ++ id ∷ [] }
    else c

unfoldable pub handle_all : List Event → Capture → Capture
unfolding handle
handle_all [] c = c
handle_all (e ∷ es) c = handle_all es (handle e c)

unfoldable pub without_ticket : ℕ → List ℕ → List ℕ
without_ticket t [] = []
without_ticket t (x ∷ xs) =
    let others = without_ticket t xs in if t == x then others else x ∷ others

-- appStatePersist.complete
abbrev pub complete_ticket : ℕ → Capture → Capture
complete_ticket t c = record c { open_tickets = without_ticket t c.open_tickets }

unfoldable pub release_completion : Option Completion → Capture → Capture
unfolding without_ticket
release_completion none c = c
release_completion (some d) c = complete_ticket d.ticket (record c { completed = none })

-- `stop`
unfoldable pub stop : Capture → Capture
unfolding release_completion
stop c = release_completion c.completed (record c { finished = true })

-- How the wait for the primary ends: the request failed, or events came, until the answer or the end of
-- the context. Of an answer there too, the select may take either.
pub data Wait : Type 0 where
  refused : ℕ → Wait
  waited : List Event → Bool → Wait

pub data Answer : Type 0 where
  failed : ℕ → Answer
  events_of : List ℕ → Answer
  timed_out : Answer

unfoldable pub take_answer : Bool → Option Completion → Capture → Answer × Capture
unfolding stop
take_answer context_first none c = (timed_out, c)
take_answer true (some d) c = (timed_out, c)
take_answer false (some d) c =
    (events_of d.events, complete_ticket d.ticket (stop (record c { completed = none })))

-- `waitForPrimaryAppStateRecovery`
unfoldable pub wait_for_primary : Wait → Capture → Answer × Capture
unfolding take_answer handle_all
wait_for_primary (refused e) c = (failed e, stop c)
wait_for_primary (waited es context_first) c =
    let later = handle_all es c in take_answer context_first later.completed later

-- What wakes the late continuation.
pub data Wake : Type 0 where
  superseded : Wake
  stopped : Wake
  too_late : Wake
  completes : Wake

-- `runLateAppStateRecovery` as far as the capture goes: the events to persist, if any. It wakes by the
-- answer only when there is one.
unfoldable pub run_late : Wake → Option Completion → Capture → Option (List ℕ) × Capture
unfolding stop
run_late completes (some d) c =
    (some d.events, complete_ticket d.ticket (stop (record c { completed = none })))
run_late completes none c = (none, c)
run_late w o c = (none, stop c)
