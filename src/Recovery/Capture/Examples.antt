-- ===== src/Recovery/Capture/Examples.antt =====
-- The capture of internal/app/chat_state.go on a stream of two collections.
use wacli.Common.{Text, codes, ℕ, ◌≡◌, refl, true, false, some, List, [], ◌∷◌, ◌++◌}
use wacli.Recovery.Capture.{
  Event, sync_complete, mutation, new_capture, contains, finish_capture, handle, handle_all, stop,
  waited, events_of, timed_out, take_answer, wait_for_primary, completes, run_late,
}
use wacli.Recovery.Capture.Laws.{snapshot_after, wait_for_primary-timely, run_late-snapshot}

abbrev low : Text
low = codes "regular_low"

abbrev high : Text
high = codes "regular_high"

-- Live events of both collections, the end of another recovery, and then the snapshot's own end.
abbrev stream : List Event
stream =
    mutation (low ∷ []) 1
    ∷ mutation (high ∷ []) 2
    ∷ sync_complete (some (true, high))
    ∷ mutation (high ∷ low ∷ []) 3
    ∷ sync_complete (some (true, low))
    ∷ mutation (low ∷ []) 4
    ∷ []

answered : (wait_for_primary (waited stream false) (new_capture low 9)).0 ≡ events_of (1 ∷ 3 ∷ [])
unfolding wait_for_primary take_answer handle_all handle contains finish_capture stop
answered = refl

wait_for_primary-timely_example :
    (snapshot_after low [] stream ≡ some (1 ∷ 3 ∷ []))
    × ((wait_for_primary (waited stream false) (new_capture low 9)).1.open_tickets ≡ [])
wait_for_primary-timely_example = wait_for_primary-timely low 9 stream false (1 ∷ 3 ∷ []) answered

abbrev early : List Event
early = mutation (low ∷ []) 1 ∷ []

abbrev late : List Event
late = mutation (low ∷ []) 3 ∷ sync_complete (some (true, low)) ∷ []

silent : (wait_for_primary (waited early false) (new_capture low 9)).0 ≡ timed_out
unfolding wait_for_primary take_answer handle_all handle contains
silent = refl

run_late-snapshot_example :
    let later = handle_all late (wait_for_primary (waited early false) (new_capture low 9)).1 in
    let done = run_late completes later.completed later in
    (done.1.open_tickets ≡ [])
    × ((xs : List ℕ) → done.0 ≡ some xs → snapshot_after low [] (early ++ late) ≡ some xs)
run_late-snapshot_example = run_late-snapshot low 9 early late false completes silent
