-- ===== src/Recovery/Startup.antt =====
-- syncAppStateDeltas of internal/app/sync_recovery.go: at the start of a run, the repair of every pending
-- collection, and an incremental fetch of the others.
use wacli.Common.{
  if◌then◌else◌, Text, text_eq, Bool, false, ◌||◌, Option, none, some, List, [], ◌∷◌, arith,
}
use wacli.Recovery.State.{is_full_sync_broken}
use wacli.Recovery.Steps.{FetchError}
use wacli.Recovery.Ladder.{RepairAnswers}
use wacli.Recovery.Admission.{Desk, reports, starts_up, runs, records, apply_event}
use wacli.Recovery.Admission.Laws.{IsGuarded, apply_event-IsGuarded}

unfoldable is_replayed : Text → List Text → Bool
is_replayed name [] = false
is_replayed name (x ∷ xs) = text_eq x name || is_replayed name xs

-- One pending collection: its repair runs to its end before the next one's.
unfoldable repair_pending : Bool → RepairAnswers → Text → Desk → Desk
unfolding is_full_sync_broken
repair_pending readable w name d =
    let broken = is_full_sync_broken readable name d.app in
    let started = apply_event (starts_up name broken.0) (record d { app = broken.1 }) in
    apply_event (records name) (apply_event (runs name w) started)

-- The names replayed, and the desk after.
unfoldable repair_all : Bool → (Text → RepairAnswers) → List Text → Desk → List Text × Desk
unfolding repair_pending
repair_all readable w [] d = ([], d)
repair_all readable w (name ∷ names) d =
    let skipped = repair_all readable w names d in
    let done = repair_all readable w names (repair_pending readable (w name) name d) in
    if d.recoveries name then skipped else (name ∷ done.0, done.1)

-- What an incremental fetch without a full sync leads to.
unfoldable after_delta : Text → Option FetchError → Desk → Desk
after_delta name none d = d
after_delta name (some e) d = if e.empty_key_share then apply_event (reports name e) d else d

unfoldable fetch_deltas : (Text → Option FetchError) → List Text → List Text → Desk → Desk
unfolding after_delta is_replayed
fetch_deltas answers replayed [] d = d
fetch_deltas answers replayed (name ∷ names) d =
    let skipped = fetch_deltas answers replayed names d in
    let fetched = fetch_deltas answers replayed names (after_delta name (answers name) d) in
    if d.recoveries name || is_replayed name replayed then skipped else fetched

-- `syncAppStateDeltas`; `names` are whatsmeow's collections in the order in which they are fetched, and no
-- list of pending ones is a table that could not be read.
unfoldable sync_deltas :
    Option (List Text)
    → List Text
    → Bool
    → (Text → RepairAnswers)
    → (Text → Option FetchError)
    → Desk
    → Desk
unfolding repair_all fetch_deltas
sync_deltas none names readable w answers d = d
sync_deltas (some pending) names readable w answers d =
    let repaired = repair_all readable w pending d in
    fetch_deltas answers repaired.0 names repaired.1

module _ (name : Text) where
  repair_all-IsGuarded :
      (readable : Bool) (w : Text → RepairAnswers) (names : List Text) (d : Desk)
      → IsGuarded name d
      → IsGuarded name (repair_all readable w names d).1
  unfolding repair_all
  repair_all-IsGuarded readable w [] d h = h
  repair_all-IsGuarded readable w (k ∷ ks) d h =
      let broken = is_full_sync_broken readable k d.app in
      let start : Desk = record d { app = broken.1 } in
      let started = apply_event (starts_up k broken.0) start in
      let ran = apply_event-IsGuarded name (records k) (apply_event (runs k (w k)) started) (
        apply_event-IsGuarded name (runs k (w k)) started
          (apply_event-IsGuarded name (starts_up k broken.0) start h)) in
      ground (
        arith,
        repair_all-IsGuarded readable w ks d h,
        repair_all-IsGuarded readable w ks (repair_pending readable (w k) k d)
            (unfold repair_pending in ran),
      )

  after_delta-IsGuarded :
      (k : Text) (o : Option FetchError) (d : Desk)
      → IsGuarded name d
      → IsGuarded name (after_delta k o d)
  unfolding after_delta
  after_delta-IsGuarded k none d h = h
  after_delta-IsGuarded k (some e) d h =
      ground (arith, apply_event-IsGuarded name (reports k e) d h)

  fetch_deltas-IsGuarded :
      (answers : Text → Option FetchError) (replayed names : List Text) (d : Desk)
      → IsGuarded name d
      → IsGuarded name (fetch_deltas answers replayed names d)
  unfolding fetch_deltas
  fetch_deltas-IsGuarded answers replayed [] d h = h
  fetch_deltas-IsGuarded answers replayed (k ∷ ks) d h = ground (
    arith,
    fetch_deltas-IsGuarded answers replayed ks d h,
    fetch_deltas-IsGuarded answers replayed ks (after_delta k (answers k) d)
        (after_delta-IsGuarded k (answers k) d h),
  )

  -- The startup too keeps the repairs of a collection in flight to those that the map of the run admits.
  sync_deltas-IsGuarded :
      (pending : Option (List Text)) (names : List Text) (readable : Bool)
      (w : Text → RepairAnswers) (answers : Text → Option FetchError) (d : Desk)
      → IsGuarded name d
      → IsGuarded name (sync_deltas pending names readable w answers d)
  unfolding sync_deltas
  sync_deltas-IsGuarded none names readable w answers d h = h
  sync_deltas-IsGuarded (some pending) names readable w answers d h =
      let repaired = repair_all readable w pending d in
      fetch_deltas-IsGuarded answers repaired.0 names repaired.1
        (repair_all-IsGuarded readable w pending d h)
