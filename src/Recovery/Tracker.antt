-- ===== src/Recovery/Tracker.antt =====
-- `appStatePersistenceTracker` of internal/app/app_state.go, and persistFetchedAppStateEvents of
-- internal/app/chat_state.go over it. An error is named by a number.
use wacli.Common.{if◌then◌else◌, ℕ, ◌≡◌, refl, Bool, true, false, Option, none, some, List, [], ◌∷◌}

pub record Tracker : Type 0 where
  pub active : Bool
  pub first_err : Option ℕ

abbrev pub new_tracker : Tracker
new_tracker = record { active = false; first_err = none }

unfoldable pub begin : Tracker → Tracker
begin t = record { active = true; first_err = none }

-- The first error while the tracker is active is kept.
unfoldable pub record_err : Option ℕ → Tracker → Tracker
record_err none t = t
record_err (some e) t = record t {
  first_err = elim t.first_err [ none ↦ (if t.active then some e else none) | some old ↦ some old ];
}

unfoldable pub end : Tracker → Option ℕ × Tracker
end t = (t.first_err, record t { active = false })

-- Persisting the events in order, each with the error it records.
unfoldable pub persist_all : List (Option ℕ) → Tracker → Tracker
unfolding record_err
persist_all [] t = t
persist_all (e ∷ es) t = persist_all es (record_err e t)

unfoldable pub persist_fetched_events : List (Option ℕ) → Tracker → Option ℕ × Tracker
unfolding begin persist_all end
persist_fetched_events events t = end (persist_all events (begin t))

-- The first error of a list, if any.
pub first_error : List (Option ℕ) → Option ℕ
first_error [] = none
first_error (none ∷ es) = first_error es
first_error (some e ∷ es) = some e

persist_all-failed :
    (es : List (Option ℕ)) (t : Tracker) (e : ℕ)
    → t.first_err ≡ some e
    → (persist_all es t).first_err ≡ some e
unfolding persist_all
persist_all-failed [] t e h = h
persist_all-failed (none ∷ es) t e h = persist_all-failed es t e h
persist_all-failed (some d ∷ es) t e h = persist_all-failed es _ e (rw h refl)

persist_all-fresh :
    (es : List (Option ℕ)) (t : Tracker)
    → t.active ≡ true
    → t.first_err ≡ none
    → (persist_all es t).first_err ≡ first_error es
unfolding persist_all first_error
persist_all-fresh [] t a h = h
persist_all-fresh (none ∷ es) t a h = persist_all-fresh es t a h
persist_all-fresh (some e ∷ es) t a h = persist_all-failed es _ e (rw (h, a) refl)

-- Persisting a batch reports the first error of the batch and no other, whatever the tracker recorded
-- before, and nothing exactly when every event was persisted.
pub persist_fetched_events_lem :
    (es : List (Option ℕ)) (t : Tracker) → (persist_fetched_events es t).0 ≡ first_error es
unfolding persist_fetched_events begin end
persist_fetched_events_lem es t = persist_all-fresh es _ refl refl
