-- ===== src/Session/Terminal.antt =====
-- A revoked session stays revoked for the client's lifetime, and a login that is reported has left
-- no stale marker.
use wacli.Common.{
  Bool, true, false, Option, none, some, List, [], ◌∷◌, Text, ◌≡◌, ◌≢◌, refl, arith, text_eq_iff,
  All,
}
use wacli.Session.{
  LoginError, Observation, new_observation, session_revoked, prepare_connect, Event, observe,
  wait_for_login, logged_in, connected, logged_out, connect_failure, disconnected, other_event,
  login_error,
}

-- A connection attempt, or an event with the outcome of the write it may make.
pub data Act : Type 0 where
  prepares : (is_connected : Bool) → Act
  observes : (io : Bool) → Event → Act

unfoldable pub act : Act → Observation → Observation
act (prepares c) s = (prepare_connect c s).1
act (observes io e) s = (observe io e s).1

unfoldable pub run : List Act → Observation → Observation
run [] s = s
run (a ∷ rest) s = run rest (act a s)

-- Once revoked: never confirmed, and an error stands.
pub record IsRevoked (s : Observation) : Type 0 where
  pub revoked : s.revoked ≡ true
  pub unconfirmed : s.confirmed ≡ false
  pub error : s.terminal_err ≢ none

-- Every act keeps a revoked observation revoked.
act-IsRevoked : (a : Act) (s : Observation) → IsRevoked s → IsRevoked (act a s)
unfolding act prepare_connect observe
act-IsRevoked (prepares c) s h = ground arith
act-IsRevoked (observes io connected) s h = ground arith
act-IsRevoked (observes io disconnected) s h = ground arith
act-IsRevoked (observes io other_event) s h = ground arith
act-IsRevoked (observes io e) s h = ground arith

run-IsRevoked : (acts : List Act) (s : Observation) → IsRevoked s → IsRevoked (run acts s)
unfolding run
run-IsRevoked [] s h = h
run-IsRevoked (a ∷ rest) s h = run-IsRevoked rest (act a s) (act-IsRevoked a s h)

-- What a confirmed login has established.
pub record IsClean (s : Observation) : Type 0 where
  pub login : s.confirmed ≡ true → (s.revoked ≡ false) × (session_revoked s ≡ false)
  pub revocation : s.revoked ≡ true → (s.confirmed ≡ false) × (s.terminal_err ≢ none)

act-IsClean : (a : Act) (s : Observation) → IsClean s → IsClean (act a s)
unfolding act prepare_connect observe session_revoked
act-IsClean (prepares c) s h = ground arith
act-IsClean (observes io connected) s h = ground arith
act-IsClean (observes io disconnected) s h = ground arith
act-IsClean (observes io other_event) s h = ground arith
act-IsClean (observes io e) s h = ground arith

run-IsClean : (acts : List Act) (s : Observation) → IsClean s → IsClean (run acts s)
unfolding run
run-IsClean [] s h = h
run-IsClean (a ∷ rest) s h = run-IsClean rest (act a s) (act-IsClean a s h)

IsClean-new : (m : Option Text) → IsClean (new_observation m)
IsClean-new m = record { login = λ h. cc; revocation = λ h. cc }

-- The events that revoke the session.
abbrev pub Revokes : Event → Type 0
Revokes (logged_out reason) = reason ≢ []
Revokes (connect_failure reason is_logged_out) = (is_logged_out ≡ true) × (reason ≢ [])
Revokes _ = ⊥

observe-IsRevoked :
    (io : Bool) (e : Event) (s : Observation) → Revokes e → IsRevoked (observe io e s).1
unfolding observe
observe-IsRevoked io (logged_out reason) s h = ground (arith, text_eq_iff reason [])
observe-IsRevoked io (connect_failure reason b) s h = ground (arith, text_eq_iff reason [])
observe-IsRevoked io connected s h = absurd h
observe-IsRevoked io e s h = absurd h

wait-IsRevoked :
    (s : Observation) → IsRevoked s → (e : LoginError) × (wait_for_login s ≡ login_error e)
unfolding wait_for_login
wait-IsRevoked s h = go s.terminal_err refl
  where
    go :
        (o : Option LoginError)
        → s.terminal_err ≡ o
        → (e : LoginError) × (wait_for_login s ≡ login_error e)
    go none e = absurd (h.error e)
    go (some x) e = (x, ground arith)

-- An act that is no revocation.
abbrev pub IsHarmless : Act → Type 0
IsHarmless (prepares c) = Unit
IsHarmless (observes io e) = Revokes e → ⊥

confirmed : (s : Observation) → wait_for_login s ≡ logged_in → s.confirmed ≡ true
unfolding wait_for_login
confirmed s e = ground arith

logged_in-IsHarmless :
    (acts : List Act) (s : Observation)
    → wait_for_login (run acts s) ≡ logged_in
    → All IsHarmless acts
unfolding run act
logged_in-IsHarmless [] s h = tt
logged_in-IsHarmless (prepares c ∷ rest) s h = (tt, logged_in-IsHarmless rest _ h)
logged_in-IsHarmless (observes io e ∷ rest) s h = (
  λ revokes.
      let (x, failed) =
        wait-IsRevoked _
          (run-IsRevoked rest (observe io e s).1 (observe-IsRevoked io e s revokes)) in
      absurd (cc (failed, h)),
  logged_in-IsHarmless rest (observe io e s).1 h,
)

-- A wait that reports a login does so only when none of the events before it was a revocation and the
-- marker file of an earlier one is gone, whatever the other events and file errors were.
pub logged_in-clean :
    (acts : List Act) (m : Option Text)
    → wait_for_login (run acts (new_observation m)) ≡ logged_in
    → All IsHarmless acts × (session_revoked (run acts (new_observation m)) ≡ false)
logged_in-clean acts m h =
    let s = run acts (new_observation m) in
    let clean = (run-IsClean acts (new_observation m) (IsClean-new m)).login (confirmed s h) in
    (logged_in-IsHarmless acts (new_observation m) h, clean.1)

-- A revocation is terminal: after it, whatever events follow, delayed logins and new connection
-- attempts included, the session stays revoked and every wait for a login returns an error.
pub revoked_forever :
    (io : Bool) (e : Event) (s : Observation) (acts : List Act)
    → Revokes e
    → ((run acts (observe io e s).1).revoked ≡ true)
      × (x : LoginError) × (wait_for_login (run acts (observe io e s).1) ≡ login_error x)
revoked_forever io e s acts h =
    let kept = run-IsRevoked acts (observe io e s).1 (observe-IsRevoked io e s h) in
    let (x, same) = wait-IsRevoked (run acts (observe io e s).1) kept in (kept.revoked, x, same)

record IsMarked (s : Observation) : Type 0 where
  held : s.revoked ≡ true
  marked : session_revoked s ≡ true

act-IsMarked : (a : Act) (s : Observation) → IsMarked s → IsMarked (act a s)
unfolding act prepare_connect observe session_revoked
act-IsMarked (prepares c) s h = ground arith
act-IsMarked (observes io connected) s h = ground arith
act-IsMarked (observes io disconnected) s h = ground arith
act-IsMarked (observes io other_event) s h = ground arith
act-IsMarked (observes io e) s h = ground arith

run-IsMarked : (acts : List Act) (s : Observation) → IsMarked s → IsMarked (run acts s)
unfolding run
run-IsMarked [] s h = h
run-IsMarked (a ∷ rest) s h = run-IsMarked rest (act a s) (act-IsMarked a s h)

-- A revocation whose marker was written leaves the marker file in place through all later events,
-- failed writes included.
pub marker_stays :
    (e : Event) (s : Observation) (acts : List Act)
    → Revokes e
    → ((observe true e s).0 ≡ none) × (session_revoked (run acts (observe true e s).1) ≡ true)
unfolding observe session_revoked
marker_stays (logged_out reason) s acts h = (
  ground (arith, text_eq_iff reason []),
  (run-IsMarked acts _ (ground (arith, text_eq_iff reason []))).marked,
)
marker_stays (connect_failure reason b) s acts h = (
  ground (arith, text_eq_iff reason []),
  (run-IsMarked acts _ (ground (arith, text_eq_iff reason []))).marked,
)
marker_stays connected s acts h = absurd h
marker_stays e s acts h = absurd h
