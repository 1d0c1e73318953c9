-- ===== src/Session/Examples.antt =====
-- Events of one connection, after internal/app/session_state.go.
use wacli.Common.{All, codes, ◌≡◌, refl, true, false, none, some, List, [], ◌∷◌}
use wacli.Session.{
  LoginError, login_error, new_observation, session_revoked, clear_session_revoked, notify, Event,
  connected, logged_out, disconnected, observe, confirm_login, wait_for_login, waiting, logged_in,
  prepare_connect,
}
use wacli.Session.Terminal.{
  Act, prepares, observes, act, run, Revokes, IsHarmless, logged_in-clean, revoked_forever,
}

-- A login that drops and comes back, over the marker of an earlier revocation.
abbrev logins : List Act
logins =
    prepares false
    ∷ observes true connected
    ∷ observes true disconnected
    ∷ observes true connected
    ∷ []

logs_in : wait_for_login (run logins (new_observation (some (codes "401")))) ≡ logged_in
unfolding wait_for_login waiting run act observe confirm_login clear_session_revoked session_revoked
    notify prepare_connect
logs_in = refl

logged_in-clean_example :
    All IsHarmless logins
    × (session_revoked (run logins (new_observation (some (codes "401")))) ≡ false)
logged_in-clean_example = logged_in-clean logins (some (codes "401")) logs_in

abbrev revocation : Event
revocation = logged_out (codes "401")

revocation-Revokes : Revokes revocation
revocation-Revokes h = cc

revoked_forever_example :
    ((run logins (observe true revocation (new_observation none)).1).revoked ≡ true)
    × (x : LoginError) × (wait_for_login
          (run logins (observe true revocation (new_observation none)).1)
        ≡ login_error x)
revoked_forever_example =
    revoked_forever true revocation (new_observation none) logins revocation-Revokes
