-- ===== src/Follow/Examples.antt =====
-- A sync that loses its connection, reconnects and is then logged out, after sync_idle.go.
use wacli.Common.{◌≡◌, refl, true, false, none, [], ◌∷◌, ◌++◌}
use wacli.Follow.{
  Turn, disconnected, dial_first, run_sync_follow, loop, follow_branch, next, prefixed,
  after_reconnect, reconnect_while_watching_logout, reconnect, stop_logged_out,
}
use wacli.Follow.Logout.{dials, run_sync_follow-dials}

abbrev dropped : Turn
dropped = record {
  arrived = false;
  branch = disconnected (dial_first false none false);
  messages_stored = 3;
  now = 50;
}

-- The connection drops again, and the logout signal has arrived.
abbrev revoked : Turn
revoked = record {
  arrived = true;
  branch = disconnected (dial_first false none false);
  messages_stored = 4;
  now = 90;
}

one_dial : dials (run_sync_follow 0 false (dropped ∷ revoked ∷ [])).0 ≡ 1
unfolding dials run_sync_follow loop follow_branch next prefixed after_reconnect
    reconnect_while_watching_logout reconnect stop_logged_out
one_dial = refl

run_sync_follow-dials_example :
    dials (run_sync_follow 0 false ((dropped ∷ []) ++ revoked ∷ dropped ∷ [])).0
    ≡ dials (run_sync_follow 0 false (dropped ∷ [])).0
run_sync_follow-dials_example = run_sync_follow-dials 0 (dropped ∷ []) revoked (dropped ∷ []) refl
