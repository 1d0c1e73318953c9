-- ===== src/Session.antt =====
-- internal/app/session_state.go: what the one observer of a client's connection events records about
-- the login, and the marker file of a revoked session. Each method runs under the observer's mutex
-- and is one function; whether a write or a removal of the marker file succeeds is an argument.
pub mod Terminal
mod Examples
use wacli.Common.{
  Bool, true, false, not, ◌&&◌, ◌||◌, Option, none, some, List, [], ◌∷◌, if◌then◌else◌, Text,
  text_eq,
}

-- The errors of `observe`, each with what its text carries.
pub data LoginError : Type 0 where
  revoked_by login_failed stream_error : Text → LoginError
  outdated banned replaced token_refresh needs_reconnect : LoginError

-- A failed write or removal of the marker file.
pub data MarkerError : Type 0 where
  mark_failed clear_failed : MarkerError

-- `changed` is the buffered channel of one element; `marker` is the file SESSION_REVOKED with its
-- reason.
pub record Observation : Type 0 where
  pub revoked : Bool
  pub confirmed : Bool
  pub terminal_err : Option LoginError
  pub persistence_err : Option MarkerError
  pub changed : Bool
  pub marker : Option Text

-- `newSessionObservation`, over the marker file that is there.
abbrev pub new_observation : Option Text → Observation
new_observation m = record {
  revoked = false;
  confirmed = false;
  terminal_err = none;
  persistence_err = none;
  changed = false;
  marker = m;
}

unfoldable pub notify : Observation → Observation
notify s = record s { changed = true }

-- `SessionRevoked`
unfoldable pub session_revoked : Observation → Bool
session_revoked s = elim s.marker [ none ↦ false | some r ↦ true ]

-- `MarkSessionRevoked`: the file is written atomically.
unfoldable pub mark_session_revoked : Bool → Text → Observation → Option MarkerError × Observation
mark_session_revoked written reason s =
    if written then (none, record s { marker = some reason }) else (some mark_failed, s)

-- `ClearSessionRevoked`: a file that is not there is no error.
unfoldable pub clear_session_revoked : Bool → Observation → Option MarkerError × Observation
unfolding session_revoked
clear_session_revoked removed s =
    if not (session_revoked s)
    then (none, s)
    else if removed
    then (none, record s { marker = none })
    else (some clear_failed, s)

unfoldable pub prepare_connect : Bool → Observation → Option LoginError × Observation
prepare_connect is_connected s =
    if s.revoked
    then (s.terminal_err, s)
    else if is_connected
    then (none, s)
    else (none, record s { confirmed = false; terminal_err = none; persistence_err = none })

abbrev is_nil : Option MarkerError → Bool
is_nil none = true
is_nil (some e) = false

unfoldable pub confirm_login : Bool → Observation → Option MarkerError × Observation
unfolding clear_session_revoked notify
confirm_login removed s =
    let cleared = clear_session_revoked removed (record s { terminal_err = none }) in
    if s.revoked || s.confirmed then (none, notify s) else (
      cleared.0,
      notify (record cleared.1 { persistence_err = cleared.0; confirmed = is_nil cleared.0 }),
    )

-- The branch of `rejectLogin` for a revocation.
record_revocation : Bool → Text → Observation → Observation
unfolding mark_session_revoked
record_revocation written reason s =
    let marked = mark_session_revoked written reason (record s { revoked = true }) in
    record marked.1 { persistence_err = marked.0 }

abbrev is_none : Option LoginError → Bool
is_none none = true
is_none (some e) = false

unfoldable pub reject_login :
    Bool → LoginError → Text → Observation → Option MarkerError × Observation
unfolding record_revocation notify
reject_login written e reason s =
    let named = not (text_eq reason []) in
    let rejected = record s {
      confirmed = false;
      terminal_err = if is_none s.terminal_err || named then some e else s.terminal_err;
    } in
    let after = if named then record_revocation written reason rejected else rejected in
    (after.persistence_err, notify after)

-- The events that `observe` tells apart; a reason comes as its text, `v.Reason.String()`.
pub data Event : Type 0 where
  connected : Event
  logged_out : (reason : Text) → Event
  connect_failure : (reason : Text) → (is_logged_out : Bool) → Event
  client_outdated temporary_ban stream_replaced cat_refresh_error : Event
  stream_err : (code : Text) → Event
  manual_login_reconnect disconnected other_event : Event

unfoldable pub observe : Bool → Event → Observation → Option MarkerError × Observation
unfolding confirm_login reject_login notify
observe io connected s = confirm_login io s
observe io (logged_out reason) s = reject_login io (revoked_by reason) reason s
observe io (connect_failure reason is_logged_out) s =
    reject_login io (login_failed reason) (if is_logged_out then reason else []) s
observe io client_outdated s = reject_login io outdated [] s
observe io temporary_ban s = reject_login io banned [] s
observe io stream_replaced s = reject_login io replaced [] s
observe io cat_refresh_error s = reject_login io token_refresh [] s
observe io (stream_err code) s = reject_login io (stream_error code) [] s
observe io manual_login_reconnect s = reject_login io needs_reconnect [] s
observe io disconnected s = (none, notify (record s { confirmed = false }))
observe io other_event s = (none, s)

-- One round of `waitForLogin` under the lock: return an error, return nil, or wait on.
pub data Waiting : Type 0 where
  login_error : LoginError → Waiting
  marker_error : MarkerError → Waiting
  logged_in keep_waiting : Waiting

waiting : Option LoginError → Option MarkerError → Bool → Waiting
waiting (some e) p c = login_error e
waiting none (some p) c = marker_error p
waiting none none c = if c then logged_in else keep_waiting

unfoldable pub wait_for_login : Observation → Waiting
unfolding waiting
wait_for_login s = waiting s.terminal_err s.persistence_err s.confirmed
