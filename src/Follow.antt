-- ===== src/Follow.antt =====
-- The loops of a running sync, internal/app/sync_idle.go: follow mode, and until the session is idle.
-- A turn of a loop is what the select finds: the branch it picks, among those that are ready, and what
-- the other goroutines do meanwhile. Whether the logout signal is in its channel is state of the loop;
-- it stays there until a receive, and every receive ends the loop. Times are in nanoseconds.
pub mod Logout
mod Examples
use wacli.Common.{
  ltb, leb, ◌==◌, if◌then◌else◌, Bool-cases, Option-cases, ltb→lt, lt→ltb, ==_iff, All, All-append,
  All-trim_space, Text, codes, text_eq, text_eq_iff, text_eq_refl, trim_space, has_prefix, length,
  take, drop, ℕ, zero, suc, ◌+◌, ◌-◌, ◌*◌, ◌/◌, ◌%◌, ◌≤◌, ◌<◌, min, max, ◌≡◌, refl, sym, ap, ◌∙◌,
  ◌≢◌, ◌↔◌, ◌⊎◌, inl, inr, Bool, true, false, not, ◌&&◌, ◌||◌, Option, none, some, List, [], ◌∷◌,
  ◌++◌, map, reverse, arith,
}

-- The error of wa.Client.ReconnectWithBackoff, as it is or wrapped.
pub data ReconnectError : Type 0 where
  could_not_reconnect : ℕ → ℕ → ReconnectError
  as_returned : ℕ → ReconnectError

-- `reconnect`: the context's end decides whether the client's error is wrapped.
unfoldable pub reconnect : ℕ → Bool → Option ℕ → Option ReconnectError
reconnect max_duration ended none = none
reconnect max_duration ended (some e) =
    some (if not ended then could_not_reconnect max_duration e else as_returned e)

-- How the reconnect and the signal raced: the signal was received first, or the reconnect returned
-- (whether the context had ended, and with what), and the signal was then in its channel or not.
pub data Race : Type 0 where
  signal_first : Race
  dial_first : Bool → Option ℕ → Bool → Race

unfoldable pub reconnect_while_watching_logout : ℕ → Race → Bool × Option ReconnectError
unfolding reconnect
reconnect_while_watching_logout max_duration signal_first = (true, none)
reconnect_while_watching_logout max_duration (dial_first ended e signalled) =
    if signalled then (true, none) else (false, reconnect max_duration ended e)

pub data Branch : Type 0 where
  context_done : Branch
  -- lastSuccess of the request, the epoch the check loads, and the reconnect.
  stale_reconnect : ℕ → ℕ → Race → Branch
  disconnected : Race → Branch
  logged_out : Branch
  -- The ticker: lastEvent and the time.
  ticked : ℕ → ℕ → Branch

pub record Turn : Type 0 where
  -- The logout signal arrives before the branch runs.
  arrived : Bool
  branch : Branch
  messages_stored : ℕ
  now : ℕ

pub data Effect : Type 0 where
  emit_stopping : Effect
  emit_stopping_logged_out : Effect
  emit_stale : Effect
  emit_reconnecting : Effect
  emit_idle_exit : Effect
  force_close : Effect
  store_epoch : ℕ → Effect
  dial : Effect

-- How the loop ends, with the messages stored; `again` is the next turn.
pub data Outcome : Type 0 where
  again : Outcome
  stopped : ℕ → Outcome
  failed : ReconnectError → ℕ → Outcome

unfoldable pub stop_logged_out : ℕ → List Effect × Outcome
stop_logged_out stored = (emit_stopping_logged_out ∷ [], stopped stored)

unfoldable pub after_reconnect : ℕ → Bool × Option ReconnectError → List Effect × Outcome
unfolding stop_logged_out
after_reconnect stored (true, e) = stop_logged_out stored
after_reconnect stored (false, some e) = ([], failed e stored)
after_reconnect stored (false, none) = ([], again)

unfoldable pub prefixed : List Effect → List Effect × Outcome → List Effect × Outcome
prefixed first (rest, outcome) = (first ++ rest, outcome)

-- The select of runSyncFollow's loop; `pending` tells whether the signal is in the channel.
unfoldable pub follow_branch : ℕ → Bool → Turn → Branch → List Effect × Outcome
unfolding reconnect_while_watching_logout after_reconnect prefixed stop_logged_out
follow_branch max_reconnect pending t context_done = (emit_stopping ∷ [], stopped t.messages_stored)
follow_branch max_reconnect pending t (stale_reconnect last_success epoch race) =
    if pending
    then stop_logged_out t.messages_stored
    else if ltb 0 epoch && ltb last_success epoch
    then ([], again)
    else prefixed (emit_stale ∷ force_close ∷ store_epoch t.now ∷ dial ∷ [])
        (after_reconnect t.messages_stored (reconnect_while_watching_logout max_reconnect race))
follow_branch max_reconnect pending t (disconnected race) =
    if pending
    then stop_logged_out t.messages_stored
    else prefixed (emit_reconnecting ∷ store_epoch t.now ∷ dial ∷ [])
        (after_reconnect t.messages_stored (reconnect_while_watching_logout max_reconnect race))
follow_branch max_reconnect pending t logged_out = stop_logged_out t.messages_stored
follow_branch max_reconnect pending t (ticked last time) = ([], again)

-- The select of runSyncUntilIdle's loop.
unfoldable pub idle_branch : ℕ → ℕ → Bool → Turn → Branch → List Effect × Outcome
unfolding reconnect_while_watching_logout after_reconnect prefixed stop_logged_out
idle_branch idle_exit max_reconnect pending t context_done =
    (emit_stopping ∷ [], stopped t.messages_stored)
idle_branch idle_exit max_reconnect pending t (stale_reconnect last_success epoch race) =
    ([], again)
idle_branch idle_exit max_reconnect pending t (disconnected race) =
    if pending
    then stop_logged_out t.messages_stored
    else prefixed (emit_reconnecting ∷ dial ∷ [])
        (after_reconnect t.messages_stored (reconnect_while_watching_logout max_reconnect race))
idle_branch idle_exit max_reconnect pending t logged_out = stop_logged_out t.messages_stored
idle_branch idle_exit max_reconnect pending t (ticked last time) =
    if leb (last + idle_exit) time
    then (emit_idle_exit ∷ [], stopped t.messages_stored)
    else ([], again)

unfoldable pub next : Outcome → List Effect → List Effect × Outcome → List Effect × Outcome
unfolding prefixed
next again first rest = prefixed first rest
next (stopped stored) first rest = (first, stopped stored)
next (failed e stored) first rest = (first, failed e stored)

-- The loop with the select `turn`; `again` where the turns given are over.
unfoldable pub loop :
    (Bool → Turn → Branch → List Effect × Outcome) → Bool → List Turn → List Effect × Outcome
unfolding next
loop turn pending [] = ([], again)
loop turn pending (t ∷ ts) =
    let signalled = pending || t.arrived in
    let ran = turn signalled t t.branch in
    let rest = loop turn signalled ts in next ran.1 ran.0 rest

unfoldable pub run_sync_follow : ℕ → Bool → List Turn → List Effect × Outcome
unfolding loop follow_branch
run_sync_follow max_reconnect pending ts = loop (follow_branch max_reconnect) pending ts

unfoldable pub run_sync_until_idle : ℕ → ℕ → Bool → List Turn → List Effect × Outcome
unfolding loop idle_branch
run_sync_until_idle idle_exit max_reconnect pending ts =
    loop (idle_branch idle_exit max_reconnect) pending ts
