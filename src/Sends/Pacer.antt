-- ===== src/Sends/Pacer.antt =====
-- cmd/wacli/send_spacing.go: the minimum gap between serialized sends. Durations are nanoseconds;
-- instants count them from a common origin. `time.ParseDuration`, the random source and the moment
-- at which the caller's context ends are arguments.
pub mod Spacing
mod Examples
use wacli.Common.{
  ℕ, ◌+◌, ◌-◌, ◌^◌, ◌≤◌, ◌<◌, max, Bool, true, false, not, ◌&&◌, ◌||◌, Option, none, some, List, [],
  ◌∷◌, ltb, leb, ◌==◌, if◌then◌else◌, Text, text_eq, trim_space, Result, ok, err,
}
use wacli.Common.Int.{ℤ, pos, negsuc, pos_part, ltb_ℤ}

-- `sendSpacing`: both bounds are non-negative by `parse_send_spacing`.
pub record SendSpacing : Type 0 where
  pub min : ℕ
  pub max : ℕ

abbrev pub enabled : SendSpacing → Bool
enabled s = ltb 0 s.max

abbrev pub disabled : SendSpacing
disabled = record { min = 0; max = 0 }

pub data ParseError : Type 0 where
  bad_duration negative max_below_min : ParseError

-- `strings.Cut(s, "-")`
unfoldable pub cut_dash : Text → Text × Option Text
cut_dash [] = ([], none)
cut_dash (c ∷ s) = let rest = cut_dash s in if c == b'-' then ([], some s) else (c ∷ rest.0, rest.1)

-- The checks on the two parsed bounds.
unfoldable pub checked_spacing : ℤ → ℤ → Result ParseError SendSpacing
checked_spacing lo hi =
    if ltb_ℤ lo (pos 0) || ltb_ℤ hi (pos 0)
    then err negative
    else if ltb_ℤ hi lo
    then err max_below_min
    else ok (record { min = pos_part lo; max = pos_part hi })

module _ (parse_duration : Text → Option ℤ) where
  spacing_from : Option ℤ → Option Text → Result ParseError SendSpacing
  unfolding checked_spacing
  spacing_from none hi = err bad_duration
  spacing_from (some lo) none = checked_spacing lo lo
  spacing_from (some lo) (some text) = elim (parse_duration (trim_space text)) [
    | none ↦ err bad_duration
    | some hi ↦ checked_spacing lo hi
  ]

  -- `parseSendSpacing`
  pub parse_send_spacing : Text → Result ParseError SendSpacing
  unfolding spacing_from cut_dash
  parse_send_spacing raw =
      let text = trim_space raw in
      let parts = cut_dash text in
      if text_eq text []
      then ok disabled
      else spacing_from (parse_duration (trim_space parts.0)) parts.1

-- `sendPacer` without its clock, sleeper and random source.
pub record SendPacer : Type 0 where
  pub spacing : SendSpacing
  pub last : ℕ
  pub has_last : Bool

abbrev pub max_duration : ℕ
max_duration = 2 ^ 63 - 1

-- The bound that `pick` hands to `rand.Int63n`, and the gap from what that returns.
unfoldable pub rng_bound : SendSpacing → ℕ
rng_bound s = if (s.max - s.min) == max_duration then s.max - s.min else s.max - s.min + 1

unfoldable pub pick : (ℕ → ℕ) → SendSpacing → ℕ
unfolding rng_bound
pick rng s = if leb s.max s.min then s.min else s.min + rng (rng_bound s)

-- Has a context that ends at the given moment, if ever, ended at `now`?
abbrev pub ended : Option ℕ → ℕ → Bool
ended none now = false
ended (some t) now = leb t now

-- `sleepWithContext`: the moment at which a sleep of `d` from `now` returns; `lag` is how late the
-- timer fires.
unfoldable pub wake_at : Option ℕ → ℕ → ℕ → ℕ → ℕ
wake_at none now d lag = now + d + lag
wake_at (some t) now d lag = if leb t (now + d) then max now t else now + d + lag

-- `wait`: may the caller send, and when does the call return?
unfoldable pub wait : (ℕ → ℕ) → Option ℕ → ℕ → ℕ → SendPacer → Bool × ℕ
unfolding pick wake_at
wait rng done now lag p =
    let due = p.last + pick rng p.spacing in
    let woken = if ltb now due then wake_at done now (due - now) lag else now in
    if not (enabled p.spacing) || not p.has_last
    then (not (ended done now), now)
    else (not (ended done woken), woken)

-- `record`, at the moment `now`
unfoldable pub record_send : ℕ → SendPacer → SendPacer
record_send now p = if enabled p.spacing then record p { last = now; has_last = true } else p

abbrev pub new_send_pacer : SendSpacing → SendPacer
new_send_pacer s = record { spacing = s; last = 0; has_last = false }

-- A request at the daemon's send slot: the random source's answer, when its context ends, how long
-- it stays in the queue after the previous one, the timer's lag and how long its handler runs.
pub record SlotRequest : Type 0 where
  pub rng : ℕ → ℕ
  pub done : Option ℕ
  pub idle : ℕ
  pub lag : ℕ
  pub run_time : ℕ

-- A send that was dispatched: when its handler started and when it returned.
pub record Sent : Type 0 where
  pub started : ℕ
  pub finished : ℕ

-- The slot serves the requests in turn: wait, then run the handler and record its end, or refuse.
unfoldable pub serve : ℕ → List SlotRequest → SendPacer → List Sent
unfolding wait record_send
serve now [] p = []
serve now (r ∷ rs) p =
    let turn = now + r.idle in
    let waited = wait r.rng r.done turn r.lag p in
    let end = waited.1 + r.run_time in
    let sends = serve end rs (record_send end p) in
    let refused = serve waited.1 rs p in
    if waited.0 then record { started = waited.1; finished = end } ∷ sends else refused
