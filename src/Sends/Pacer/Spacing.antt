-- ===== src/Sends/Pacer/Spacing.antt =====
-- Dispatched sends keep their distance, and the gap that is drawn lies in the range.
use wacli.Common.{
  ℕ, ◌+◌, ◌-◌, ◌≤◌, ◌<◌, ◌≡◌, refl, true, false, Option, none, some, List, [], ◌∷◌, inl, inr,
  Option-cases, Text, text_eq, trim_space, Result, ok, arith, Bool-cases,
}
use wacli.Common.Int.{ℤ, pos}
use wacli.Sends.Pacer.{
  SendSpacing, enabled, disabled, ParseError, checked_spacing, parse_send_spacing, SendPacer,
  max_duration, rng_bound, pick, ended, wait, record_send, SlotRequest, Sent, serve, spacing_from,
  cut_dash,
}

-- What `rand.Int63n` documents: below its bound, where the bound is positive.
abbrev pub IsRandom : (ℕ → ℕ) → Type 0
IsRandom rng = (n : ℕ) → 0 < n → rng n < n

-- The gap lies between the bounds, and the bound handed to the random source is positive and fits
-- an int64, so drawing it does not panic.
pub pick_bounds :
    (rng : ℕ → ℕ) (s : SendSpacing)
    → IsRandom rng
    → s.min ≤ s.max
    → s.max ≤ max_duration
    → (s.min ≤ pick rng s)
      × (pick rng s ≤ s.max)
      × (s.min < s.max → (0 < rng_bound s) × (rng_bound s ≤ max_duration))
unfolding pick
pick_bounds rng s random le fits =
    ground (arith, random (rng_bound s), random (s.max - s.min), random (s.max - s.min + 1))

-- A wait that lets the caller send returns no earlier than the minimum gap after the last send, not
-- before it was called, and before the caller's context ends.
pub wait_spaced :
    (rng : ℕ → ℕ) (done : Option ℕ) (now lag : ℕ) (p : SendPacer)
    → (wait rng done now lag p).0 ≡ true
    → (now ≤ (wait rng done now lag p).1)
      × (ended done (wait rng done now lag p).1 ≡ false)
      × (enabled p.spacing ≡ true
          → p.has_last ≡ true
          → p.last + p.spacing.min ≤ (wait rng done now lag p).1)
unfolding wait
wait_spaced rng none now lag p h = ground arith
wait_spaced rng (some t) now lag p h = ground arith

-- Each send starts at least `gap` after `from`, and each next one at least `gap` after the end of the
-- one before.
abbrev pub SpacedFrom : ℕ → ℕ → List Sent → Type 0
SpacedFrom gap from [] = Unit
SpacedFrom gap from (s ∷ ss) =
    (from + gap ≤ s.started) × (s.started ≤ s.finished) × SpacedFrom gap s.finished ss

abbrev pub Spaced : ℕ → List Sent → Type 0
Spaced gap [] = Unit
Spaced gap (s ∷ ss) = (s.started ≤ s.finished) × SpacedFrom gap s.finished ss

record_send-enabled :
    (now : ℕ) (p : SendPacer)
    → enabled p.spacing ≡ true
    → record_send now p ≡ record p { last = now; has_last = true }
unfolding record_send
record_send-enabled now p e = rw e

serve-SpacedFrom :
    (now : ℕ) (rs : List SlotRequest) (p : SendPacer)
    → enabled p.spacing ≡ true
    → p.has_last ≡ true
    → SpacedFrom p.spacing.min p.last (serve now rs p)
unfolding serve
serve-SpacedFrom now [] p e l = tt
serve-SpacedFrom now (r ∷ rs) p e l =
    let turn = now + r.idle in
    let waited = wait r.rng r.done turn r.lag p in
    let end = waited.1 + r.run_time in
    elim (Bool-cases waited.0) [
      | inl went ↦
          let spaced = (wait_spaced r.rng r.done turn r.lag p went).2 e l in
          let later : SpacedFrom p.spacing.min end
              (serve end rs (record p { last = end; has_last = true })) =
            serve-SpacedFrom end rs (record p { last = end; has_last = true }) e refl in
          rw (serve, went) (spaced, omega arith, rw (record_send-enabled end p e) later)
      | inr refused ↦ rw (serve, refused) (serve-SpacedFrom waited.1 rs p e l)
    ]

-- With spacing on, the sends that the slot dispatches are spaced: each starts at least the minimum
-- gap after the one before it has finished, whatever the requests, refusals in between included.
pub serve-Spaced :
    (now : ℕ) (rs : List SlotRequest) (p : SendPacer)
    → enabled p.spacing ≡ true
    → Spaced p.spacing.min (serve now rs p)
unfolding serve
serve-Spaced now [] p e = tt
serve-Spaced now (r ∷ rs) p e =
    let waited = wait r.rng r.done (now + r.idle) r.lag p in
    let end = waited.1 + r.run_time in
    elim (Bool-cases waited.0) [
      | inl went ↦
          let later : SpacedFrom p.spacing.min end
              (serve end rs (record p { last = end; has_last = true })) =
            serve-SpacedFrom end rs (record p { last = end; has_last = true }) e refl in
          rw (serve, went) (omega arith, rw (record_send-enabled end p e) later)
      | inr refused ↦ rw (serve, refused) (serve-Spaced waited.1 rs p e)
    ]

checked_spacing-bounds :
    (lo hi : ℤ) (s : SendSpacing)
    → checked_spacing lo hi ≡ ok s
    → (s.min ≤ s.max) × (lo ≡ pos s.min) × (hi ≡ pos s.max)
unfolding checked_spacing
checked_spacing-bounds lo hi s h = ground arith

spacing_from-ordered :
    (parse_duration : Text → Option ℤ) (lo : Option ℤ) (rest : Option Text) (s : SendSpacing)
    → spacing_from parse_duration lo rest ≡ ok s
    → s.min ≤ s.max
unfolding spacing_from
spacing_from-ordered parse_duration none rest s h = cc
spacing_from-ordered parse_duration (some lo) none s h = (checked_spacing-bounds lo lo s h).0
spacing_from-ordered parse_duration (some lo) (some text) s h =
    elim (Option-cases (parse_duration (trim_space text))) [
      | inl e ↦ absurd (cc (h, e))
      | inr (hi, e) ↦ (checked_spacing-bounds lo hi s (rw (e, spacing_from) at h)).0
    ]

-- A spacing that is accepted has its bounds in order, whatever the parser of durations.
pub parse_send_spacing-ordered :
    (parse_duration : Text → Option ℤ) (raw : Text) (s : SendSpacing)
    → parse_send_spacing parse_duration raw ≡ ok s
    → s.min ≤ s.max
unfolding parse_send_spacing
parse_send_spacing-ordered parse_duration raw s h =
    elim (Bool-cases (text_eq (trim_space raw) [])) [
      | inl e ↦
          let same : ok disabled ≡ ok s = rw (e, parse_send_spacing) at h in
          omega (arith, ok_min s same)
      | inr e ↦
          spacing_from-ordered parse_duration
            (parse_duration (trim_space (cut_dash (trim_space raw)).0))
            ((cut_dash (trim_space raw)).1) s (rw (e, parse_send_spacing) at h)
    ]
  where
    ok_min :
        (t : SendSpacing)
        → ◌≡◌ {A = Result ParseError SendSpacing} (ok disabled) (ok t)
        → t.min ≤ t.max
    ok_min t e = ground arith
