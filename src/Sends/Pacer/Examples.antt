-- ===== src/Sends/Pacer/Examples.antt =====
-- A gap of two to five seconds of cmd/wacli/send_spacing.go, in nanoseconds, and two sends.
use wacli.Common.{
  is_space, trim_left, ok, if◌then◌else◌, Text, codes, text_eq, trim_space, ℕ, ◌+◌, ◌≤◌, ◌≡◌, refl,
  true, false, Option, none, some, [], ◌∷◌,
}
use wacli.Common.Int.{ℤ, pos}
use wacli.Sends.Pacer.{
  SendSpacing, enabled, parse_send_spacing, SendPacer, pick, ended, wait, SlotRequest, serve,
  wake_at, record_send, new_send_pacer, cut_dash, checked_spacing, spacing_from,
}
use wacli.Sends.Pacer.Spacing.{IsRandom, Spaced, wait_spaced, serve-Spaced}

abbrev spacing : SendSpacing
spacing = record { min = 2000000000; max = 5000000000 }

abbrev lowest : ℕ → ℕ
lowest n = 0

lowest-IsRandom : IsRandom lowest
lowest-IsRandom n h = h

abbrev pacer : SendPacer
pacer = record { spacing = spacing; last = 1000; has_last = true }

abbrev request : SlotRequest
request = record { rng = lowest; done = none; idle = 10; lag = 1; run_time = 500 }

-- A parser that knows two durations.
abbrev seconds : Text → Option ℤ
seconds t =
    if text_eq t (codes "2s")
    then some (pos 2000000000)
    else if text_eq t (codes "5s")
    then some (pos 5000000000)
    else none

parsed : parse_send_spacing seconds (codes "2s-5s") ≡ ok spacing
unfolding parse_send_spacing cut_dash spacing_from checked_spacing trim_space trim_left is_space
parsed = refl

-- The second of two sends waits for the gap.
served :
    serve 0 (request ∷ request ∷ []) (new_send_pacer spacing)
    ≡ record { started = 10; finished = 510 }
      ∷ record { started = 2000000511; finished = 2000001011 }
      ∷ []
unfolding serve wait pick wake_at record_send
served = refl

wait_spaced_example :
    (1500 ≤ (wait lowest none 1500 0 pacer).1)
    × (ended none (wait lowest none 1500 0 pacer).1 ≡ false)
    × (enabled spacing ≡ true → true ≡ true → 1000 + 2000000000 ≤ (wait lowest none 1500 0 pacer).1)
unfolding wait pick wake_at
wait_spaced_example = wait_spaced lowest none 1500 0 pacer refl

serve-Spaced_example : Spaced 2000000000 (serve 0 (request ∷ request ∷ []) pacer)
serve-Spaced_example = serve-Spaced 0 (request ∷ request ∷ []) pacer refl
