-- ===== src/Sanitize/Human.antt =====
-- Text made safe for a terminal: internal/out/sanitize.go. The text is Go's string, a list of bytes
-- (numbers below 256), and need not be UTF-8; what the builder holds is the list of the code points
-- written to it.
pub mod Laws
pub mod Fuel
use wacli.Common.{
  ltb, leb, ◌==◌, if◌then◌else◌, Bool-cases, Option-cases, ltb→lt, lt→ltb, ==_iff, All, All-append,
  All-trim_space, Text, codes, text_eq, text_eq_iff, text_eq_refl, trim_space, has_prefix, length,
  take, drop, ℕ, zero, suc, ◌+◌, ◌-◌, ◌*◌, ◌/◌, ◌%◌, ◌≤◌, ◌<◌, min, max, ◌≡◌, refl, sym, ap, ◌∙◌,
  ◌≢◌, ◌↔◌, ◌⊎◌, inl, inr, Bool, true, false, not, ◌&&◌, ◌||◌, Option, none, some, List, [], ◌∷◌,
  ◌++◌, map, reverse, arith,
}

-- A code point and the number of bytes it took; `invalid` is (utf8.RuneError, 1).
pub data Decoded : Type 0 where
  rune : ℕ → ℕ → Decoded
  invalid : Decoded

-- A continuation byte between the bounds.
unfoldable pub is_cont : ℕ → ℕ → ℕ → Bool
is_cont lo hi b = leb lo b && leb b hi

unfoldable pub decode_two : ℕ → List ℕ → Decoded
unfolding is_cont
decode_two b0 [] = invalid
decode_two b0 (b1 ∷ s) =
    if is_cont 0x80 0xbf b1 then rune ((b0 - 0xc0) * 64 + (b1 - 0x80)) 2 else invalid

unfoldable pub decode_three : ℕ → List ℕ → Decoded
unfolding is_cont
decode_three b0 [] = invalid
decode_three b0 (b1 ∷ []) = invalid
decode_three b0 (b1 ∷ b2 ∷ s) =
    let lo = if b0 == 0xe0 then 0xa0 else 0x80 in
    let hi = if b0 == 0xed then 0x9f else 0xbf in
    if is_cont lo hi b1 && is_cont 0x80 0xbf b2
    then rune ((b0 - 0xe0) * 4096 + (b1 - 0x80) * 64 + (b2 - 0x80)) 3
    else invalid

unfoldable pub decode_four : ℕ → List ℕ → Decoded
unfolding is_cont
decode_four b0 [] = invalid
decode_four b0 (b1 ∷ []) = invalid
decode_four b0 (b1 ∷ b2 ∷ []) = invalid
decode_four b0 (b1 ∷ b2 ∷ b3 ∷ s) =
    let lo = if b0 == 0xf0 then 0x90 else 0x80 in
    let hi = if b0 == 0xf4 then 0x8f else 0xbf in
    if is_cont lo hi b1 && is_cont 0x80 0xbf b2 && is_cont 0x80 0xbf b3
    then rune ((b0 - 0xf0) * 262144 + (b1 - 0x80) * 4096 + (b2 - 0x80) * 64 + (b3 - 0x80)) 4
    else invalid

-- `utf8.DecodeRuneInString` at a byte and the bytes after it.
unfoldable pub decode_rune : ℕ → List ℕ → Decoded
unfolding decode_two decode_three decode_four
decode_rune b0 s =
    if ltb b0 0x80
    then rune b0 1
    else if ltb b0 0xc2
    then invalid
    else if ltb b0 0xe0
    then decode_two b0 s
    else if ltb b0 0xf0
    then decode_three b0 s
    else if ltb b0 0xf5
    then decode_four b0 s
    else invalid

-- The index after the final byte of a control sequence (ESC [), from the index `i` of the bytes.
unfoldable pub csi_end : ℕ → List ℕ → Option ℕ
csi_end i [] = none
csi_end i (b ∷ s) =
    let rest = csi_end (suc i) s in if leb 0x40 b && leb b 0x7e then some (suc i) else rest

unfoldable pub is_backslash : List ℕ → Bool
is_backslash [] = false
is_backslash (b ∷ s) = b == 92

-- The index after BEL or ESC \, which end an operating system command (ESC ]).
unfoldable pub osc_end : ℕ → List ℕ → Option ℕ
unfolding is_backslash
osc_end i [] = none
osc_end i (b ∷ s) =
    let rest = osc_end (suc i) s in
    if b == 0x07
    then some (suc i)
    else if (b == 0x1b) && is_backslash s
    then some (suc (suc i))
    else rest

unfoldable pub or_all : ℕ → Option ℕ → ℕ
or_all n none = n
or_all n (some i) = i

-- `escapeSequenceLen` of a text that starts with the byte b0.
unfoldable pub escape_sequence_len : List ℕ → ℕ
unfolding csi_end osc_end or_all
escape_sequence_len [] = 1
escape_sequence_len (b0 ∷ []) = 1
escape_sequence_len (b0 ∷ b1 ∷ s) =
    if not (b0 == 0x1b)
    then 1
    else if b1 == 91
    then or_all (2 + length s) (csi_end 2 s)
    else if b1 == 93
    then or_all (2 + length s) (osc_end 2 s)
    else 2

-- r < 0x20 || r == 0x7f || (r >= 0x80 && r <= 0x9f)
unfoldable pub is_control_rune : ℕ → Bool
is_control_rune r = ltb r 0x20 || (r == 0x7f) || (leb 0x80 r && leb r 0x9f)

-- What the builder gets for a dropped character: a space, unless the last one written was a dropped
-- character's too.
unfoldable pub blank : Bool → Text → Text
blank last_space rest = if last_space then rest else 32 ∷ rest

-- One turn of SanitizeHuman's loop at a byte: how many bytes it takes, and what is written before
-- what the rest of the loop writes, which depends on `lastSpace`.
pub data Written : Type 0 where
  nothing : Written
  space : Written
  itself : ℕ → Written

unfoldable pub human_at : List ℕ → Decoded → ℕ × Written
unfolding escape_sequence_len is_control_rune
human_at s invalid = (1, nothing)
human_at s (rune r size) =
    if r == 0x1b
    then (escape_sequence_len s, space)
    else if is_control_rune r
    then (size, space)
    else (size, itself r)

-- `rest` is what the loop writes afterwards, from the value of `lastSpace`.
unfoldable pub human_written : Bool → Written → (Bool → Text) → Text
unfolding blank
human_written last_space nothing rest = rest last_space
human_written last_space space rest = blank last_space (rest true)
human_written last_space (itself r) rest = r ∷ rest false

-- The loop of SanitizeHuman, on as many turns as the text has bytes: every turn takes a byte or more.
unfoldable pub human_loop : ℕ → Bool → List ℕ → Text
unfolding human_at human_written decode_rune
human_loop fuel last_space [] = []
human_loop zero last_space (b ∷ s) = []
human_loop (suc fuel) last_space (b ∷ s) =
    let turn = human_at (b ∷ s) (decode_rune b s) in
    let rest = drop turn.0 (b ∷ s) in human_written last_space turn.1 (λ l. human_loop fuel l rest)

unfoldable pub sanitize_human : List ℕ → Text
unfolding human_loop
sanitize_human s = trim_space (human_loop (length s) false s)

unfoldable pub body_at : List ℕ → Decoded → ℕ × Written
unfolding escape_sequence_len is_control_rune
body_at s invalid = (1, nothing)
body_at s (rune r size) =
    if r == 0x1b
    then (escape_sequence_len s, nothing)
    else if (r == 10) || (r == 9)
    then (size, itself r)
    else if is_control_rune r
    then (size, nothing)
    else (size, itself r)

unfoldable pub written : Written → Text → Text
written nothing rest = rest
written space rest = 32 ∷ rest
written (itself r) rest = r ∷ rest

-- The loop of SanitizeBody.
unfoldable pub body_loop : ℕ → List ℕ → Text
unfolding body_at written decode_rune
body_loop fuel [] = []
body_loop zero (b ∷ s) = []
body_loop (suc fuel) (b ∷ s) =
    let turn = body_at (b ∷ s) (decode_rune b s) in
    let rest = body_loop fuel (drop turn.0 (b ∷ s)) in written turn.1 rest

unfoldable pub sanitize_body : List ℕ → Text
unfolding body_loop
sanitize_body s = body_loop (length s) s
