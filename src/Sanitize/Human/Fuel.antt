-- ===== src/Sanitize/Human/Fuel.antt =====
-- That the loops of internal/out/sanitize.go reach the end of the text: every turn takes a byte.
use wacli.Common.{
  ltb, if◌then◌else◌, Text, length, drop, ℕ, zero, suc, ◌+◌, ◌≤◌, ◌<◌, ◌≡◌, ap, Bool, true, false,
  List, [], ◌∷◌, arith,
}
use wacli.Sanitize.Human.{
  Decoded, rune, invalid, decode_two, decode_three, decode_four, decode_rune, csi_end, osc_end,
  or_all, escape_sequence_len, blank, Written, nothing, space, itself, human_at, human_written,
  human_loop, body_at, written, body_loop,
}

abbrev Takes : Decoded → Type 0
Takes invalid = Unit
Takes (rune r size) = 0 < size

Takes-if : (b : Bool) (d e : Decoded) → Takes d → Takes e → Takes (if b then d else e)
Takes-if true d e p q = p
Takes-if false d e p q = q

decode_two-Takes : (b : ℕ) (s : List ℕ) → Takes (decode_two b s)
unfolding decode_two
decode_two-Takes b [] = tt
decode_two-Takes b (b1 ∷ s) = Takes-if _ (rune _ 2) invalid (omega arith) tt

decode_three-Takes : (b : ℕ) (s : List ℕ) → Takes (decode_three b s)
unfolding decode_three
decode_three-Takes b [] = tt
decode_three-Takes b (b1 ∷ []) = tt
decode_three-Takes b (b1 ∷ b2 ∷ s) = Takes-if _ (rune _ 3) invalid (omega arith) tt

decode_four-Takes : (b : ℕ) (s : List ℕ) → Takes (decode_four b s)
unfolding decode_four
decode_four-Takes b [] = tt
decode_four-Takes b (b1 ∷ []) = tt
decode_four-Takes b (b1 ∷ b2 ∷ []) = tt
decode_four-Takes b (b1 ∷ b2 ∷ b3 ∷ s) = Takes-if _ (rune _ 4) invalid (omega arith) tt

decode_rune-Takes : (b : ℕ) (s : List ℕ) → Takes (decode_rune b s)
unfolding decode_rune
decode_rune-Takes b s =
    let four : Decoded = if ltb b 0xf5 then decode_four b s else invalid in
    let three : Decoded = if ltb b 0xf0 then decode_three b s else four in
    let two : Decoded = if ltb b 0xe0 then decode_two b s else three in
    let other : Decoded = if ltb b 0xc2 then invalid else two in
    let four-Takes = Takes-if (ltb b 0xf5) (decode_four b s) invalid (decode_four-Takes b s) tt in
    let three-Takes =
      Takes-if (ltb b 0xf0) (decode_three b s) four (decode_three-Takes b s) four-Takes in
    let two-Takes =
      Takes-if (ltb b 0xe0) (decode_two b s) three (decode_two-Takes b s) three-Takes in
    let other-Takes = Takes-if (ltb b 0xc2) invalid two tt two-Takes in
    Takes-if (ltb b 0x80) (rune b 1) other (omega arith) other-Takes

csi_end-positive : (i : ℕ) (s : List ℕ) (n : ℕ) → 0 < n → 0 < or_all n (csi_end i s)
unfolding csi_end or_all
csi_end-positive i [] n h = h
csi_end-positive i (b ∷ s) n h = let rest = csi_end-positive (suc i) s n h in ground arith

osc_end-positive : (i : ℕ) (s : List ℕ) (n : ℕ) → 0 < n → 0 < or_all n (osc_end i s)
unfolding osc_end or_all
osc_end-positive i [] n h = h
osc_end-positive i (b ∷ s) n h = let rest = osc_end-positive (suc i) s n h in ground arith

escape_sequence_len-positive : (s : List ℕ) → 0 < escape_sequence_len s
unfolding escape_sequence_len
escape_sequence_len-positive [] = omega arith
escape_sequence_len-positive (b ∷ []) = omega arith
escape_sequence_len-positive (b0 ∷ b1 ∷ s) =
    let csi = csi_end-positive 2 s (2 + length s) (omega arith) in
    let osc = osc_end-positive 2 s (2 + length s) (omega arith) in ground arith

human_at-positive : (s : List ℕ) (d : Decoded) → Takes d → 0 < (human_at s d).0
unfolding human_at
human_at-positive s invalid p = omega arith
human_at-positive s (rune r size) p = let esc = escape_sequence_len-positive s in ground arith

body_at-positive : (s : List ℕ) (d : Decoded) → Takes d → 0 < (body_at s d).0
unfolding body_at
body_at-positive s invalid p = omega arith
body_at-positive s (rune r size) p = let esc = escape_sequence_len-positive s in ground arith

length-drop_le : (n : ℕ) (s : List ℕ) → length (drop n s) ≤ length s
length-drop_le zero s = omega arith
length-drop_le (suc n) [] = omega arith
length-drop_le (suc n) (b ∷ s) = omega (arith, length-drop_le n s)

-- A turn at a byte leaves fewer bytes.
length-drop_lt : (n b : ℕ) (s : List ℕ) → 0 < n → length (drop n (b ∷ s)) ≤ length s
length-drop_lt zero b s h = absurd (omega arith)
length-drop_lt (suc n) b s h = length-drop_le n s

-- The loop of SanitizeBody gives the same on any fuel from the length of the text on.
pub body_loop_fuel :
    (m n : ℕ) (s : List ℕ) → length s ≤ m → length s ≤ n → body_loop m s ≡ body_loop n s
unfolding body_loop
body_loop_fuel m n [] h k = cc
body_loop_fuel zero n (b ∷ s) h k = absurd (omega arith)
body_loop_fuel (suc m) zero (b ∷ s) h k = absurd (omega arith)
body_loop_fuel (suc m) (suc n) (b ∷ s) h k =
    let turn = body_at (b ∷ s) (decode_rune b s) in
    let less = length-drop_lt turn.0 b s (body_at-positive (b ∷ s) _ (decode_rune-Takes b s)) in
    ap (written turn.1) (body_loop_fuel m n (drop turn.0 (b ∷ s)) (omega arith) (omega arith))

human_written_ext :
    (last_space : Bool) (w : Written) (f g : Bool → Text)
    → ((l : Bool) → f l ≡ g l)
    → human_written last_space w f ≡ human_written last_space w g
unfolding human_written
human_written_ext last_space nothing f g h = h last_space
human_written_ext last_space space f g h = ap (blank last_space) (h true)
human_written_ext last_space (itself r) f g h = ap (λ t. r ∷ t) (h false)

-- The loop of SanitizeHuman gives the same on any fuel from the length of the text on.
pub human_loop_fuel :
    (m n : ℕ) (last_space : Bool) (s : List ℕ)
    → length s ≤ m
    → length s ≤ n
    → human_loop m last_space s ≡ human_loop n last_space s
unfolding human_loop
human_loop_fuel m n last_space [] h k = cc
human_loop_fuel zero n last_space (b ∷ s) h k = absurd (omega arith)
human_loop_fuel (suc m) zero last_space (b ∷ s) h k = absurd (omega arith)
human_loop_fuel (suc m) (suc n) last_space (b ∷ s) h k =
    let turn = human_at (b ∷ s) (decode_rune b s) in
    let less = length-drop_lt turn.0 b s (human_at-positive (b ∷ s) _ (decode_rune-Takes b s)) in
    human_written_ext last_space turn.1 _ _
      (λ l. human_loop_fuel m n l (drop turn.0 (b ∷ s)) (omega arith) (omega arith))
