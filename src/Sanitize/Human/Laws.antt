-- ===== src/Sanitize/Human/Laws.antt =====
-- What the terminal is spared, and that enough fuel is given: internal/out/sanitize.go.
use wacli.Common.{
  ◌==◌, Bool-cases, All, All-trim_space, Text, length, ℕ, zero, suc, ◌≡◌, refl, ◌⊎◌, inl, inr, Bool,
  true, false, ◌||◌, List, [], ◌∷◌, arith,
}
use wacli.Sanitize.Human.{
  Decoded, rune, invalid, decode_rune, is_control_rune, blank, Written, nothing, space, itself,
  human_at, human_written, human_loop, sanitize_human, body_at, written, body_loop, sanitize_body,
}

-- A code point a terminal shows and does not obey: no control character below 32 or from 127 to 159.
abbrev pub IsShown : ℕ → Type 0
IsShown c = is_control_rune c ≡ false

-- The same, with the line feed and the tab.
abbrev pub IsBodyChar : ℕ → Type 0
IsBodyChar c = (is_control_rune c ≡ false) ⊎ ((c ≡ 10) ⊎ (c ≡ 9))

abbrev IsWritable {ℓ} : (ℕ → Type ℓ) → Written → Type ℓ
IsWritable P nothing = Unit
IsWritable P space = Unit
IsWritable P (itself r) = P r

human_at-IsShown : (s : List ℕ) (d : Decoded) → IsWritable IsShown (human_at s d).1
unfolding human_at
human_at-IsShown s invalid = tt
human_at-IsShown s (rune r size) = elim (Bool-cases (r == 0x1b)) [
  | inl e ↦ rw e tt
  | inr e ↦ elim (Bool-cases (is_control_rune r)) [ inl c ↦ rw (e, c) tt | inr c ↦ rw (e, c) c ]
]

body_at-IsBodyChar : (s : List ℕ) (d : Decoded) → IsWritable IsBodyChar (body_at s d).1
unfolding body_at
body_at-IsBodyChar s invalid = tt
body_at-IsBodyChar s (rune r size) = elim (Bool-cases (r == 0x1b)) [
  | inl e ↦ rw e tt
  | inr e ↦ elim (Bool-cases ((r == 10) || (r == 9))) [
    | inl w ↦ rw (e, w) (inr (ground arith))
    | inr w ↦ elim (Bool-cases (is_control_rune r)) [
      | inl c ↦ rw (e, w, c) tt
      | inr c ↦ rw (e, w, c) (inl c)
    ]
  ]
]

space-IsShown : IsShown 32
unfolding is_control_rune
space-IsShown = refl

written-IsBodyChar :
    (w : Written) (rest : Text)
    → IsWritable IsBodyChar w
    → All IsBodyChar rest
    → All IsBodyChar (written w rest)
unfolding written
written-IsBodyChar nothing rest p h = h
written-IsBodyChar space rest p h = (inl space-IsShown, h)
written-IsBodyChar (itself r) rest p h = (p, h)

body_loop-IsBodyChar : (fuel : ℕ) (s : List ℕ) → All IsBodyChar (body_loop fuel s)
unfolding body_loop
body_loop-IsBodyChar fuel [] = tt
body_loop-IsBodyChar zero (b ∷ s) = tt
body_loop-IsBodyChar (suc fuel) (b ∷ s) =
    written-IsBodyChar _ _ (body_at-IsBodyChar (b ∷ s) (decode_rune b s))
      (body_loop-IsBodyChar fuel _)

-- Whatever the bytes, SanitizeBody writes no control character and no ESC but line feeds and tabs.
pub sanitize_body-IsBodyChar : (s : List ℕ) → All IsBodyChar (sanitize_body s)
unfolding sanitize_body
sanitize_body-IsBodyChar s = body_loop-IsBodyChar (length s) s

blank-IsShown :
    (last_space : Bool) (rest : Text) → All IsShown rest → All IsShown (blank last_space rest)
unfolding blank
blank-IsShown true rest h = h
blank-IsShown false rest h = (space-IsShown, h)

human_written-IsShown :
    (last_space : Bool) (w : Written) (rest : Bool → Text)
    → IsWritable IsShown w
    → ((l : Bool) → All IsShown (rest l))
    → All IsShown (human_written last_space w rest)
unfolding human_written
human_written-IsShown last_space nothing rest p h = h last_space
human_written-IsShown last_space space rest p h = blank-IsShown last_space _ (h true)
human_written-IsShown last_space (itself r) rest p h = (p, h false)

human_loop-IsShown :
    (fuel : ℕ) (last_space : Bool) (s : List ℕ) → All IsShown (human_loop fuel last_space s)
unfolding human_loop
human_loop-IsShown fuel last_space [] = tt
human_loop-IsShown zero last_space (b ∷ s) = tt
human_loop-IsShown (suc fuel) last_space (b ∷ s) =
    human_written-IsShown last_space _ _ (human_at-IsShown (b ∷ s) (decode_rune b s))
      (λ l. human_loop-IsShown fuel l _)

-- Whatever the bytes, SanitizeHuman writes no control character, no line feed, no tab and no ESC.
pub sanitize_human-IsShown : (s : List ℕ) → All IsShown (sanitize_human s)
unfolding sanitize_human
sanitize_human-IsShown s = All-trim_space IsShown _ (human_loop-IsShown (length s) false s)
