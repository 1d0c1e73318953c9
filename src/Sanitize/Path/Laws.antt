-- ===== src/Sanitize/Path/Laws.antt =====
-- What a path segment made by internal/pathutil/sanitize.go is free of.
use wacli.Common.{
  ◌==◌, Bool-cases, All, All-trim_space, Text, codes, text_eq, text_eq_iff, trim_space, ℕ, ◌≡◌,
  refl, ◌≢◌, inl, inr, Bool, true, false, ◌&&◌, ◌||◌, [], ◌∷◌, map, arith,
}
use wacli.Sanitize.Path.{
  is_control, strip_control_chars, is_reserved, replaced, replace_dots, replace_char, sanitize,
  sanitize_segment, sanitize_filename,
}

-- Whether the text holds "..".
unfoldable pub has_dot_dot : Text → Bool
has_dot_dot [] = false
has_dot_dot (c ∷ []) = false
has_dot_dot (c ∷ d ∷ s) = ((c == 46) && (d == 46)) || has_dot_dot (d ∷ s)

-- A character that no file system reads as more than a letter.
abbrev pub IsSafeChar : ℕ → Type 0
IsSafeChar c = (is_control c ≡ false) × (is_reserved c ≡ false)

-- A text that names an entry of the directory it is joined to, and nothing else.
pub record IsSegment (s : Text) : Type 0 where
  chars : All IsSafeChar s
  no_dot_dot : has_dot_dot s ≡ false
  not_empty : s ≢ []
  not_dot : s ≢ codes "."

abbrev IsPlain : ℕ → Type 0
IsPlain c = is_control c ≡ false

strip-IsPlain : (s : Text) → All IsPlain (strip_control_chars s)
unfolding strip_control_chars
strip-IsPlain [] = tt
strip-IsPlain (c ∷ s) = elim (Bool-cases ((c == 0) || is_control c)) [
  | inl e ↦ rw e (strip-IsPlain s)
  | inr e ↦ rw e (ground arith, strip-IsPlain s)
]

replaced-IsSafeChar : (c : ℕ) → IsPlain c → IsSafeChar (replaced c)
unfolding replaced is_reserved is_control
replaced-IsSafeChar c h = ground arith

map-replaced : (s : Text) → All IsPlain s → All IsSafeChar (map replaced s)
map-replaced [] h = tt
map-replaced (c ∷ s) (p, h) = (replaced-IsSafeChar c p, map-replaced s h)

underscore : IsSafeChar 95
unfolding is_reserved is_control
underscore = (refl, refl)

dot : IsSafeChar 46
unfolding is_reserved is_control
dot = (refl, refl)

replace_dots-All :
    (held : Bool) (s : Text) → All IsSafeChar s → All IsSafeChar (replace_dots held s)
unfolding replace_dots
replace_dots-All true [] h = (dot, tt)
replace_dots-All false [] h = tt
replace_dots-All true (c ∷ s) (p, h) = elim (Bool-cases (c == 46)) [
  | inl e ↦ rw (e, replace_dots) (underscore, replace_dots-All false s h)
  | inr e ↦ rw (e, replace_dots) (dot, (p, replace_dots-All false s h))
]
replace_dots-All false (c ∷ s) (p, h) = elim (Bool-cases (c == 46)) [
  | inl e ↦ rw (e, replace_dots) (replace_dots-All true s h)
  | inr e ↦ rw (e, replace_dots) (p, replace_dots-All false s h)
]

replace_char-All :
    (separator : ℕ) (s : Text) → All IsSafeChar s → All IsSafeChar (map (replace_char separator) s)
unfolding replace_char
replace_char-All separator [] h = tt
replace_char-All separator (c ∷ s) (p, h) = elim (Bool-cases (c == separator)) [
  | inl e ↦ rw e (underscore, replace_char-All separator s h)
  | inr e ↦ rw e (p, replace_char-All separator s h)
]

has_dot_dot-other : (c : ℕ) (s : Text) → (c == 46) ≡ false → has_dot_dot (c ∷ s) ≡ has_dot_dot s
unfolding has_dot_dot
has_dot_dot-other c [] h = refl
has_dot_dot-other c (d ∷ s) h = rw h refl

replace_dots-none : (held : Bool) (s : Text) → has_dot_dot (replace_dots held s) ≡ false
unfolding replace_dots has_dot_dot
replace_dots-none true [] = refl
replace_dots-none false [] = refl
replace_dots-none true (c ∷ s) = elim (Bool-cases (c == 46)) [
  | inl e ↦
      rw (e, replace_dots)
        (rw (has_dot_dot-other 95 (replace_dots false s) refl) (replace_dots-none false s))
  | inr e ↦
      rw (e, replace_dots)
        (rw e (rw (has_dot_dot-other c (replace_dots false s) e) (replace_dots-none false s)))
]
replace_dots-none false (c ∷ s) = elim (Bool-cases (c == 46)) [
  | inl e ↦ rw (e, replace_dots) (replace_dots-none true s)
  | inr e ↦
      rw (e, replace_dots)
        (rw (has_dot_dot-other c (replace_dots false s) e) (replace_dots-none false s))
]

-- Writing underscores makes no new pair of dots.
replace_char-dot : (separator c : ℕ) → (c == 46) ≡ false → (replace_char separator c == 46) ≡ false
unfolding replace_char
replace_char-dot separator c h = ground arith

replace_char-none :
    (separator : ℕ) (s : Text)
    → has_dot_dot s ≡ false
    → has_dot_dot (map (replace_char separator) s) ≡ false
unfolding has_dot_dot
replace_char-none separator [] h = refl
replace_char-none separator (c ∷ []) h = refl
replace_char-none separator (c ∷ d ∷ s) h =
    let rest : has_dot_dot (d ∷ s) ≡ false = ground arith in
    let done = replace_char-none separator (d ∷ s) rest in
    elim (Bool-cases (c == 46)) [
      | inl e ↦
          let other : (d == 46) ≡ false = ground arith in
          let kept = replace_char-dot separator d other in ground arith
      | inr e ↦ let kept = replace_char-dot separator c e in ground arith
    ]

replace_dots-held : (s : Text) → replace_dots true s ≢ []
unfolding replace_dots
replace_dots-held [] h = cc
replace_dots-held (c ∷ s) h = ground arith

replace_dots-not_empty : (s : Text) → s ≢ [] → replace_dots false s ≢ []
unfolding replace_dots
replace_dots-not_empty [] n h = n refl
replace_dots-not_empty (c ∷ s) n h = elim (Bool-cases (c == 46)) [
  | inl e ↦ replace_dots-held s (rw (e, replace_dots) at h)
  | inr e ↦ ground arith
]

map-not_empty : (f : ℕ → ℕ) (s : Text) → s ≢ [] → map f s ≢ []
map-not_empty f [] n h = n refl
map-not_empty f (c ∷ s) n h = cc

text_eq-false : (s t : Text) → text_eq s t ≡ false → s ≢ t
text_eq-false s t h same = absurd (ground (arith, (text_eq_iff s t).1 same))

sanitize-IsSegment :
    (separator : ℕ) (fallback seg : Text)
    → IsSegment fallback
    → IsSegment (sanitize separator fallback seg)
unfolding sanitize
sanitize-IsSegment separator fallback seg safe =
    let trimmed : Text = trim_space (strip_control_chars seg) in
    let dotless : Text = replace_dots false (map replaced trimmed) in
    let plain : Text = map (replace_char separator) dotless in
    elim (Bool-cases (text_eq trimmed [])) [
      | inl e ↦ rw (sanitize, e) safe
      | inr e ↦ elim (Bool-cases (text_eq plain (46 ∷ []))) [
        | inl d ↦ rw (sanitize, e, d) safe
        | inr d ↦
            let kept : All IsPlain trimmed = All-trim_space IsPlain _ (strip-IsPlain seg) in
            let full : map replaced trimmed ≢ [] =
              map-not_empty replaced trimmed (text_eq-false trimmed [] e) in
            let result : IsSegment plain = record {
              chars =
                  replace_char-All separator dotless
                    (replace_dots-All false _ (map-replaced trimmed kept));
              no_dot_dot =
                  replace_char-none separator dotless
                    (replace_dots-none false (map replaced trimmed));
              not_empty =
                  map-not_empty (replace_char separator) dotless (replace_dots-not_empty _ full);
              not_dot = text_eq-false plain (46 ∷ []) d;
            } in
            rw (sanitize, e, d) result
      ]
    ]

unknown-IsSegment : IsSegment (codes "unknown")
unfolding has_dot_dot is_control is_reserved
unknown-IsSegment = record {
  chars = (
    (refl, refl),
    (
      (refl, refl),
      ((refl, refl), ((refl, refl), ((refl, refl), ((refl, refl), ((refl, refl), tt))))),
    ),
  );
  no_dot_dot = refl;
  not_empty = λ h. cc;
  not_dot = λ h. cc;
}

file-IsSegment : IsSegment (codes "file")
unfolding has_dot_dot is_control is_reserved
file-IsSegment = record {
  chars = ((refl, refl), ((refl, refl), ((refl, refl), ((refl, refl), tt))));
  no_dot_dot = refl;
  not_empty = λ h. cc;
  not_dot = λ h. cc;
}

-- Whatever the text and the platform's separator, what SanitizeSegment and SanitizeFilename return
-- is not empty, is not ".", does not contain "..", and has no control character and none of
-- / \ : @ ? # * < > |.
pub sanitize_IsSegment :
    (separator : ℕ) (text : Text)
    → IsSegment (sanitize_segment separator text) × IsSegment (sanitize_filename separator text)
unfolding sanitize_segment sanitize_filename
sanitize_IsSegment separator text = (
  sanitize-IsSegment separator _ text unknown-IsSegment,
  sanitize-IsSegment separator _ text file-IsSegment,
)
