-- ===== src/Sanitize/Path.antt =====
-- A path segment or a file name made safe: internal/pathutil/sanitize.go.
pub mod Laws
use wacli.Common.{
  ltb, leb, ◌==◌, if◌then◌else◌, Bool-cases, Option-cases, ltb→lt, lt→ltb, ==_iff, All, All-append,
  All-trim_space, Text, codes, text_eq, text_eq_iff, text_eq_refl, trim_space, has_prefix, length,
  take, drop, ℕ, zero, suc, ◌+◌, ◌-◌, ◌*◌, ◌/◌, ◌%◌, ◌≤◌, ◌<◌, min, max, ◌≡◌, refl, sym, ap, ◌∙◌,
  ◌≢◌, ◌↔◌, ◌⊎◌, inl, inr, Bool, true, false, not, ◌&&◌, ◌||◌, Option, none, some, List, [], ◌∷◌,
  ◌++◌, map, reverse, arith,
}

-- `unicode.IsControl`: the category Cc.
unfoldable pub is_control : ℕ → Bool
is_control c = ltb c 0x20 || (leb 0x7f c && leb c 0x9f)

-- `strings.Map` with -1 for the characters to drop.
unfoldable pub strip_control_chars : Text → Text
strip_control_chars [] = []
strip_control_chars (c ∷ s) =
    let rest = strip_control_chars s in if (c == 0) || is_control c then rest else c ∷ rest

-- / \ : @ ? # * < > |
unfoldable pub is_reserved : ℕ → Bool
is_reserved c =
    (c == 47)
    || (c == 92)
    || (c == 58)
    || (c == 64)
    || (c == 63)
    || (c == 35)
    || (c == 42)
    || (c == 60)
    || (c == 62)
    || (c == 124)

unfoldable pub replaced : ℕ → ℕ
replaced c = if is_reserved c then 95 else c

-- `strings.ReplaceAll(s, "..", "_")`, left to right: `held` tells whether a dot was read and not
-- written yet.
unfoldable pub replace_dots : Bool → Text → Text
replace_dots true [] = 46 ∷ []
replace_dots false [] = []
replace_dots true (c ∷ s) = elim (c == 46) [
  | true ↦ 95 ∷ replace_dots false s
  | false ↦ 46 ∷ c ∷ replace_dots false s
]
replace_dots false (c ∷ s) = elim (c == 46) [
  | true ↦ replace_dots true s
  | false ↦ c ∷ replace_dots false s
]

unfoldable pub replace_char : ℕ → ℕ → ℕ
replace_char separator c = if c == separator then 95 else c

-- The body that SanitizeSegment and SanitizeFilename share: `fallback` is "unknown" or "file", and
-- `separator` the platform's filepath.Separator.
unfoldable pub sanitize : ℕ → Text → Text → Text
unfolding strip_control_chars replaced replace_dots replace_char
sanitize separator fallback seg =
    let trimmed = trim_space (strip_control_chars seg) in
    if text_eq trimmed []
    then fallback
    else let plain = map (replace_char separator) (replace_dots false (map replaced trimmed)) in
      if text_eq plain (46 ∷ []) then fallback else plain

unfoldable pub sanitize_segment : ℕ → Text → Text
unfolding sanitize
sanitize_segment separator seg = sanitize separator (codes "unknown") seg

unfoldable pub sanitize_filename : ℕ → Text → Text
unfolding sanitize
sanitize_filename separator name = sanitize separator (codes "file") name
