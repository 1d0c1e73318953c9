-- ===== src/Sanitize/Examples.antt =====
-- Texts made safe, after internal/pathutil/sanitize.go and internal/out/sanitize.go.
use wacli.Common.{is_space, trim_left, All, codes, trim_space, ℕ, ◌≡◌, refl, List, [], ◌∷◌, arith}
use wacli.Sanitize.Path.{
  sanitize_segment, sanitize_filename, sanitize, strip_control_chars, is_control, replaced,
  is_reserved, replace_dots, replace_char,
}
use wacli.Sanitize.Path.Laws.{IsSegment, sanitize_IsSegment}
use wacli.Sanitize.Human.{
  sanitize_human, human_loop, body_loop, human_at, human_written, blank, decode_rune,
  escape_sequence_len, csi_end, or_all, is_control_rune,
}
use wacli.Sanitize.Human.Laws.{IsShown, sanitize_human-IsShown}
use wacli.Sanitize.Human.Fuel.{body_loop_fuel}

climbs : sanitize_segment 47 (codes "../../etc") ≡ codes "____etc"
unfolding sanitize_segment sanitize strip_control_chars is_control replaced is_reserved replace_dots
    replace_char trim_space trim_left is_space
climbs = refl

sanitize_IsSegment_example :
    IsSegment (sanitize_segment 47 (codes "../../etc"))
    × IsSegment (sanitize_filename 47 (codes "../../etc"))
sanitize_IsSegment_example = sanitize_IsSegment 47 (codes "../../etc")

-- A red letter: ESC [31m, the letter, a byte that is no UTF-8, and a bell.
abbrev red : List ℕ
red = 27 ∷ 91 ∷ 51 ∷ 49 ∷ 109 ∷ 97 ∷ 255 ∷ 7 ∷ []

plain : sanitize_human red ≡ codes "a"
unfolding sanitize_human human_loop human_at human_written blank decode_rune escape_sequence_len
    csi_end or_all is_control_rune trim_space trim_left is_space
plain = refl

sanitize_human-IsShown_example : All IsShown (sanitize_human red)
sanitize_human-IsShown_example = sanitize_human-IsShown red

body_loop_fuel_example : body_loop 8 red ≡ body_loop 50 red
body_loop_fuel_example = body_loop_fuel 8 50 red (omega arith) (omega arith)
