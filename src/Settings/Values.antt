-- ===== src/Settings/Values.antt =====
-- The values of the settings' lines: Trim, ParseBoolean, ParseFontFamily, IsValidThemeId and the
-- numbers of core/src/settings.cpp. A parser is given what its destination has before.
use ziliu_ime.Base.{
  ℕ, zero, suc, ◌+◌, ◌-◌, ◌*◌, ◌/◌, ◌%◌, ◌^◌, Bool, true, false, not, ◌&&◌, ◌||◌, Option, none,
  some, List, [], ◌∷◌, ltb, leb, ◌==◌, if◌then◌else◌, length, text_eq,
}
use ziliu_ime.Settings.Types.{codes}
use ziliu_ime.Settings.Paging.{clamp}

abbrev pub is_blank : ℕ → Bool
is_blank c = c == b' ' || c == b'\t'

abbrev pub is_end_blank : ℕ → Bool
is_end_blank c = c == b' ' || c == b'\t' || c == b'\r'

-- The two loops of Trim.
unfoldable pub trim_left : List ℕ → List ℕ
trim_left [] = []
trim_left (c ∷ cs) = let rest = trim_left cs in if is_blank c then rest else c ∷ cs

abbrev pub keep : ℕ → List ℕ → List ℕ
keep c [] = if is_end_blank c then [] else c ∷ []
keep c (d ∷ ds) = c ∷ d ∷ ds

unfoldable pub trim_right : List ℕ → List ℕ
trim_right [] = []
trim_right (c ∷ cs) = keep c (trim_right cs)

unfoldable pub trim : List ℕ → List ℕ
trim value = trim_right (trim_left value)

unfoldable pub parse_boolean : List ℕ → Bool → Bool
parse_boolean value destination =
    if text_eq value (codes "true")
    then true
    else if text_eq value (codes "false")
    then false
    else destination

abbrev pub is_empty : List ℕ → Bool
is_empty [] = true
is_empty (c ∷ cs) = false

unfoldable pub parse_font_family : List ℕ → List ℕ → List ℕ
parse_font_family value destination =
    if is_empty value
    then destination
    else if text_eq value (codes "source_han_sans")
    then codes "Source Han Sans SC"
    else if text_eq value (codes "microsoft_yahei")
    then codes "Microsoft YaHei UI"
    else if text_eq value (codes "simsun")
    then codes "SimSun"
    else if text_eq value (codes "segoe_ui")
    then codes "Segoe UI Variable Text"
    else if text_eq value (codes "arial")
    then codes "Arial"
    else value

abbrev pub is_ascii_lower : ℕ → Bool
is_ascii_lower c = leb b'a' c && leb c b'z'

abbrev pub is_ascii_digit : ℕ → Bool
is_ascii_digit c = leb b'0' c && leb c b'9'

abbrev pub is_theme_id_character : ℕ → Bool
is_theme_id_character c =
    is_ascii_lower c || is_ascii_digit c || c == b'.' || c == b'_' || c == b'-'

unfoldable pub are_theme_id_characters : List ℕ → Bool
are_theme_id_characters [] = true
are_theme_id_characters (c ∷ cs) = is_theme_id_character c && are_theme_id_characters cs

unfoldable pub is_valid_theme_id : List ℕ → Bool
is_valid_theme_id [] = false
is_valid_theme_id (c ∷ cs) =
    if ltb 128 (length (c ∷ cs))
    then false
    else if not (is_ascii_lower c) && not (is_ascii_digit c)
    then false
    else are_theme_id_characters (c ∷ cs)

-- The value of the decimal digits that a text starts with, after the value of those before, and what
-- follows them.
unfoldable pub decimal_run : ℕ → List ℕ → ℕ × List ℕ
decimal_run value [] = (value, [])
decimal_run value (c ∷ cs) =
    let more = decimal_run (value * 10 + (c - b'0')) cs in
    if is_ascii_digit c then more else (value, c ∷ cs)

-- std::from_chars into a std::size_t, and the test that it read the whole text: there is a digit, the
-- value fits, and nothing is left.
abbrev pub size_result : List ℕ → ℕ × List ℕ → Option ℕ
size_result text (value, []) =
    if length text == 0 then none else if leb (2 ^ 64) value then none else some value
size_result text (value, c ∷ cs) = none

unfoldable pub from_chars_size : List ℕ → Option ℕ
from_chars_size text = size_result text (decimal_run 0 text)

abbrev pub clamped_or : Option ℕ → ℕ → ℕ → ℕ → ℕ
clamped_or none low high destination = destination
clamped_or (some value) low high destination = clamp value low high

-- The branches for candidate_count and candidate_font_size.
unfoldable pub parse_clamped : ℕ → ℕ → List ℕ → ℕ → ℕ
parse_clamped low high value destination = clamped_or (from_chars_size value) low high destination

-- std::to_string of a std::size_t, which has at most 20 digits: the digits of `value` before `digits`.
unfoldable pub decimal_digits : ℕ → ℕ → List ℕ → List ℕ
decimal_digits zero value digits = digits
decimal_digits (suc fuel) value digits =
    let now = (b'0' + value % 10) ∷ digits in
    let more = decimal_digits fuel (value / 10) now in if ltb value 10 then now else more

unfoldable pub to_string : ℕ → List ℕ
unfolding decimal_digits
to_string value = decimal_digits 20 value []
