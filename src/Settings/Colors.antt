-- ===== src/Settings/Colors.antt =====
-- SerializeColor and ParseColor of core/src/settings.cpp, on bytes. ParseColor is given the color that
-- its destination has before.
use ziliu_ime.Base.{
  ℕ, ◌+◌, ◌-◌, ◌*◌, ◌/◌, ◌%◌, ◌^◌, ◌<◌, ◌≡◌, refl, false, ◌&&◌, Option, none, some, List, [], ◌∷◌,
  arith, ltb, leb, ◌==◌, if◌then◌else◌, length,
}

unfoldable pub hex_character : ℕ → ℕ
hex_character digit = if ltb digit 10 then 48 + digit else 55 + digit

-- The digit at `shift` bits of the low 24 bits.
abbrev pub color_digit : ℕ → ℕ → ℕ
color_digit color shift = color % 2 ^ 24 / 2 ^ shift % 16

unfoldable pub serialize_color : ℕ → List ℕ
serialize_color color =
    b'#'
    ∷ hex_character (color_digit color 20)
    ∷ hex_character (color_digit color 16)
    ∷ hex_character (color_digit color 12)
    ∷ hex_character (color_digit color 8)
    ∷ hex_character (color_digit color 4)
    ∷ hex_character (color_digit color 0)
    ∷ []

unfoldable pub hex_digit : ℕ → Option ℕ
hex_digit c =
    if leb 48 c && leb c 57
    then some (c - 48)
    else if leb 65 c && leb c 70
    then some (c - 55)
    else if leb 97 c && leb c 102
    then some (c - 87)
    else none

-- The value of the hexadecimal digits that a text starts with, after the value of those before, and what
-- follows them.
abbrev pub hex_step : Option ℕ → ℕ → (ℕ → ℕ × List ℕ) → ℕ × List ℕ → ℕ × List ℕ
hex_step none value more stop = stop
hex_step (some digit) value more stop = more (value * 16 + digit)

unfoldable pub hex_run : ℕ → List ℕ → ℕ × List ℕ
hex_run value [] = (value, [])
hex_run value (c ∷ cs) = hex_step (hex_digit c) value (λ v. hex_run v cs) (value, c ∷ cs)

-- std::from_chars in base 16 into a std::uint32_t: the value and what is left, or an error where there
-- is no digit or the value does not fit.
abbrev pub chars_result : List ℕ → ℕ × List ℕ → Option (ℕ × List ℕ)
chars_result text (value, rest) =
    if length rest == length text
    then none
    else if leb (2 ^ 32) value
    then none
    else some (value, rest)

unfoldable pub from_chars_hex : List ℕ → Option (ℕ × List ℕ)
from_chars_hex text = chars_result text (hex_run 0 text)

abbrev pub without_number_sign : List ℕ → List ℕ
without_number_sign [] = []
without_number_sign (c ∷ cs) = if c == b'#' then cs else c ∷ cs

abbrev pub color_of : Option (ℕ × List ℕ) → ℕ → ℕ
color_of (some (color, [])) destination = color
color_of _ destination = destination

unfoldable pub parse_color : List ℕ → ℕ → ℕ
parse_color value destination =
    let digits = without_number_sign value in
    if length digits == 6 then color_of (from_chars_hex digits) destination else destination

hex_digit-hex_character : (d : ℕ) → d < 16 → hex_digit (hex_character d) ≡ some d
unfolding hex_digit hex_character
hex_digit-hex_character d lt = ground arith

pub hex_run_digit :
    (value d : ℕ) (text : List ℕ)
    → d < 16
    → hex_run value (hex_character d ∷ text) ≡ hex_run (value * 16 + d) text
unfolding hex_run
hex_run_digit value d text lt = rw (hex_digit-hex_character d lt) refl

pub hex_run_nil : (value : ℕ) → hex_run value [] ≡ (value, [])
unfolding hex_run
hex_run_nil value = refl

color_digits :
    (c : ℕ)
    → (((((0 * 16 + color_digit c 20) * 16 + color_digit c 16) * 16 + color_digit c 12) * 16
                + color_digit c 8)
              * 16
            + color_digit c 4)
          * 16
        + color_digit c 0
      ≡ c % 2 ^ 24
color_digits c = omega arith

-- ParseColor reads back the low 24 bits of a color that SerializeColor wrote, whatever the destination
-- held before.
pub parse_color-serialize_color :
    (color destination : ℕ) → parse_color (serialize_color color) destination ≡ color % 2 ^ 24
unfolding parse_color serialize_color from_chars_hex
parse_color-serialize_color color destination =
    let run : hex_run 0 (
          hex_character (color_digit color 20)
          ∷ hex_character (color_digit color 16)
          ∷ hex_character (color_digit color 12)
          ∷ hex_character (color_digit color 8)
          ∷ hex_character (color_digit color 4)
          ∷ hex_character (color_digit color 0)
          ∷ [])
        ≡ (color % 2 ^ 24, []) =
      rw
        (
          hex_run_digit 0 (color_digit color 20) _ (omega arith),
          hex_run_digit _ (color_digit color 16) _ (omega arith),
          hex_run_digit _ (color_digit color 12) _ (omega arith),
          hex_run_digit _ (color_digit color 8) _ (omega arith),
          hex_run_digit _ (color_digit color 4) _ (omega arith),
          hex_run_digit _ (color_digit color 0) [] (omega arith),
          color_digits color,
          hex_run_nil (color % 2 ^ 24),
        )
        refl in
    let fits : leb (2 ^ 32) (color % 2 ^ 24) ≡ false = ground arith in rw (run, fits) refl
