-- ===== src/Theme/Colors.antt =====
-- SerializeColor of core/src/theme_manifest.cpp, and ReadColor on what it writes.
use ziliu_ime.Base.{
  ℕ, ◌+◌, ◌*◌, ◌/◌, ◌%◌, ◌^◌, ◌<◌, ◌≡◌, refl, ◌∙◌, bit_or, false, some, List, [], ◌∷◌, arith, tests,
  leb, ◌==◌, if◌then◌else◌, Bool-cases, inl, inr,
}
use ziliu_ime.Base.Bits.{bit_or_high_low}
use ziliu_ime.Settings.Colors.{hex_character, hex_run, from_chars_hex, hex_run_digit, hex_run_nil}
use ziliu_ime.Theme.Fields.{color_of_text}

-- The digit at `shift` bits.
abbrev pub argb_digit : ℕ → ℕ → ℕ
argb_digit argb shift = argb / 2 ^ shift % 16

abbrev pub rgb_digits : ℕ → List ℕ → List ℕ
rgb_digits argb rest =
    hex_character (argb_digit argb 20)
    ∷ hex_character (argb_digit argb 16)
    ∷ hex_character (argb_digit argb 12)
    ∷ hex_character (argb_digit argb 8)
    ∷ hex_character (argb_digit argb 4)
    ∷ hex_character (argb_digit argb 0)
    ∷ rest

abbrev pub alpha_digits : ℕ → List ℕ
alpha_digits argb = hex_character (argb_digit argb 28) ∷ hex_character (argb_digit argb 24) ∷ []

unfoldable pub serialize_argb : ℕ → List ℕ
serialize_argb argb =
    b'#' ∷ rgb_digits argb (if argb / 2 ^ 24 % 256 == 255 then [] else alpha_digits argb)

rgb_value :
    (c : ℕ)
    → (((((0 * 16 + argb_digit c 20) * 16 + argb_digit c 16) * 16 + argb_digit c 12) * 16
                + argb_digit c 8)
              * 16
            + argb_digit c 4)
          * 16
        + argb_digit c 0
      ≡ c % 2 ^ 24
rgb_value c = omega arith

rgb_run : (c : ℕ) (rest : List ℕ) → hex_run 0 (rgb_digits c rest) ≡ hex_run (c % 2 ^ 24) rest
rgb_run c rest =
    rw
      (
        hex_run_digit 0 (argb_digit c 20) _ (omega arith),
        hex_run_digit _ (argb_digit c 16) _ (omega arith),
        hex_run_digit _ (argb_digit c 12) _ (omega arith),
        hex_run_digit _ (argb_digit c 8) _ (omega arith),
        hex_run_digit _ (argb_digit c 4) _ (omega arith),
        hex_run_digit _ (argb_digit c 0) rest (omega arith),
        rgb_value c,
      )
      refl

rgb_from_chars : (c : ℕ) → from_chars_hex (rgb_digits c []) ≡ some (c % 2 ^ 24, [])
unfolding from_chars_hex
rgb_from_chars c =
    let fits : leb (2 ^ 32) (c % 2 ^ 24) ≡ false = ground arith in
    rw (rgb_run c [], hex_run_nil (c % 2 ^ 24), fits) refl

rgba_from_chars :
    (c : ℕ)
    → from_chars_hex (rgb_digits c (alpha_digits c))
      ≡ some (c % 2 ^ 24 * 256 + c / 2 ^ 24 % 256, [])
unfolding from_chars_hex
rgba_from_chars c =
    let value : (c % 2 ^ 24 * 16 + argb_digit c 28) * 16 + argb_digit c 24
        ≡ c % 2 ^ 24 * 256 + c / 2 ^ 24 % 256 =
      omega arith in
    let fits : leb (2 ^ 32) (c % 2 ^ 24 * 256 + c / 2 ^ 24 % 256) ≡ false = ground arith in
    rw
      (
        rgb_run c (alpha_digits c),
        hex_run_digit (c % 2 ^ 24) (argb_digit c 28) _ (omega arith),
        hex_run_digit _ (argb_digit c 24) [] (omega arith),
        value,
        hex_run_nil (c % 2 ^ 24 * 256 + c / 2 ^ 24 % 256),
        fits,
      )
      refl

opaque_argb : (c : ℕ) → c < 2 ^ 32 → c / 2 ^ 24 % 256 ≡ 255 → bit_or 0xFF000000 (c % 2 ^ 24) ≡ c
opaque_argb c lt h = bit_or_high_low 24 255 (c % 2 ^ 24) (omega arith) ∙ omega arith

alpha_argb :
    (c : ℕ)
    → c < 2 ^ 32
    → bit_or
        ((c % 2 ^ 24 * 256 + c / 2 ^ 24 % 256) % 2 ^ 8 * 2 ^ 24)
        ((c % 2 ^ 24 * 256 + c / 2 ^ 24 % 256) / 2 ^ 8)
      ≡ c
alpha_argb c lt =
    bit_or_high_low 24 ((c % 2 ^ 24 * 256 + c / 2 ^ 24 % 256) % 2 ^ 8)
      ((c % 2 ^ 24 * 256 + c / 2 ^ 24 % 256) / 2 ^ 8) (omega arith)
    ∙ omega arith

-- ReadColor reads back each 32-bit color that SerializeColor wrote, with its alpha, and adds no issue.
pub color_of_text-serialize_argb :
    (argb output : ℕ) (path : List ℕ)
    → argb < 2 ^ 32
    → color_of_text (serialize_argb argb) path output ≡ (argb, [])
unfolding color_of_text serialize_argb
color_of_text-serialize_argb argb output path lt = elim (Bool-cases (argb / 2 ^ 24 % 256 == 255)) [
  | inl solid ↦ rw (solid, rgb_from_chars argb, opaque_argb argb lt (omega tests)) refl
  | inr alpha ↦ rw (alpha, rgba_from_chars argb, alpha_argb argb lt) refl
]
