-- ===== src/Settings/ValueLaws.antt =====
-- What the colors, the theme id, the numbers and the font families of the settings are read back as.
use ziliu_ime.Base.{
  ℕ, ◌<◌, ◌≤◌, ◌≡◌, refl, ap, Bool, true, false, not, ◌&&◌, Option, none, some, List, [], ◌∷◌,
  arith, ◌==◌, ==→eq, if◌then◌else◌, text_eq, Bool-cases, inl, inr,
}
use ziliu_ime.Base.Bits.{same_below, same_below→eq}
use ziliu_ime.Settings.Types.{codes}
use ziliu_ime.Settings.Values.{
  is_blank, is_end_blank, trim_left, trim_right, is_empty, parse_font_family,
  are_theme_id_characters, is_valid_theme_id, decimal_run, from_chars_size, parse_clamped,
  to_string,
}
use ziliu_ime.Settings.Colors.{hex_character, color_digit, serialize_color}
use ziliu_ime.Settings.Paging.{clamp}
use ziliu_ime.Settings.Serialize.{serialized_theme_id}
use ziliu_ime.Settings.Lines.{lacks, IsValue, is_value, is_value-IsValue}

-- Texts of characters that are no blanks and no newlines.
abbrev is_solid : List ℕ → Bool
is_solid [] = true
is_solid (c ∷ cs) = not (is_blank c) && not (is_end_blank c) && not (c == b'\n') && is_solid cs

solid-lacks : (cs : List ℕ) → is_solid cs ≡ true → lacks b'\n' cs ≡ true
solid-lacks [] h = refl
solid-lacks (c ∷ cs) h = ground (arith, solid-lacks cs)

solid-trim_left : (cs : List ℕ) → is_solid cs ≡ true → trim_left cs ≡ cs
unfolding trim_left
solid-trim_left [] h = refl
solid-trim_left (c ∷ cs) h = ground arith

solid-trim_right : (cs : List ℕ) → is_solid cs ≡ true → trim_right cs ≡ cs
unfolding trim_right
solid-trim_right [] h = refl
solid-trim_right (c ∷ []) h = ground arith
solid-trim_right (c ∷ d ∷ cs) h = rw (solid-trim_right (d ∷ cs) (ground arith)) refl

solid-IsValue : (cs : List ℕ) → is_solid cs ≡ true → IsValue cs
solid-IsValue cs h = record {
  one_line = solid-lacks cs h;
  left = solid-trim_left cs h;
  right = solid-trim_right cs h;
}

solid_hex :
    (d : ℕ) (cs : List ℕ) → d < 16 → is_solid cs ≡ true → is_solid (hex_character d ∷ cs) ≡ true
unfolding hex_character
solid_hex d cs lt h = ground arith

pub serialize_color-IsValue : (color : ℕ) → IsValue (serialize_color color)
unfolding serialize_color
serialize_color-IsValue color =
    let t0 : List ℕ = hex_character (color_digit color 0) ∷ [] in
    let t1 : List ℕ = hex_character (color_digit color 4) ∷ t0 in
    let t2 : List ℕ = hex_character (color_digit color 8) ∷ t1 in
    let t3 : List ℕ = hex_character (color_digit color 12) ∷ t2 in
    let t4 : List ℕ = hex_character (color_digit color 16) ∷ t3 in
    let t5 : List ℕ = hex_character (color_digit color 20) ∷ t4 in
    let s0 : is_solid t0 ≡ true = solid_hex (color_digit color 0) [] (omega arith) refl in
    let s1 : is_solid t1 ≡ true = solid_hex (color_digit color 4) t0 (omega arith) s0 in
    let s2 : is_solid t2 ≡ true = solid_hex (color_digit color 8) t1 (omega arith) s1 in
    let s3 : is_solid t3 ≡ true = solid_hex (color_digit color 12) t2 (omega arith) s2 in
    let s4 : is_solid t4 ≡ true = solid_hex (color_digit color 16) t3 (omega arith) s3 in
    let s5 : is_solid t5 ≡ true = solid_hex (color_digit color 20) t4 (omega arith) s4 in
    solid-IsValue (b'#' ∷ t5) s5

theme_id_solid : (cs : List ℕ) → are_theme_id_characters cs ≡ true → is_solid cs ≡ true
unfolding are_theme_id_characters
theme_id_solid [] h = refl
theme_id_solid (c ∷ cs) h = ground (arith, theme_id_solid cs)

valid_theme_id_solid : (cs : List ℕ) → is_valid_theme_id cs ≡ true → is_solid cs ≡ true
unfolding is_valid_theme_id
valid_theme_id_solid [] h = refl
valid_theme_id_solid (c ∷ cs) h = theme_id_solid (c ∷ cs) (ground arith)

serialized_theme_id-valid : (cs : List ℕ) → is_valid_theme_id (serialized_theme_id cs) ≡ true
unfolding serialized_theme_id
serialized_theme_id-valid cs = elim (Bool-cases (is_valid_theme_id cs)) [
  | inl valid ↦ rw valid valid
  | inr other ↦ rw other (unfold is_valid_theme_id are_theme_id_characters in refl)
]

pub serialized_theme_id-IsValue : (cs : List ℕ) → IsValue (serialized_theme_id cs)
serialized_theme_id-IsValue cs =
    solid-IsValue (serialized_theme_id cs)
      (valid_theme_id_solid (serialized_theme_id cs) (serialized_theme_id-valid cs))

pub theme_id-serialized_theme_id :
    (cs d : List ℕ)
    → (if is_valid_theme_id (serialized_theme_id cs) then serialized_theme_id cs else d)
      ≡ serialized_theme_id cs
theme_id-serialized_theme_id cs d = rw (serialized_theme_id-valid cs) refl

-- The numbers up to 24, which the two clamped settings are, checked one by one.
abbrev is_read_back : ℕ → Option ℕ → Bool
is_read_back n none = false
is_read_back n (some m) = m == n

abbrev is_small : ℕ → Bool
is_small n = is_read_back n (from_chars_size (to_string n)) && is_value (to_string n)

-- The test as a number.
abbrev small_mark : ℕ → ℕ
small_mark n = if is_small n then 1 else 0

small_numbers : same_below small_mark (λ _. 1) 25 ≡ true
unfolding same_below from_chars_size to_string decimal_run trim_left trim_right
small_numbers = refl

read_back : (n : ℕ) (o : Option ℕ) → is_read_back n o ≡ true → o ≡ some n
read_back n none h = cc
read_back n (some m) h = ap some (==→eq m n h)

small_number : (n : ℕ) → n < 25 → is_small n ≡ true
small_number n lt =
    let mark = same_below→eq small_mark (λ _. 1) 25 small_numbers n lt in ground arith

module _ (low high : ℕ) (ordered : low ≤ high) (small : high < 25) where
  clamp_small : (n : ℕ) → clamp n low high < 25
  clamp_small n = ground arith

  clamp_idem : (n : ℕ) → clamp (clamp n low high) low high ≡ clamp n low high
  clamp_idem n = ground arith

  pub to_string-IsValue : (n : ℕ) → IsValue (to_string (clamp n low high))
  to_string-IsValue n =
      let h = small_number (clamp n low high) (clamp_small n) in
      is_value-IsValue (to_string (clamp n low high)) (ground arith)

  pub parse_clamped-to_string :
      (n d : ℕ) → parse_clamped low high (to_string (clamp n low high)) d ≡ clamp n low high
  unfolding parse_clamped
  parse_clamped-to_string n d =
      let h = small_number (clamp n low high) (clamp_small n) in
      let read =
        read_back (clamp n low high) (from_chars_size (to_string (clamp n low high)))
          (ground arith) in
      rw read (clamp_idem n)

-- A font family that is written and read back as it is.
abbrev pub is_family : List ℕ → Bool
is_family family =
    not (is_empty family)
    && not (text_eq family (codes "source_han_sans"))
    && not (text_eq family (codes "microsoft_yahei"))
    && not (text_eq family (codes "simsun"))
    && not (text_eq family (codes "segoe_ui"))
    && not (text_eq family (codes "arial"))

pub record IsFamily (family : List ℕ) : Type 0 where
  pub value : IsValue family
  pub plain : is_family family ≡ true

pub parse_font_family-IsFamily :
    (family d : List ℕ) → IsFamily family → parse_font_family family d ≡ family
unfolding parse_font_family
parse_font_family-IsFamily family d v = let h = v.plain in ground arith
