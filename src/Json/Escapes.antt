-- ===== src/Json/Escapes.antt =====
-- ParseString on a text that is written in escapes only: each code unit of a UTF-16 text as `\u` and
-- four digits, with the letters among them in either case.
use ziliu_ime.Base.{
  ℕ, zero, suc, ◌+◌, ◌-◌, Bool, if◌then◌else◌, ◌*◌, ◌/◌, ◌%◌, ◌^◌, ◌<◌, ◌≤◌, ◌≡◌, refl, sym, ap,
  ◌∙◌, subst, true, false, Option, some, List, [], ◌∷◌, ◌++◌, append_assoc, append-nil, ltb, arith,
  length, All, inl, inr,
}
use ziliu_ime.Base.Bits.{bit_or_high_low}
use ziliu_ime.Settings.Colors.{hex_character}
use ziliu_ime.Ipc.Utf.{
  IsUnit, is_high, is_low, is_surrogate, pair_code_point, code_point_bytes, append_bytes, to_utf8,
}
use ziliu_ime.Ipc.Utf.RoundTrip.{
  from_utf8-to_utf8, append_bytes-eq-some, to_utf8_single, to_utf8_cases,
}
use ziliu_ime.Json.Types.{parsed, consume}
use ziliu_ime.Json.Utf.{is_valid_utf8, append_utf8}
use ziliu_ime.Json.UtfLaws.{accepts, is_valid_utf8-from_utf8, append_utf8-code_point_bytes}
use ziliu_ime.Json.Strings.{
  quad_digit, quad_value, parse_hex_quad, escaped_code_point, unicode_escape, escape,
  string_character, string_end, string_loop, parse_string,
}

-- A digit as an upper-case or a lower-case character.
abbrev pub cased_digit : Bool → ℕ → ℕ
cased_digit false d = hex_character d
cased_digit true d = if ltb d 10 then b'0' + d else b'a' + (d - 10)

-- A code unit in four digits, an escape of it, and a text of escapes. `lower n k` tells whether the
-- digit `k` of the escape that `n` others follow is written in lower case.
abbrev pub quad : (ℕ → Bool) → ℕ → List ℕ → List ℕ
quad lower u rest =
    cased_digit (lower 0) (u / 4096)
    ∷ cased_digit (lower 1) (u / 256 % 16)
    ∷ cased_digit (lower 2) (u / 16 % 16)
    ∷ cased_digit (lower 3) (u % 16)
    ∷ rest

abbrev pub escaped_unit : (ℕ → Bool) → ℕ → List ℕ → List ℕ
escaped_unit lower u rest = b'\\' ∷ b'u' ∷ quad lower u rest

abbrev pub escaped_units : (ℕ → ℕ → Bool) → List ℕ → List ℕ → List ℕ
escaped_units lower [] rest = rest
escaped_units lower (u ∷ us) rest = escaped_unit (lower (length us)) u (escaped_units lower us rest)

quad_digit-cased_digit : (low : Bool) (d : ℕ) → d < 16 → quad_digit (cased_digit low d) ≡ some d
unfolding quad_digit hex_character
quad_digit-cased_digit false d lt = ground arith
quad_digit-cased_digit true d lt = ground arith

quad_value_step :
    (low : Bool) (n value d : ℕ) (text : List ℕ)
    → d < 16
    → quad_value (suc n) value (cased_digit low d ∷ text) ≡ quad_value n (value * 16 + d) text
unfolding quad_value
quad_value_step low n value d text lt =
    rw (quad_digit-cased_digit low d lt, bit_or_high_low 4 value d lt) refl

quad_value_done : (value : ℕ) (text : List ℕ) → quad_value 0 value text ≡ some value
unfolding quad_value
quad_value_done value text = refl

quad_digits :
    (u : ℕ)
    → u < 2 ^ 16
    → (((0 * 16 + u / 4096) * 16 + u / 256 % 16) * 16 + u / 16 % 16) * 16 + u % 16 ≡ u
quad_digits u lt = omega arith

parse_hex_quad-quad :
    (lower : ℕ → Bool) (u : ℕ) (rest : List ℕ)
    → IsUnit u
    → parse_hex_quad (quad lower u rest) ≡ parsed u rest
unfolding parse_hex_quad
parse_hex_quad-quad lower u rest lt =
    let long : ltb (length (quad lower u rest)) 4 ≡ false = ground arith in
    let value : quad_value 4 0 (quad lower u rest) ≡ some u =
      rw
        (
          quad_value_step (lower 0) 3 0 (u / 4096) _ (omega arith),
          quad_value_step (lower 1) 2 _ (u / 256 % 16) _ (omega arith),
          quad_value_step (lower 2) 1 _ (u / 16 % 16) _ (omega arith),
          quad_value_step (lower 3) 0 _ (u % 16) rest (omega arith),
          quad_digits u lt,
        )
        (quad_value_done u rest) in
    rw (long, value) refl

-- The escape of one code point.
pub escape_of_unit :
    (lower : ℕ → Bool) (u : ℕ) (rest : List ℕ)
    → IsUnit u
    → is_surrogate u ≡ false
    → unicode_escape (quad lower u rest) ≡ parsed (append_utf8 u) rest
unfolding unicode_escape escaped_code_point
escape_of_unit lower u rest lt single = rw (parse_hex_quad-quad lower u rest lt) (ground arith)

escape_of_pair :
    (lower lower' : ℕ → Bool) (u next : ℕ) (rest : List ℕ)
    → IsUnit u
    → IsUnit next
    → is_high u ≡ true
    → is_low next ≡ true
    → unicode_escape (quad lower u (escaped_unit lower' next rest))
      ≡ parsed (append_utf8 (pair_code_point u next)) rest
unfolding unicode_escape escaped_code_point
escape_of_pair lower lower' u next rest lt lt' hi lo =
    rw
      (
        parse_hex_quad-quad lower u (escaped_unit lower' next rest) lt,
        hi,
        parse_hex_quad-quad lower' next rest lt',
      )
      (ground arith)

string_loop-escape :
    (fuel : ℕ) (output text bytes rest : List ℕ)
    → unicode_escape text ≡ parsed bytes rest
    → string_loop (suc fuel) output (b'\\' ∷ b'u' ∷ text) ≡ string_loop fuel (output ++ bytes) rest
unfolding string_loop string_character escape
string_loop-escape fuel output text bytes rest h = rw h refl

pub string_loop-quote :
    (fuel : ℕ) (output rest : List ℕ)
    → is_valid_utf8 output ≡ true
    → string_loop (suc fuel) output (b'"' ∷ rest) ≡ parsed output rest
unfolding string_loop string_end
string_loop-quote fuel output rest h = rw h refl

not_surrogate :
    (u : ℕ) {front : List ℕ} → IsUnit u → code_point_bytes u ≡ some front → is_surrogate u ≡ false
unfolding code_point_bytes
not_surrogate u lt h = ground arith

-- One escape or pair of escapes, if the rest is read.
read_escape :
    (fuel cp : ℕ) (r : Option (List ℕ)) (output text bytes left rest : List ℕ)
    → append_bytes cp r ≡ some bytes
    → is_valid_utf8 (output ++ bytes) ≡ true
    → unicode_escape text ≡ parsed (append_utf8 cp) left
    → ((out tail : List ℕ)
        → r ≡ some tail
        → is_valid_utf8 (out ++ tail) ≡ true
        → string_loop fuel out left ≡ parsed (out ++ tail) rest)
    → string_loop (suc fuel) output (b'\\' ∷ b'u' ∷ text) ≡ parsed (output ++ bytes) rest
read_escape fuel cp r output text bytes left rest h valid e ih =
    let (front, tail, c, e', e'') = append_bytes-eq-some cp r h in
    let same : append_utf8 cp ≡ front = append_utf8-code_point_bytes cp front c in
    let whole : output ++ bytes ≡ (output ++ front) ++ tail =
      ap (λ b. output ++ b) e'' ∙ sym (append_assoc output front tail) in
    let valid' : is_valid_utf8 ((output ++ front) ++ tail) ≡ true =
      subst (λ b. is_valid_utf8 b ≡ true) whole valid in
    string_loop-escape fuel output text front left (e ∙ ap (λ b. parsed b left) same)
    ∙ ih (output ++ front) tail e' valid'
    ∙ ap (λ b. parsed b rest) (sym whole)

loop-escaped_units :
    (lower : ℕ → ℕ → Bool) (us : List ℕ) (fuel : ℕ) (output bytes rest : List ℕ)
    → All IsUnit us
    → to_utf8 us ≡ some bytes
    → length us < fuel
    → is_valid_utf8 (output ++ bytes) ≡ true
    → string_loop fuel output (escaped_units lower us (b'"' ∷ rest)) ≡ parsed (output ++ bytes) rest
loop-escaped_units lower us zero output bytes rest lt h le v = absurd (omega arith)
loop-escaped_units lower [] (suc fuel) output bytes rest lt h le v =
    let e : bytes ≡ [] = unfold to_utf8 in ground arith in
    let same : output ++ bytes ≡ output = ap (λ b. output ++ b) e ∙ append-nil output in
    string_loop-quote fuel output rest (subst (λ b. is_valid_utf8 b ≡ true) same v)
    ∙ ap (λ b. parsed b rest) (sym same)
loop-escaped_units lower (u ∷ []) (suc fuel) output bytes rest lt h le v =
    let h' = to_utf8_single u bytes h in
    let (front, _, c, _, _) = append_bytes-eq-some u (some []) h' in
    read_escape fuel u (some []) output _ bytes (b'"' ∷ rest) rest h' v
      (escape_of_unit (lower 0) u (b'"' ∷ rest) lt.0 (not_surrogate u lt.0 c))
      (λ out tail e v'.
        loop-escaped_units lower [] fuel out tail rest tt (unfold to_utf8 in e) (omega arith) v')
loop-escaped_units lower (u ∷ next ∷ us) (suc fuel) output bytes rest lt h le v =
    elim (to_utf8_cases u next us bytes h) [
      | inl (hi, lo, h') ↦
          read_escape fuel (pair_code_point u next) (to_utf8 us) output _ bytes _ rest h' v
            (escape_of_pair (lower (suc (length us))) (lower (length us)) u next
              (escaped_units lower us (b'"' ∷ rest)) lt.0 lt.1.0 hi lo)
            (λ out tail e v'.
              loop-escaped_units lower us fuel out tail rest lt.1.1 e (omega arith) v')
      | inr h' ↦
          let (front, _, c, _, _) = append_bytes-eq-some u (to_utf8 (next ∷ us)) h' in
          read_escape fuel u (to_utf8 (next ∷ us)) output _ bytes _ rest h' v
            (escape_of_unit (lower (suc (length us))) u
              (escaped_units lower (next ∷ us) (b'"' ∷ rest)) lt.0 (not_surrogate u lt.0 c))
            (λ out tail e v'.
              loop-escaped_units lower (next ∷ us) fuel out tail rest lt.1 e (omega arith) v')
    ]

length-escaped_units :
    (lower : ℕ → ℕ → Bool) (us rest : List ℕ)
    → length us + length rest ≤ length (escaped_units lower us rest)
length-escaped_units lower [] rest = omega arith
length-escaped_units lower (u ∷ us) rest = omega (arith, length-escaped_units lower us rest)

-- A UTF-16 text that the protocol's Writer::ToUtf8 accepts, written as a JSON string in which each code
-- unit is an escape with four hexadecimal digits, each digit in either case, is read by ParseString as the
-- bytes that ToUtf8 writes; surrogate pairs are joined, and the rest of the text is left.
pub parse_string-escaped_units :
    (lower : ℕ → ℕ → Bool) (us bytes rest : List ℕ)
    → All IsUnit us
    → to_utf8 us ≡ some bytes
    → parse_string (b'"' ∷ escaped_units lower us (b'"' ∷ rest)) ≡ parsed bytes rest
unfolding parse_string consume
parse_string-escaped_units lower us bytes rest lt h =
    let valid : is_valid_utf8 bytes ≡ true =
      is_valid_utf8-from_utf8 bytes ∙ ap accepts (from_utf8-to_utf8 us bytes lt h) in
    loop-escaped_units lower us (suc (length (escaped_units lower us (b'"' ∷ rest)))) [] bytes rest
      lt h (omega (arith, length-escaped_units lower us (b'"' ∷ rest))) valid
