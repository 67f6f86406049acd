-- ===== src/Json/Writer.antt =====
-- EscapeJsonString of core/src/theme_manifest.cpp, and ParseString on what it writes.
use ziliu_ime.Base.{
  false, ℕ, zero, suc, ◌/◌, ◌%◌, ◌^◌, ◌<◌, ◌≤◌, ◌≡◌, sym, ap, ◌∙◌, subst, true, List, [], ◌∷◌, ◌++◌,
  append_assoc, append-nil, ltb, ◌==◌, if◌then◌else◌, arith, length, length-append,
}
use ziliu_ime.Settings.Colors.{hex_character}
use ziliu_ime.Json.Types.{parsed, consume}
use ziliu_ime.Json.Utf.{is_valid_utf8, append_utf8}
use ziliu_ime.Json.Strings.{unicode_escape, escape, string_character, string_loop, parse_string}
use ziliu_ime.Json.Escapes.{quad, escape_of_unit, string_loop-quote}

-- The switch over one character.
unfoldable pub escaped_character : ℕ → List ℕ
escaped_character value =
    if value == b'"'
    then b'\\' ∷ b'"' ∷ []
    else if value == b'\\'
    then b'\\' ∷ b'\\' ∷ []
    else if value == 8
    then b'\\' ∷ b'b' ∷ []
    else if value == 12
    then b'\\' ∷ b'f' ∷ []
    else if value == 10
    then b'\\' ∷ b'n' ∷ []
    else if value == 13
    then b'\\' ∷ b'r' ∷ []
    else if value == 9
    then b'\\' ∷ b't' ∷ []
    else if ltb value 0x20
    then b'\\'
      ∷ b'u'
      ∷ b'0'
      ∷ b'0'
      ∷ hex_character (value / 2 ^ 4 % 0x10)
      ∷ hex_character (value % 0x10)
      ∷ []
    else value ∷ []

unfoldable pub escaped_characters : List ℕ → List ℕ
escaped_characters [] = []
escaped_characters (value ∷ text) = escaped_character value ++ escaped_characters text

unfoldable pub escape_json_string : List ℕ → List ℕ
escape_json_string text = b'"' ∷ escaped_characters text ++ b'"' ∷ []

-- The four digits of a control character.
control_digits :
    (c : ℕ) (rest : List ℕ)
    → c < 32
    → b'0' ∷ b'0' ∷ hex_character (c / 2 ^ 4 % 0x10) ∷ hex_character (c % 0x10) ∷ rest
      ≡ quad (λ _. false) c rest
unfolding hex_character
control_digits c rest lt = ground arith

control_escape :
    (c : ℕ) (rest : List ℕ)
    → c < 32
    → unicode_escape
        (b'0' ∷ b'0' ∷ hex_character (c / 2 ^ 4 % 0x10) ∷ hex_character (c % 0x10) ∷ rest)
      ≡ parsed (c ∷ []) rest
unfolding append_utf8
control_escape c rest lt =
    ap unicode_escape (control_digits c rest lt)
    ∙ escape_of_unit (λ _. false) c rest (omega arith) (ground arith)
    ∙ ground arith

string_loop-escaped_character :
    (fuel c : ℕ) (output rest : List ℕ)
    → string_loop (suc fuel) output (escaped_character c ++ rest)
      ≡ string_loop fuel (output ++ c ∷ []) rest
unfolding string_loop string_character escape escaped_character
string_loop-escaped_character fuel c output rest = ground (arith, control_escape c rest)

length-escaped_character : (c : ℕ) → 0 < length (escaped_character c)
unfolding escaped_character
length-escaped_character c = ground arith

loop-escaped_characters :
    (text : List ℕ) (fuel : ℕ) (output rest : List ℕ)
    → length text < fuel
    → is_valid_utf8 (output ++ text) ≡ true
    → string_loop fuel output (escaped_characters text ++ b'"' ∷ rest)
      ≡ parsed (output ++ text) rest
unfolding escaped_characters
loop-escaped_characters text zero output rest le v = absurd (omega arith)
loop-escaped_characters [] (suc fuel) output rest le v =
    rw (append-nil output) (
      string_loop-quote fuel output rest
        (subst (λ b. is_valid_utf8 b ≡ true) (append-nil output) v))
loop-escaped_characters (c ∷ text) (suc fuel) output rest le v =
    let whole = append_assoc output (c ∷ []) text in
    ap (string_loop (suc fuel) output)
      (append_assoc (escaped_character c) (escaped_characters text) (b'"' ∷ rest))
    ∙ string_loop-escaped_character fuel c output (escaped_characters text ++ b'"' ∷ rest)
    ∙ loop-escaped_characters text fuel (output ++ c ∷ []) rest (omega arith)
        (subst (λ b. is_valid_utf8 b ≡ true) (sym whole) v)
    ∙ ap (λ b. parsed b rest) whole

length-escaped_characters : (text : List ℕ) → length text ≤ length (escaped_characters text)
unfolding escaped_characters
length-escaped_characters [] = omega arith
length-escaped_characters (c ∷ text) = omega (
  arith,
  length-append (escaped_character c) (escaped_characters text),
  length-escaped_character c,
  length-escaped_characters text,
)

-- ParseString reads back each valid UTF-8 text that EscapeJsonString wrote, whatever follows it.
pub parse_string-escape_json_string :
    (text rest : List ℕ)
    → is_valid_utf8 text ≡ true
    → parse_string (escape_json_string text ++ rest) ≡ parsed text rest
unfolding parse_string consume escape_json_string
parse_string-escape_json_string text rest v =
    let split : (escaped_characters text ++ b'"' ∷ []) ++ rest
        ≡ escaped_characters text ++ b'"' ∷ rest =
      append_assoc (escaped_characters text) (b'"' ∷ []) rest in
    let long = length-append (escaped_characters text) (b'"' ∷ rest) in
    rw split (
      loop-escaped_characters text (suc (length (escaped_characters text ++ b'"' ∷ rest))) [] rest
        (omega (arith, long, length-escaped_characters text)) v)
