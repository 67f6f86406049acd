-- ===== src/Json/Strings.antt =====
-- ParseHexQuad and ParseString of core/src/theme_manifest.cpp.
use ziliu_ime.Base.{
  ℕ, zero, suc, ◌+◌, ◌-◌, ◌*◌, ◌^◌, bit_or, Bool, false, ◌&&◌, ◌||◌, Option, none, some, List, [],
  ◌∷◌, ◌++◌, ltb, leb, ◌==◌, if◌then◌else◌, length, drop,
}
use ziliu_ime.Settings.Types.{codes}
use ziliu_ime.Json.Types.{
  Parsed, parsed, failed, unfinished, Parser, ◌>>=◌, ◌>>◌, then_parse, consume,
}
use ziliu_ime.Json.Utf.{is_valid_utf8, append_utf8}

unfoldable pub quad_digit : ℕ → Option ℕ
quad_digit c =
    if leb b'0' c && leb c b'9'
    then some (c - b'0')
    else if leb b'a' c && leb c b'f'
    then some (c - b'a' + 10)
    else if leb b'A' c && leb c b'F'
    then some (c - b'A' + 10)
    else none

-- The loop over the digits.
abbrev pub quad_step : ℕ → (ℕ → Option ℕ) → Option ℕ → Option ℕ
quad_step value more none = none
quad_step value more (some digit) = more (bit_or (value * 2 ^ 4) digit)

unfoldable pub quad_value : ℕ → ℕ → List ℕ → Option ℕ
quad_value zero value text = some value
quad_value (suc n) value [] = none
quad_value (suc n) value (c ∷ cs) = quad_step value (λ v. quad_value n v cs) (quad_digit c)

abbrev pub quad_result : List ℕ → Option ℕ → Parsed ℕ
quad_result text none = failed (codes "invalid Unicode escape") text
quad_result text (some value) = parsed value (drop 4 text)

unfoldable pub parse_hex_quad : Parser ℕ
parse_hex_quad text =
    if ltb (length text) 4
    then failed (codes "incomplete Unicode escape") text
    else quad_result text (quad_value 4 0 text)

abbrev pub starts_unicode_escape : List ℕ → Bool
starts_unicode_escape (a ∷ b ∷ rest) = a == b'\\' && b == b'u'
starts_unicode_escape _ = false

abbrev pub join_low : ℕ → ℕ → Parser ℕ
join_low high low rest =
    if ltb low 0xDC00 || ltb 0xDFFF low
    then failed (codes "invalid low surrogate") rest
    else parsed (0x10000 + (high - 0xD800) * 2 ^ 10 + (low - 0xDC00)) rest

-- The code point of an escape whose first four digits are read.
unfoldable pub escaped_code_point : ℕ → Parser ℕ
escaped_code_point code_point text =
    if leb 0xD800 code_point && leb code_point 0xDBFF
    then (if starts_unicode_escape text
        then then_parse (join_low code_point) (parse_hex_quad (drop 2 text))
        else failed (codes "high surrogate is missing its low surrogate") text)
    else if leb 0xDC00 code_point && leb code_point 0xDFFF
    then failed (codes "unexpected low surrogate") text
    else parsed code_point text

abbrev pub appended : ℕ → Parser (List ℕ)
appended code_point rest = parsed (append_utf8 code_point) rest

unfoldable pub unicode_escape : Parser (List ℕ)
unicode_escape = do code_point ← parse_hex_quad; full ← escaped_code_point code_point; appended full

-- The switch over the character after a backslash: what is appended to the output.
unfoldable pub escape : Parser (List ℕ)
escape [] = failed (codes "incomplete escape sequence") []
escape (escaped ∷ rest) =
    if escaped == b'"' || escaped == b'\\' || escaped == b'/'
    then parsed (escaped ∷ []) rest
    else if escaped == b'b'
    then parsed (8 ∷ []) rest
    else if escaped == b'f'
    then parsed (12 ∷ []) rest
    else if escaped == b'n'
    then parsed (10 ∷ []) rest
    else if escaped == b'r'
    then parsed (13 ∷ []) rest
    else if escaped == b't'
    then parsed (9 ∷ []) rest
    else if escaped == b'u'
    then unicode_escape rest
    else failed (codes "invalid escape sequence") rest

-- A character that does not end the string.
unfoldable pub string_character : ℕ → Parser (List ℕ)
string_character value rest =
    if ltb value 0x20
    then failed (codes "unescaped control character in string") rest
    else if value == b'\\'
    then escape rest
    else parsed (value ∷ []) rest

unfoldable pub string_end : List ℕ → Parser (List ℕ)
string_end output rest =
    if is_valid_utf8 output
    then parsed output rest
    else failed (codes "string is not valid UTF-8") rest

-- The loop. Each round takes a character at least, so more rounds than characters are enough.
unfoldable pub string_loop : ℕ → List ℕ → Parser (List ℕ)
string_loop zero output text = unfinished
string_loop (suc fuel) output [] = failed (codes "unterminated string") []
string_loop (suc fuel) output (value ∷ rest) =
    if value == b'"'
    then string_end output rest
    else then_parse (λ bytes. string_loop fuel (output ++ bytes)) (string_character value rest)

abbrev pub string_body : Parser (List ℕ)
string_body text = string_loop (suc (length text)) [] text

unfoldable pub parse_string : Parser (List ℕ)
parse_string = do consume b'"'; string_body
