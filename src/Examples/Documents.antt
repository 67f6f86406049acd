-- ===== src/Examples/Documents.antt =====
-- JSON texts: a document, its strings, and one that nests too deep.
use ziliu_ime.Base.{Bool, ltb, ℕ, ◌≡◌, ◌≢◌, refl, true, some, List, [], ◌∷◌, ◌++◌, arith}
use ziliu_ime.Settings.Types.{codes}
use ziliu_ime.Ipc.Utf.{to_utf8, from_utf8, code_point_bytes}
use ziliu_ime.Settings.Colors.{hex_character}
use ziliu_ime.Json.Types.{
  JsonValue, null, number, array, object, item, no_items, member, no_members, parsed, unfinished,
  is_whitespace, skip_whitespace, consume, close_or,
}
use ziliu_ime.Json.Utf.{
  sequence_head, sequence_tail, after_sequence, is_valid_utf8_loop, is_valid_utf8,
}
use ziliu_ime.Json.UtfLaws.{accepts, is_valid_utf8-from_utf8}
use ziliu_ime.Json.Strings.{string_character, string_end, string_loop, parse_string}
use ziliu_ime.Json.Numbers.{
  skip_digits, minus_sign, integer_part, digits, fraction, exponent, skip_number, parse_number,
}
use ziliu_ime.Json.Values.{
  text_lt, push_back, emplace, consume_literal, array_loop, object_loop, parse_array, parse_object,
  value_at, parse_value, parse_json,
}
use ziliu_ime.Json.Escapes.{escaped_units, parse_string-escaped_units}
use ziliu_ime.Json.Writer.{escape_json_string, parse_string-escape_json_string}
use ziliu_ime.Json.ValueOutcomes.{IsDocument, parse_json-finishes, parse_json-IsDocument}

-- {"b": [1.5e3], "a": null}
abbrev document : List ℕ
document =
    codes "{"
    ++ b'"' ∷ codes "b"
    ++ b'"' ∷ codes ": [1.5e3], "
    ++ b'"' ∷ codes "a"
    ++ b'"' ∷ codes ": null}"

abbrev document_value : JsonValue
document_value = object (
    member (codes "a") null
      (member (codes "b") (array (item (number (codes "1.5e3")) no_items)) no_members))

parse_document : parse_json document ≡ parsed document_value []
unfolding is_whitespace skip_whitespace consume close_or sequence_head sequence_tail after_sequence
    is_valid_utf8_loop is_valid_utf8 string_character string_end string_loop parse_string
    skip_digits minus_sign integer_part digits fraction exponent skip_number parse_number text_lt
    push_back emplace consume_literal array_loop object_loop parse_array parse_object value_at
    parse_value parse_json
parse_document = refl

parse_json-IsDocument_example : IsDocument document_value
parse_json-IsDocument_example = parse_json-IsDocument document document_value [] parse_document

parse_json-finishes_example : parse_json document ≢ unfinished
parse_json-finishes_example = parse_json-finishes document

is_valid_utf8-from_utf8_example :
    is_valid_utf8 (0xED ∷ 0xA0 ∷ 0x80 ∷ []) ≡ accepts (from_utf8 (0xED ∷ 0xA0 ∷ 0x80 ∷ []))
is_valid_utf8-from_utf8_example = is_valid_utf8-from_utf8 (0xED ∷ 0xA0 ∷ 0x80 ∷ [])

-- A letter and the surrogate pair of U+1F600.
abbrev units : List ℕ
units = b'a' ∷ 0xD83D ∷ 0xDE00 ∷ []

abbrev unit_bytes : List ℕ
unit_bytes = b'a' ∷ 0xF0 ∷ 0x9F ∷ 0x98 ∷ 0x80 ∷ []

units_written : to_utf8 units ≡ some unit_bytes
unfolding to_utf8 code_point_bytes
units_written = refl

-- The first two digits of each escape in lower case: `\u0061\ud83D\ude00`.
abbrev mixed_case : ℕ → ℕ → Bool
mixed_case n k = ltb k 2

mixed_text : escaped_units mixed_case units [] ≡ codes "\\u0061\\ud83D\\ude00"
unfolding hex_character
mixed_text = refl

parse_string-escaped_units_example :
    parse_string (b'"' ∷ escaped_units mixed_case units (b'"' ∷ codes ","))
    ≡ parsed unit_bytes (codes ",")
parse_string-escaped_units_example =
    parse_string-escaped_units mixed_case units unit_bytes (codes ",")
      (omega arith, (omega arith, (omega arith, tt))) units_written

-- A quotation mark, a newline and a control character.
abbrev marked : List ℕ
marked = b'"' ∷ 10 ∷ 1 ∷ b'x' ∷ []

marked_valid : is_valid_utf8 marked ≡ true
unfolding is_valid_utf8 is_valid_utf8_loop after_sequence
marked_valid = refl

parse_string-escape_json_string_example :
    parse_string (escape_json_string marked ++ codes "}") ≡ parsed marked (codes "}")
parse_string-escape_json_string_example =
    parse_string-escape_json_string marked (codes "}") marked_valid
