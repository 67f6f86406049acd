-- ===== src/Json/Values.antt =====
-- ParseValue, ConsumeLiteral, ParseObject, ParseArray and Parse of core/src/theme_manifest.cpp.
use ziliu_ime.Base.{
  ℕ, zero, suc, Bool, true, false, ◌&&◌, ◌||◌, Option, none, some, List, [], ◌∷◌, ◌==◌, ltb,
  if◌then◌else◌, length, take, drop, text_eq,
}
use ziliu_ime.Settings.Types.{codes}
use ziliu_ime.Json.Types.{
  JsonValue, Items, Members, null, boolean, string, array, object, no_items, item, no_members,
  member, parsed, failed, unfinished, Parser, ◌>>=◌, ◌>>◌, then_parse, skip_whitespace, skip,
  consume, close_or,
}
use ziliu_ime.Json.Strings.{parse_string}
use ziliu_ime.Json.Numbers.{is_digit, parse_number}

abbrev pub maximum_json_depth : ℕ
maximum_json_depth = 32

-- The order of std::less on byte strings.
unfoldable pub text_lt : List ℕ → List ℕ → Bool
text_lt [] [] = false
text_lt [] (d ∷ ds) = true
text_lt (c ∷ cs) [] = false
text_lt (c ∷ cs) (d ∷ ds) = ltb c d || (c == d && text_lt cs ds)

-- The end of an array.
unfoldable pub push_back : Items → JsonValue → Items
push_back no_items value = item value no_items
push_back (item first rest) value = item first (push_back rest value)

-- std::map::emplace: `none` is a key that is there already.
abbrev pub below_member : List ℕ → JsonValue → Option Members → Option Members
below_member key value none = none
below_member key value (some rest) = some (member key value rest)

unfoldable pub emplace : List ℕ → JsonValue → Members → Option Members
emplace key value no_members = some (member key value no_members)
emplace key value (member k v rest) =
    let more = emplace key value rest in
    if text_lt key k
    then some (member key value (member k v rest))
    else if text_lt k key
    then below_member k v more
    else none

abbrev pub emplaced : Option Members → Parser Members
emplaced none rest = failed (codes "duplicate object property") rest
emplaced (some table) rest = parsed table rest

unfoldable pub consume_literal : List ℕ → JsonValue → Parser JsonValue
consume_literal literal value text =
    if text_eq (take (length literal) text) literal
    then parsed value (drop (length literal) text)
    else failed (codes "invalid literal") text

-- The loops of ParseArray and ParseObject, with the parser of the values in them. Each round takes a
-- character at least, so more rounds than characters are enough.
unfoldable pub array_loop : Parser JsonValue → ℕ → Items → Parser JsonValue
array_loop parse zero items text = unfinished
array_loop parse (suc fuel) items text =
    (do
      value ← parse
      skip
      close_or b']' (array (push_back items value))
          (do consume b','; array_loop parse fuel (push_back items value)))
      text

unfoldable pub object_loop : Parser JsonValue → ℕ → Members → Parser JsonValue
object_loop parse zero table text = unfinished
object_loop parse (suc fuel) table text =
    (do
      skip
      key ← parse_string
      skip
      consume b':'
      value ← parse
      more ← emplaced (emplace key value table)
      skip
      close_or b'}' (object more) (do consume b','; object_loop parse fuel more))
      text

abbrev pub array_body : Parser JsonValue → Parser JsonValue
array_body parse text = array_loop parse (suc (length text)) no_items text

abbrev pub object_body : Parser JsonValue → Parser JsonValue
object_body parse text = object_loop parse (suc (length text)) no_members text

unfoldable pub parse_array : Parser JsonValue → Parser JsonValue
parse_array parse = do consume b'['; skip; close_or b']' (array no_items) (array_body parse)

unfoldable pub parse_object : Parser JsonValue → Parser JsonValue
parse_object parse = do consume b'{'; skip; close_or b'}' (object no_members) (object_body parse)

abbrev pub string_value : List ℕ → Parser JsonValue
string_value text rest = parsed (string text) rest

-- ParseValue after its check of the depth, with the parser of the values one level deeper. After a
-- literal that is not there, the Fail at the end changes nothing.
unfoldable pub value_at : Parser JsonValue → Parser JsonValue
value_at parse [] = failed (codes "unexpected end of JSON") []
value_at parse (next ∷ rest) =
    if next == b'{'
    then parse_object parse (next ∷ rest)
    else if next == b'['
    then parse_array parse (next ∷ rest)
    else if next == b'"'
    then then_parse string_value (parse_string (next ∷ rest))
    else if next == b't'
    then consume_literal (codes "true") (boolean true) (next ∷ rest)
    else if next == b'f'
    then consume_literal (codes "false") (boolean false) (next ∷ rest)
    else if next == b'n'
    then consume_literal (codes "null") null (next ∷ rest)
    else if next == b'-' || is_digit next
    then parse_number (next ∷ rest)
    else failed (codes "unexpected token") (next ∷ rest)

-- ParseValue at the depth that leaves `levels` levels: it is 33 - levels.
unfoldable pub parse_value : ℕ → Parser JsonValue
parse_value zero text = failed (codes "JSON nesting is too deep") text
parse_value (suc levels) text = value_at (parse_value levels) (skip_whitespace text)

abbrev pub at_end : JsonValue → Parser JsonValue
at_end value [] = parsed value []
at_end value (c ∷ rest) = failed (codes "unexpected trailing content") (c ∷ rest)

unfoldable pub parse_json : Parser JsonValue
parse_json = do skip; value ← parse_value (suc maximum_json_depth); skip; at_end value
