-- ===== src/Theme/Writer.antt =====
-- The class JsonWriter of core/src/theme_manifest.cpp. A method is a function of the writer.
use ziliu_ime.Base.{
  ℕ, zero, suc, ◌-◌, ◌^◌, Bool, true, false, List, [], ◌∷◌, ◌++◌, ltb, if◌then◌else◌, length,
}
use ziliu_ime.Settings.Types.{codes}
use ziliu_ime.Settings.Values.{to_string}
use ziliu_ime.Json.Writer.{escape_json_string}
use ziliu_ime.Theme.Types.{ThemeInsets}

-- `first_property_` has its back first.
pub record JsonWriter : Type 0 where
  pub output : List ℕ
  pub first_property : List Bool

abbrev pub Action : Type 0
Action = JsonWriter → JsonWriter

abbrev pub new_writer : JsonWriter
new_writer = record { output = []; first_property = [] }

abbrev pub in_turn : List Action → Action
in_turn [] writer = writer
in_turn (action ∷ actions) writer = in_turn actions (action writer)

unfoldable pub append : List ℕ → Action
append text writer = record writer { output = writer.output ++ text }

abbrev pub indent : ℕ → List ℕ
indent zero = []
indent (suc depth) = b' ' ∷ b' ' ∷ indent depth

abbrev pub is_first_property : List Bool → Bool
is_first_property [] = true
is_first_property (first ∷ others) = first

abbrev pub not_first : List Bool → List Bool
not_first [] = []
not_first (first ∷ others) = false ∷ others

abbrev pub pop_back : List Bool → List Bool
pop_back [] = []
pop_back (first ∷ others) = others

unfoldable pub element_prefix : Action
element_prefix writer = record {
  output =
      writer.output
      ++ (if is_first_property writer.first_property then [] else codes ",")
      ++ b'\n' ∷ indent (length writer.first_property);
  first_property = not_first writer.first_property;
}

unfoldable pub property_prefix : List ℕ → Action
property_prefix key writer = append (escape_json_string key ++ codes ": ") (element_prefix writer)

-- A bracket opens, with no property in it.
unfoldable pub open_bracket : ℕ → Action
open_bracket bracket writer = record {
  output = writer.output ++ bracket ∷ [];
  first_property = true ∷ writer.first_property;
}

-- EndObject and EndArray.
unfoldable pub close_bracket : ℕ → Action
close_bracket bracket writer =
    let outer = pop_back writer.first_property in
    record {
      output =
          writer.output
          ++ (if is_first_property writer.first_property then [] else b'\n' ∷ indent (length outer))
          ++ bracket ∷ [];
      first_property = outer;
    }

abbrev pub begin_document : Action
begin_document = open_bracket b'{'

abbrev pub end_object : Action
end_object = close_bracket b'}'

abbrev pub end_array : Action
end_array = close_bracket b']'

unfoldable pub finish_document : JsonWriter → List ℕ
finish_document writer = (end_object writer).output ++ b'\n' ∷ []

unfoldable pub string_property : List ℕ → List ℕ → Action
string_property key value writer = append (escape_json_string value) (property_prefix key writer)

unfoldable pub unsigned_property : List ℕ → ℕ → Action
unsigned_property key value writer = append (to_string value) (property_prefix key writer)

unfoldable pub insets_property : List ℕ → ThemeInsets → Action
insets_property key insets writer =
    append
      (codes "["
        ++ to_string insets.left
        ++ codes ", "
        ++ to_string insets.top
        ++ codes ", "
        ++ to_string insets.right
        ++ codes ", "
        ++ to_string insets.bottom
        ++ codes "]")
      (property_prefix key writer)

-- std::to_string of a std::int32_t, which stands in two's complement.
abbrev pub signed_to_string : ℕ → List ℕ
signed_to_string value =
    if ltb value (2 ^ 31) then to_string value else b'-' ∷ to_string (2 ^ 32 - value)

abbrev pub alignment_text : List ℕ → List ℕ
alignment_text [] = []
alignment_text (value ∷ []) = signed_to_string value
alignment_text (value ∷ next ∷ rest) =
    signed_to_string value ++ codes ", " ++ alignment_text (next ∷ rest)

unfoldable pub overlay_alignment_property : List ℕ → List ℕ → Action
overlay_alignment_property key alignment writer =
    append (codes "[" ++ alignment_text alignment ++ codes "]") (property_prefix key writer)

unfoldable pub begin_object_property : List ℕ → Action
begin_object_property key writer = open_bracket b'{' (property_prefix key writer)

unfoldable pub begin_array_property : List ℕ → Action
begin_array_property key writer = open_bracket b'[' (property_prefix key writer)

unfoldable pub begin_object_element : Action
begin_object_element writer = open_bracket b'{' (element_prefix writer)
