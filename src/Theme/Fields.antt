-- ===== src/Theme/Fields.antt =====
-- ManifestReader of core/src/theme_manifest.cpp: the readers of single properties. Each is given what
-- its output has before, and gives what it has after with the issues that it adds, in order.
use ziliu_ime.Base.{
  ℕ, suc, ◌-◌, ◌*◌, ◌/◌, ◌%◌, ◌^◌, bit_or, Bool, true, false, not, ◌&&◌, Option, none, some, List,
  [], ◌∷◌, ◌++◌, ltb, leb, ◌==◌, if◌then◌else◌, length, text_eq,
}
use ziliu_ime.Settings.Types.{codes}
use ziliu_ime.Settings.Values.{is_empty, decimal_run}
use ziliu_ime.Settings.Colors.{from_chars_hex}
use ziliu_ime.Json.Types.{
  JsonValue, Items, Members, number, string, array, no_items, item, no_members, member,
}
use ziliu_ime.Theme.Types.{
  ThemeImageLayout, stretch, tile, fixed, ThemeInsets, default_insets, missing_property,
  invalid_property,
}
use ziliu_ime.Theme.Validate.{Issues, validation_issue, issue_if}

-- Find.
unfoldable pub find : List ℕ → Members → Option JsonValue
find key no_members = none
find key (member k value rest) =
    let more = find key rest in if text_eq k key then some value else more

abbrev pub Reading : Type 0 → Type 0
Reading A = A × Issues

unfoldable pub missing : Bool → List ℕ → Issues
missing required path =
    issue_if required missing_property path (codes "required property is missing")

-- ReadString.
abbrev pub string_found : List ℕ → Bool → List ℕ → Option JsonValue → Reading (List ℕ)
string_found path required output none = (output, missing required path)
string_found path required output (some (string text)) = (text, [])
string_found path required output (some _) =
    (output, validation_issue invalid_property path (codes "property must be a string"))

unfoldable pub read_string : Members → List ℕ → List ℕ → Bool → List ℕ → Reading (List ℕ)
read_string object key path required output = string_found path required output (find key object)

-- std::from_chars into a std::uint32_t or a std::int32_t, and the test that it read the whole text.
-- A std::int32_t stands in two's complement.
abbrev pub unsigned_result : List ℕ → ℕ × List ℕ → Option ℕ
unsigned_result text (value, []) =
    if length text == 0 then none else if leb (2 ^ 32) value then none else some value
unsigned_result text (value, c ∷ cs) = none

unfoldable pub from_chars_unsigned : List ℕ → Option ℕ
from_chars_unsigned text = unsigned_result text (decimal_run 0 text)

abbrev pub signed_result : Bool → List ℕ → ℕ × List ℕ → Option ℕ
signed_result negative text (value, []) =
    if length text == 0
    then none
    else if ltb (if negative then 2 ^ 31 else 2 ^ 31 - 1) value
    then none
    else some (if negative then (2 ^ 32 - value) % 2 ^ 32 else value)
signed_result negative text (value, c ∷ cs) = none

unfoldable pub from_chars_signed : List ℕ → Option ℕ
from_chars_signed [] = none
from_chars_signed (c ∷ cs) =
    if c == b'-'
    then signed_result true cs (decimal_run 0 cs)
    else signed_result false (c ∷ cs) (decimal_run 0 (c ∷ cs))

abbrev pub unsigned_of : JsonValue → Option ℕ
unsigned_of (number text) = from_chars_unsigned text
unsigned_of _ = none

-- ReadUnsigned.
abbrev pub unsigned_or : List ℕ → ℕ → Option ℕ → Reading ℕ
unsigned_or path output none =
    (output, validation_issue invalid_property path (codes "property must be an unsigned integer"))
unsigned_or path output (some value) = (value, [])

abbrev pub unsigned_found : List ℕ → Bool → ℕ → Option JsonValue → Reading ℕ
unsigned_found path required output none = (output, missing required path)
unsigned_found path required output (some value) = unsigned_or path output (unsigned_of value)

unfoldable pub read_unsigned : Members → List ℕ → List ℕ → Bool → ℕ → Reading ℕ
read_unsigned object key path required output =
    unsigned_found path required output (find key object)

-- ReadColor. The digits follow the `#`; #RRGGBB is opaque, and the alpha of #RRGGBBAA goes first.
abbrev pub argb_of : ℕ → ℕ → ℕ
argb_of size rgba =
    if size == 7 then bit_or 0xFF000000 rgba else bit_or (rgba % 2 ^ 8 * 2 ^ 24) (rgba / 2 ^ 8)

abbrev pub color_digits_result : ℕ → List ℕ → ℕ → Option (ℕ × List ℕ) → Reading ℕ
color_digits_result size path output (some (rgba, [])) = (argb_of size rgba, [])
color_digits_result size path output _ =
    (output, validation_issue invalid_property path (codes "color contains non-hexadecimal digits"))

unfoldable pub color_of_text : List ℕ → List ℕ → ℕ → Reading ℕ
color_of_text [] path output = (output, [])
color_of_text (c ∷ cs) path output =
    if not (length (c ∷ cs) == 7) && not (length (c ∷ cs) == 9)
    then (
      output,
      validation_issue invalid_property path (codes "color must use #RRGGBB or #RRGGBBAA"),
    )
    else if not (c == b'#')
    then (output, validation_issue invalid_property path (codes "color must start with '#'"))
    else color_digits_result (length (c ∷ cs)) path output (from_chars_hex cs)

abbrev pub then_color : List ℕ → ℕ → Reading (List ℕ) → Reading ℕ
then_color path output (text, issues) =
    let (color, more) = color_of_text text path output in (color, issues ++ more)

unfoldable pub read_color : Members → List ℕ → List ℕ → ℕ → Reading ℕ
read_color object key path output = then_color path output (read_string object key path true [])

-- ReadOptionalColor and ReadOptionalInsets: the value is kept only where no issue was added.
abbrev pub when_clean {ℓ} : {A : Type ℓ} → Option A → A × Issues → Option A × Issues
when_clean output (value, []) = (some value, [])
when_clean output (value, issue ∷ issues) = (output, issue ∷ issues)

abbrev pub optional_property {ℓ} :
    {A : Type ℓ} → Option JsonValue → Option A → A × Issues → Option A × Issues
optional_property none output reading = (output, [])
optional_property (some value) output reading = when_clean output reading

unfoldable pub read_optional_color : Members → List ℕ → List ℕ → Option ℕ → Reading (Option ℕ)
read_optional_color object key path output =
    optional_property (find key object) output (read_color object key path 0)

-- ReadInsets.
abbrev pub four_insets :
    List ℕ → ThemeInsets → Option ℕ → Option ℕ → Option ℕ → Option ℕ → Reading ThemeInsets
four_insets path output (some a) (some b) (some c) (some d) =
    (record { left = a; top = b; right = c; bottom = d }, [])
four_insets path output _ _ _ _ = (
  output,
  validation_issue invalid_property path (codes "each inset must be an unsigned integer"),
)

abbrev pub insets_found : List ℕ → ThemeInsets → Option JsonValue → Reading ThemeInsets
insets_found path output none = (output, [])
insets_found path output (some (array (item a (item b (item c (item d no_items)))))) =
    four_insets path output (unsigned_of a) (unsigned_of b) (unsigned_of c) (unsigned_of d)
insets_found path output (some _) = (
  output,
  validation_issue invalid_property path (codes "insets must be [left, top, right, bottom]"),
)

unfoldable pub read_insets : Members → List ℕ → List ℕ → ThemeInsets → Reading ThemeInsets
read_insets object key path output = insets_found path output (find key object)

unfoldable pub read_optional_insets :
    Members → List ℕ → List ℕ → Option ThemeInsets → Reading (Option ThemeInsets)
read_optional_insets object key path output =
    optional_property (find key object) output (read_insets object key path default_insets)

-- ReadOverlayAlignment. The values before one that is refused are kept.
abbrev pub items_length : Items → ℕ
items_length no_items = 0
items_length (item value rest) = suc (items_length rest)

abbrev pub then_align : ℕ → Reading (List ℕ) → Reading (List ℕ)
then_align value (rest, issues) = (value ∷ rest, issues)

abbrev pub align_step : List ℕ → List ℕ → Option ℕ → Reading (List ℕ) → Reading (List ℕ)
align_step path output none more = (
  output,
  validation_issue invalid_property path
      (codes "each overlay align value must be a signed 32-bit integer"),
)
align_step path output (some value) more = then_align value more

unfoldable pub align_values : List ℕ → Items → List ℕ → Reading (List ℕ)
align_values path no_items output = (output, [])
align_values path (item value rest) [] = ([], [])
align_values path (item (number text) rest) (o ∷ output) =
    align_step path (o ∷ output) (from_chars_signed text) (align_values path rest output)
align_values path (item _ rest) (o ∷ output) = (
  o ∷ output,
  validation_issue invalid_property path
      (codes "each overlay align value must be a signed integer"),
)

abbrev pub alignment_property : List ℕ → List ℕ → Option JsonValue → Reading (List ℕ)
alignment_property path output none = (output, missing true path)
alignment_property path output (some (array items)) =
    if items_length items == length output then align_values path items output else (
      output,
      validation_issue invalid_property path
          (codes "overlay align must contain exactly 10 signed integers"),
    )
alignment_property path output (some _) = (
  output,
  validation_issue invalid_property path
      (codes "overlay align must contain exactly 10 signed integers"),
)

unfoldable pub read_overlay_alignment : Members → List ℕ → List ℕ → List ℕ → Reading (List ℕ)
read_overlay_alignment object key path output = alignment_property path output (find key object)

-- ReadImageLayout.
unfoldable pub layout_of_text : List ℕ → List ℕ → ThemeImageLayout → Reading ThemeImageLayout
layout_of_text layout path output =
    if is_empty layout
    then (output, [])
    else if text_eq layout (codes "stretch")
    then (stretch, [])
    else if text_eq layout (codes "tile")
    then (tile, [])
    else if text_eq layout (codes "fixed")
    then (fixed, [])
    else (
      output,
      validation_issue invalid_property path (codes "layout must be 'stretch', 'tile' or 'fixed'"),
    )

unfoldable pub read_image_layout :
    Members → List ℕ → List ℕ → ThemeImageLayout → Reading ThemeImageLayout
read_image_layout object key path output =
    let (layout, issues) = read_string object key path false [] in
    let (value, more) = layout_of_text layout path output in (value, issues ++ more)
