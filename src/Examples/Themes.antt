-- ===== src/Examples/Themes.antt =====
-- A small theme manifest: its text, its assets, and a color of it.
use ziliu_ime.Base.{ℕ, ◌≡◌, refl, none, some, List, [], ◌∷◌, ◌==◌, if◌then◌else◌, arith, All}
use ziliu_ime.Settings.Types.{codes}
use ziliu_ime.Settings.Values.{are_theme_id_characters, decimal_run, to_string}
use ziliu_ime.Settings.Colors.{hex_character, hex_digit, hex_run, from_chars_hex}
use ziliu_ime.Json.Types.{
  Members, member, no_members, string, is_whitespace, skip_whitespace, consume, close_or,
}
use ziliu_ime.Json.Utf.{after_sequence, is_valid_utf8_loop, is_valid_utf8}
use ziliu_ime.Json.Strings.{string_character, string_end, string_loop, parse_string}
use ziliu_ime.Json.Numbers.{
  skip_digits, minus_sign, integer_part, fraction, exponent, skip_number, parse_number,
}
use ziliu_ime.Json.Values.{
  text_lt, push_back, emplace, array_loop, object_loop, parse_array, parse_object, value_at,
  parse_value, parse_json,
}
use ziliu_ime.Json.Writer.{escaped_character, escaped_characters, escape_json_string}
use ziliu_ime.Theme.Writer.{
  append, element_prefix, property_prefix, open_bracket, close_bracket, finish_document,
  string_property, unsigned_property, insets_property, begin_object_property,
}
use ziliu_ime.Theme.Serialize.{
  serialize_image_layout, write_surface, is_empty_surface, write_appearance,
  serialize_theme_manifest,
}
use ziliu_ime.Theme.Paths.{
  has_control_characters, is_valid_manifest_id, from_last_dot, has_supported_image_extension,
  split_slash, are_safe_components, is_safe_theme_asset_path,
}
use ziliu_ime.Theme.Validate.{
  in_order, issue_if, validate_text, validate_asset, validate_insets, validate_overlays,
  validate_image_layout, validate_image, validate_surface, validate_appearance,
  validate_theme_manifest,
}
use ziliu_ime.Theme.Fields.{
  find, read_optional_color, missing, read_string, from_chars_unsigned, read_unsigned,
  color_of_text, read_color, read_insets, read_image_layout, layout_of_text,
}
use ziliu_ime.Theme.Sections.{read_image}
use ziliu_ime.Theme.Reader.{read_surface, read_palette, read_typography, read_appearance}
use ziliu_ime.Theme.Manifest.{read_manifest, validated, parse_theme_manifest}
use ziliu_ime.Theme.Assets.{IsInside, assets}
use ziliu_ime.Theme.ManifestLaws.{parse_theme_manifest-IsInside}
use ziliu_ime.Theme.Bounds.{IsBounded, parse_theme_manifest-IsBounded}
use ziliu_ime.Theme.Colors.{serialize_argb, color_of_text-serialize_argb}

-- A text with its apostrophes made quotation marks.
abbrev quoted : List ℕ → List ℕ
quoted [] = []
quoted (c ∷ cs) = (if c == b'\'' then b'"' else c) ∷ quoted cs

abbrev manifest_text : List ℕ
manifest_text = quoted (
    codes
      "{'format_version':1,'id':'org.plain','name':'Plain','author':'A','version':'1','license':'MIT','appearances':{'light':{'palette':{'preedit_text':'#202124','candidate_text':'#202124','highlighted_candidate_text':'#0067C0','background':'#FAFAFA80','highlighted_background':'#E1EFFF','muted_text':'#6B7280','separator':'#D1D5DB'},'typography':{'chinese_font_family':'C','english_font_family':'E','font_size':17},'surfaces':{'horizontal':{'background':{'asset':'images/back.png'}}}}}}")

manifest_clean : (parse_theme_manifest manifest_text).issues ≡ []
unfolding are_theme_id_characters decimal_run hex_digit hex_run from_chars_hex is_whitespace
    skip_whitespace consume close_or after_sequence is_valid_utf8_loop is_valid_utf8
    string_character string_end string_loop parse_string skip_digits minus_sign integer_part
    fraction exponent skip_number parse_number text_lt push_back emplace array_loop object_loop
    parse_array parse_object value_at parse_value parse_json has_control_characters
    is_valid_manifest_id from_last_dot has_supported_image_extension split_slash are_safe_components
    is_safe_theme_asset_path in_order issue_if validate_text validate_asset validate_insets
    validate_overlays validate_image_layout validate_image validate_surface validate_appearance
    validate_theme_manifest find missing read_string from_chars_unsigned read_unsigned color_of_text
    read_color read_insets read_image read_surface read_palette read_typography read_appearance
    read_manifest validated parse_theme_manifest
manifest_clean = refl

parse_theme_manifest-IsInside_example :
    All (IsInside (codes "themes" ∷ [])) (assets (parse_theme_manifest manifest_text).manifest)
parse_theme_manifest-IsInside_example =
    parse_theme_manifest-IsInside (codes "themes" ∷ []) manifest_text manifest_clean

parse_theme_manifest-IsBounded_example : IsBounded (parse_theme_manifest manifest_text).manifest
parse_theme_manifest-IsBounded_example = parse_theme_manifest-IsBounded manifest_text manifest_clean

color_of_text-serialize_argb_example :
    color_of_text (serialize_argb 0x80FAFAFA) (codes "$.background") 0 ≡ (0x80FAFAFA, [])
color_of_text-serialize_argb_example =
    color_of_text-serialize_argb 0x80FAFAFA 0 (codes "$.background") (omega arith)

-- The manifest is written and read back as it is.
written_back :
    parse_theme_manifest (serialize_theme_manifest (parse_theme_manifest manifest_text).manifest)
    ≡ parse_theme_manifest manifest_text
unfolding are_theme_id_characters decimal_run hex_digit hex_run from_chars_hex is_whitespace
    skip_whitespace consume close_or after_sequence is_valid_utf8_loop is_valid_utf8
    string_character string_end string_loop parse_string skip_digits minus_sign integer_part
    fraction exponent skip_number parse_number text_lt push_back emplace array_loop object_loop
    parse_array parse_object value_at parse_value parse_json has_control_characters
    is_valid_manifest_id from_last_dot has_supported_image_extension split_slash are_safe_components
    is_safe_theme_asset_path in_order issue_if validate_text validate_asset validate_insets
    validate_overlays validate_image_layout validate_image validate_surface validate_appearance
    validate_theme_manifest find missing read_string from_chars_unsigned read_unsigned color_of_text
    read_color read_insets read_image read_surface read_palette read_typography read_appearance
    read_manifest validated parse_theme_manifest hex_character serialize_argb escaped_character
    escaped_characters escape_json_string to_string append element_prefix property_prefix
    open_bracket close_bracket finish_document string_property unsigned_property insets_property
    begin_object_property serialize_image_layout write_surface is_empty_surface write_appearance
    serialize_theme_manifest read_image_layout layout_of_text
written_back = refl

-- A separator's color that is the empty text is read as 0, with no issue.
abbrev uncolored : Members
uncolored = member (codes "color") (string []) no_members

empty_color : read_optional_color uncolored (codes "color") (codes "$.color") none ≡ (some 0, [])
unfolding read_optional_color read_color read_string find color_of_text
empty_color = refl
