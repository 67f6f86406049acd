-- ===== src/Settings/Serialize.antt =====
-- SerializeSettings of core/src/settings.cpp.
use ziliu_ime.Base.{ℕ, Bool, true, false, List, [], ◌∷◌, ◌++◌, if◌then◌else◌}
use ziliu_ime.Settings.Types.{
  codes, CandidateLayout, InputModeSwitchKey, PunctuationStyle, PageKeySet, CharacterSet,
  DefaultInputMode, ThemeMode, CandidatePageMode, vertical, horizontal, shift, control, full_width,
  half_width, comma_period, semicolon_apostrophe, brackets, simplified, traditional, chinese,
  english, system, light, dark, single_line, multi_line, Settings, default_theme_id,
}
use ziliu_ime.Settings.Values.{is_valid_theme_id, to_string}
use ziliu_ime.Settings.Colors.{serialize_color}
use ziliu_ime.Settings.Paging.{clamp, minimum_candidate_count, maximum_candidate_count}
use ziliu_ime.Settings.Branches.{minimum_candidate_font_size, maximum_candidate_font_size}

unfoldable pub boolean_text : Bool → List ℕ
boolean_text true = codes "true"
boolean_text false = codes "false"

unfoldable pub candidate_layout_text : CandidateLayout → List ℕ
candidate_layout_text vertical = codes "vertical"
candidate_layout_text horizontal = codes "horizontal"

unfoldable pub input_mode_switch_key_text : InputModeSwitchKey → List ℕ
input_mode_switch_key_text shift = codes "shift"
input_mode_switch_key_text control = codes "control"

unfoldable pub punctuation_style_text : PunctuationStyle → List ℕ
punctuation_style_text full_width = codes "full_width"
punctuation_style_text half_width = codes "half_width"

unfoldable pub page_keys_text : PageKeySet → List ℕ
page_keys_text comma_period = codes "comma_period"
page_keys_text semicolon_apostrophe = codes "semicolon_apostrophe"
page_keys_text brackets = codes "brackets"

unfoldable pub character_set_text : CharacterSet → List ℕ
character_set_text simplified = codes "simplified"
character_set_text traditional = codes "traditional"

unfoldable pub default_input_mode_text : DefaultInputMode → List ℕ
default_input_mode_text chinese = codes "chinese"
default_input_mode_text english = codes "english"

unfoldable pub theme_mode_text : ThemeMode → List ℕ
theme_mode_text light = codes "light"
theme_mode_text dark = codes "dark"
theme_mode_text system = codes "system"

unfoldable pub candidate_page_mode_text : CandidatePageMode → List ℕ
candidate_page_mode_text single_line = codes "single_line"
candidate_page_mode_text multi_line = codes "multi_line"

abbrev pub serialized_count : ℕ → ℕ
serialized_count count = clamp count minimum_candidate_count maximum_candidate_count

abbrev pub serialized_font_size : ℕ → ℕ
serialized_font_size size = clamp size minimum_candidate_font_size maximum_candidate_font_size

unfoldable pub serialized_theme_id : List ℕ → List ℕ
serialized_theme_id theme_id = if is_valid_theme_id theme_id then theme_id else default_theme_id

-- The keys and the values of the lines after the first.
abbrev pub entries : Settings → List (List ℕ × List ℕ)
entries s =
    (codes "candidate_layout", candidate_layout_text s.candidate_layout)
    ∷ (codes "candidate_count", to_string (serialized_count s.candidate_count))
    ∷ (codes "input_mode_switch_key", input_mode_switch_key_text s.input_mode_switch_key)
    ∷ (codes "punctuation_style", punctuation_style_text s.punctuation_style)
    ∷ (codes "auto_pair_punctuation", boolean_text s.auto_pair_punctuation)
    ∷ (codes "page_keys", page_keys_text s.page_key_set)
    ∷ (codes "character_set", character_set_text s.character_set)
    ∷ (codes "default_input_mode", default_input_mode_text s.default_input_mode)
    ∷ (codes "chinese_candidates_only", boolean_text s.chinese_candidates_only)
    ∷ (codes "initialism_spelling", boolean_text s.initialism_spelling)
    ∷ (codes "spelling_correction", boolean_text s.spelling_correction)
    ∷ (codes "correction_gn_ng", boolean_text s.correction_gn_ng)
    ∷ (codes "correction_mg_ng", boolean_text s.correction_mg_ng)
    ∷ (codes "correction_iou_iu", boolean_text s.correction_iou_iu)
    ∷ (codes "correction_uei_ui", boolean_text s.correction_uei_ui)
    ∷ (codes "correction_uen_un", boolean_text s.correction_uen_un)
    ∷ (codes "fuzzy_z_zh", boolean_text s.fuzzy_z_zh)
    ∷ (codes "fuzzy_c_ch", boolean_text s.fuzzy_c_ch)
    ∷ (codes "fuzzy_s_sh", boolean_text s.fuzzy_s_sh)
    ∷ (codes "fuzzy_l_n", boolean_text s.fuzzy_l_n)
    ∷ (codes "fuzzy_f_h", boolean_text s.fuzzy_f_h)
    ∷ (codes "fuzzy_r_l", boolean_text s.fuzzy_r_l)
    ∷ (codes "fuzzy_an_ang", boolean_text s.fuzzy_an_ang)
    ∷ (codes "fuzzy_en_eng", boolean_text s.fuzzy_en_eng)
    ∷ (codes "fuzzy_in_ing", boolean_text s.fuzzy_in_ing)
    ∷ (codes "fuzzy_ian_iang", boolean_text s.fuzzy_ian_iang)
    ∷ (codes "fuzzy_uan_uang", boolean_text s.fuzzy_uan_uang)
    ∷ (codes "smart_numeric_punctuation", boolean_text s.smart_numeric_punctuation)
    ∷ (codes "theme_mode", theme_mode_text s.theme_mode)
    ∷ (codes "active_theme_id", serialized_theme_id s.active_theme_id)
    ∷ (codes "candidate_page_mode", candidate_page_mode_text s.candidate_page_mode)
    ∷ (codes "custom_candidate_colors", boolean_text s.custom_candidate_colors)
    ∷ (codes "preedit_color", serialize_color s.preedit_color)
    ∷ (codes "highlighted_candidate_color", serialize_color s.highlighted_candidate_color)
    ∷ (codes "candidate_text_color", serialize_color s.candidate_text_color)
    ∷ (codes "candidate_background_color", serialize_color s.candidate_background_color)
    ∷ (codes "custom_candidate_fonts", boolean_text s.custom_candidate_fonts)
    ∷ (codes "candidate_chinese_font_family", s.candidate_chinese_font_family)
    ∷ (codes "candidate_english_font_family", s.candidate_english_font_family)
    ∷ (codes "custom_candidate_font_size", boolean_text s.custom_candidate_font_size)
    ∷ (codes "candidate_font_size", to_string (serialized_font_size s.candidate_font_size))
    ∷ (codes "candidate_scale_with_text", boolean_text s.candidate_scale_with_text)
    ∷ (codes "custom_theme_scale_with_windows", boolean_text s.custom_theme_scale_with_windows)
    ∷ []

unfoldable pub line_text : List ℕ × List ℕ → List ℕ
line_text (key, value) = key ++ b'=' ∷ (value ++ b'\n' ∷ [])

unfoldable pub entries_text : List (List ℕ × List ℕ) → List ℕ
entries_text [] = []
entries_text (entry ∷ rest) = line_text entry ++ entries_text rest

unfoldable pub serialize_settings : Settings → List ℕ
serialize_settings s = line_text (codes "version", codes "7") ++ entries_text (entries s)
