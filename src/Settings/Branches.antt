-- ===== src/Settings/Branches.antt =====
-- The branches of ParseSettings of core/src/settings.cpp, for the keys whose value is no Boolean and no
-- color. Each is given the value of a line and what its destination has before.
use ziliu_ime.Base.{ℕ, not, List, if◌then◌else◌, text_eq}
use ziliu_ime.Settings.Types.{
  codes, CandidateLayout, InputModeSwitchKey, PunctuationStyle, PageKeySet, CharacterSet,
  DefaultInputMode, ThemeMode, CandidatePageMode, vertical, horizontal, shift, control, full_width,
  half_width, comma_period, semicolon_apostrophe, brackets, simplified, traditional, chinese,
  english, system, light, dark, single_line, multi_line, Settings,
}
use ziliu_ime.Settings.Values.{parse_clamped}
use ziliu_ime.Settings.Paging.{minimum_candidate_count, maximum_candidate_count}

abbrev pub minimum_candidate_font_size : ℕ
minimum_candidate_font_size = 14

abbrev pub maximum_candidate_font_size : ℕ
maximum_candidate_font_size = 24

unfoldable pub parse_candidate_layout : List ℕ → CandidateLayout → CandidateLayout
parse_candidate_layout value destination =
    if text_eq value (codes "vertical")
    then vertical
    else if text_eq value (codes "horizontal")
    then horizontal
    else destination

unfoldable pub parse_input_mode_switch_key : List ℕ → InputModeSwitchKey → InputModeSwitchKey
parse_input_mode_switch_key value destination =
    if text_eq value (codes "shift")
    then shift
    else if text_eq value (codes "control")
    then control
    else destination

unfoldable pub parse_punctuation_style : List ℕ → PunctuationStyle → PunctuationStyle
parse_punctuation_style value destination =
    if text_eq value (codes "full_width")
    then full_width
    else if text_eq value (codes "half_width")
    then half_width
    else destination

unfoldable pub parse_page_keys : List ℕ → PageKeySet → PageKeySet
parse_page_keys value destination =
    if text_eq value (codes "comma_period")
    then comma_period
    else if text_eq value (codes "semicolon_apostrophe")
    then semicolon_apostrophe
    else if text_eq value (codes "brackets")
    then brackets
    else destination

unfoldable pub parse_character_set : List ℕ → CharacterSet → CharacterSet
parse_character_set value destination =
    if text_eq value (codes "simplified")
    then simplified
    else if text_eq value (codes "traditional")
    then traditional
    else destination

unfoldable pub parse_default_input_mode : List ℕ → DefaultInputMode → DefaultInputMode
parse_default_input_mode value destination =
    if text_eq value (codes "chinese")
    then chinese
    else if text_eq value (codes "english")
    then english
    else destination

unfoldable pub parse_theme_mode : List ℕ → ThemeMode → ThemeMode
parse_theme_mode value destination =
    if text_eq value (codes "light")
    then light
    else if text_eq value (codes "dark")
    then dark
    else if text_eq value (codes "system")
    then system
    else destination

unfoldable pub parse_candidate_page_mode : List ℕ → CandidatePageMode → CandidatePageMode
parse_candidate_page_mode value destination =
    if text_eq value (codes "single_line")
    then single_line
    else if text_eq value (codes "multi_line")
    then multi_line
    else destination

abbrev pub parse_candidate_count : List ℕ → ℕ → ℕ
parse_candidate_count = parse_clamped minimum_candidate_count maximum_candidate_count

abbrev pub parse_candidate_font_size : List ℕ → ℕ → ℕ
parse_candidate_font_size = parse_clamped minimum_candidate_font_size maximum_candidate_font_size

-- The branch for candidate_font_family, a key of older versions.
unfoldable pub read_font_family : List ℕ → Settings → Settings
read_font_family value s = record s {
  custom_candidate_fonts = not (text_eq value (codes "system"));
  candidate_chinese_font_family =
      if text_eq value (codes "microsoft_yahei")
      then codes "Microsoft YaHei UI"
      else s.candidate_chinese_font_family;
}

-- The branch for candidate_color_scheme, a key of older versions.
unfoldable pub read_color_scheme : List ℕ → Settings → Settings
read_color_scheme value s = record s {
  custom_candidate_colors = not (text_eq value (codes "system"));
  highlighted_candidate_color =
      if text_eq value (codes "blue")
      then 0x0067C0
      else if text_eq value (codes "graphite")
      then 0x555555
      else s.highlighted_candidate_color;
  candidate_background_color =
      if text_eq value (codes "blue")
      then 0xF7FAFF
      else if text_eq value (codes "graphite")
      then 0xF4F4F4
      else s.candidate_background_color;
}
