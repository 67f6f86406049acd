-- ===== src/Settings/Types.antt =====
-- The types of core/include/ziliu/core/settings.h. A std::string is a list of bytes, and a color a
-- std::uint32_t.
use Prim.Native.Char.{code}
use Prim.Native.String.{String}
use ziliu_ime.Base.{ℕ, Bool, true, false, List, [], ◌∷◌}

-- The bytes of an ASCII literal.
abbrev pub codes : String → List ℕ
codes String.[] = []
codes (String.◌∷◌ c s) = code c ∷ codes s

pub data CandidateLayout : Type 0 where
  vertical horizontal : CandidateLayout

pub data InputModeSwitchKey : Type 0 where
  shift control : InputModeSwitchKey

pub data PunctuationStyle : Type 0 where
  full_width half_width : PunctuationStyle

pub data PageKeySet : Type 0 where
  comma_period semicolon_apostrophe brackets : PageKeySet

pub data CharacterSet : Type 0 where
  simplified traditional : CharacterSet

pub data DefaultInputMode : Type 0 where
  chinese english : DefaultInputMode

pub data ThemeMode : Type 0 where
  system light dark : ThemeMode

pub data CandidatePageMode : Type 0 where
  single_line multi_line : CandidatePageMode

pub record Settings : Type 0 where
  pub candidate_layout : CandidateLayout
  pub candidate_count : ℕ
  pub input_mode_switch_key : InputModeSwitchKey
  pub punctuation_style : PunctuationStyle
  pub auto_pair_punctuation : Bool
  pub page_key_set : PageKeySet
  pub character_set : CharacterSet
  pub default_input_mode : DefaultInputMode
  pub chinese_candidates_only : Bool
  pub initialism_spelling : Bool
  pub spelling_correction : Bool
  pub correction_gn_ng : Bool
  pub correction_mg_ng : Bool
  pub correction_iou_iu : Bool
  pub correction_uei_ui : Bool
  pub correction_uen_un : Bool
  pub fuzzy_z_zh : Bool
  pub fuzzy_c_ch : Bool
  pub fuzzy_s_sh : Bool
  pub fuzzy_l_n : Bool
  pub fuzzy_f_h : Bool
  pub fuzzy_r_l : Bool
  pub fuzzy_an_ang : Bool
  pub fuzzy_en_eng : Bool
  pub fuzzy_in_ing : Bool
  pub fuzzy_ian_iang : Bool
  pub fuzzy_uan_uang : Bool
  pub smart_numeric_punctuation : Bool
  pub theme_mode : ThemeMode
  pub active_theme_id : List ℕ
  pub candidate_page_mode : CandidatePageMode
  pub custom_candidate_colors : Bool
  pub preedit_color : ℕ
  pub highlighted_candidate_color : ℕ
  pub candidate_text_color : ℕ
  pub candidate_background_color : ℕ
  pub custom_candidate_fonts : Bool
  pub candidate_chinese_font_family : List ℕ
  pub candidate_english_font_family : List ℕ
  pub custom_candidate_font_size : Bool
  pub candidate_font_size : ℕ
  pub candidate_scale_with_text : Bool
  pub custom_theme_scale_with_windows : Bool

-- kDefaultThemeId.
abbrev pub default_theme_id : List ℕ
default_theme_id = codes "org.ziliu.default"

abbrev pub default_settings : Settings
default_settings = record {
  candidate_layout = vertical;
  candidate_count = 5;
  input_mode_switch_key = shift;
  punctuation_style = full_width;
  auto_pair_punctuation = true;
  page_key_set = comma_period;
  character_set = simplified;
  default_input_mode = chinese;
  chinese_candidates_only = true;
  initialism_spelling = true;
  spelling_correction = true;
  correction_gn_ng = true;
  correction_mg_ng = true;
  correction_iou_iu = true;
  correction_uei_ui = true;
  correction_uen_un = true;
  fuzzy_z_zh = false;
  fuzzy_c_ch = false;
  fuzzy_s_sh = false;
  fuzzy_l_n = false;
  fuzzy_f_h = false;
  fuzzy_r_l = false;
  fuzzy_an_ang = false;
  fuzzy_en_eng = false;
  fuzzy_in_ing = false;
  fuzzy_ian_iang = false;
  fuzzy_uan_uang = false;
  smart_numeric_punctuation = true;
  theme_mode = system;
  active_theme_id = default_theme_id;
  candidate_page_mode = single_line;
  custom_candidate_colors = false;
  preedit_color = 0x202124;
  highlighted_candidate_color = 0x0067C0;
  candidate_text_color = 0x202124;
  candidate_background_color = 0xFAFAFA;
  custom_candidate_fonts = false;
  candidate_chinese_font_family = codes "Source Han Sans SC";
  candidate_english_font_family = codes "Segoe UI Variable Text";
  custom_candidate_font_size = false;
  candidate_font_size = 17;
  candidate_scale_with_text = true;
  custom_theme_scale_with_windows = true;
}
