-- ===== src/Settings/Choices.antt =====
-- What each choice of the settings is written as, and read back as.
use ziliu_ime.Base.{◌≡◌, refl, Bool, true, false}
use ziliu_ime.Settings.Types.{
  CandidateLayout, InputModeSwitchKey, PunctuationStyle, PageKeySet, CharacterSet, DefaultInputMode,
  ThemeMode, CandidatePageMode, vertical, horizontal, shift, control, full_width, half_width,
  comma_period, semicolon_apostrophe, brackets, simplified, traditional, chinese, english, system,
  light, dark, single_line, multi_line,
}
use ziliu_ime.Settings.Values.{trim_left, trim_right, parse_boolean}
use ziliu_ime.Settings.Branches.{
  parse_candidate_layout, parse_input_mode_switch_key, parse_punctuation_style, parse_page_keys,
  parse_character_set, parse_default_input_mode, parse_theme_mode, parse_candidate_page_mode,
}
use ziliu_ime.Settings.Serialize.{
  boolean_text, candidate_layout_text, input_mode_switch_key_text, punctuation_style_text,
  page_keys_text, character_set_text, default_input_mode_text, theme_mode_text,
  candidate_page_mode_text,
}
use ziliu_ime.Settings.Lines.{IsValue, is_value-IsValue}

pub boolean_text-IsValue : (b : Bool) → IsValue (boolean_text b)
unfolding boolean_text trim_left trim_right
boolean_text-IsValue true = is_value-IsValue _ refl
boolean_text-IsValue false = is_value-IsValue _ refl

pub parse_boolean-boolean_text : (b d : Bool) → parse_boolean (boolean_text b) d ≡ b
unfolding parse_boolean boolean_text
parse_boolean-boolean_text true d = refl
parse_boolean-boolean_text false d = refl

pub candidate_layout_text-IsValue : (x : CandidateLayout) → IsValue (candidate_layout_text x)
unfolding candidate_layout_text trim_left trim_right
candidate_layout_text-IsValue vertical = is_value-IsValue _ refl
candidate_layout_text-IsValue horizontal = is_value-IsValue _ refl

pub parse_candidate_layout-candidate_layout_text :
    (x d : CandidateLayout) → parse_candidate_layout (candidate_layout_text x) d ≡ x
unfolding parse_candidate_layout candidate_layout_text
parse_candidate_layout-candidate_layout_text vertical d = refl
parse_candidate_layout-candidate_layout_text horizontal d = refl

pub input_mode_switch_key_text-IsValue :
    (x : InputModeSwitchKey) → IsValue (input_mode_switch_key_text x)
unfolding input_mode_switch_key_text trim_left trim_right
input_mode_switch_key_text-IsValue shift = is_value-IsValue _ refl
input_mode_switch_key_text-IsValue control = is_value-IsValue _ refl

pub parse_input_mode_switch_key-input_mode_switch_key_text :
    (x d : InputModeSwitchKey) → parse_input_mode_switch_key (input_mode_switch_key_text x) d ≡ x
unfolding parse_input_mode_switch_key input_mode_switch_key_text
parse_input_mode_switch_key-input_mode_switch_key_text shift d = refl
parse_input_mode_switch_key-input_mode_switch_key_text control d = refl

pub punctuation_style_text-IsValue : (x : PunctuationStyle) → IsValue (punctuation_style_text x)
unfolding punctuation_style_text trim_left trim_right
punctuation_style_text-IsValue full_width = is_value-IsValue _ refl
punctuation_style_text-IsValue half_width = is_value-IsValue _ refl

pub parse_punctuation_style-punctuation_style_text :
    (x d : PunctuationStyle) → parse_punctuation_style (punctuation_style_text x) d ≡ x
unfolding parse_punctuation_style punctuation_style_text
parse_punctuation_style-punctuation_style_text full_width d = refl
parse_punctuation_style-punctuation_style_text half_width d = refl

pub page_keys_text-IsValue : (x : PageKeySet) → IsValue (page_keys_text x)
unfolding page_keys_text trim_left trim_right
page_keys_text-IsValue comma_period = is_value-IsValue _ refl
page_keys_text-IsValue semicolon_apostrophe = is_value-IsValue _ refl
page_keys_text-IsValue brackets = is_value-IsValue _ refl

pub parse_page_keys-page_keys_text : (x d : PageKeySet) → parse_page_keys (page_keys_text x) d ≡ x
unfolding parse_page_keys page_keys_text
parse_page_keys-page_keys_text comma_period d = refl
parse_page_keys-page_keys_text semicolon_apostrophe d = refl
parse_page_keys-page_keys_text brackets d = refl

pub character_set_text-IsValue : (x : CharacterSet) → IsValue (character_set_text x)
unfolding character_set_text trim_left trim_right
character_set_text-IsValue simplified = is_value-IsValue _ refl
character_set_text-IsValue traditional = is_value-IsValue _ refl

pub parse_character_set-character_set_text :
    (x d : CharacterSet) → parse_character_set (character_set_text x) d ≡ x
unfolding parse_character_set character_set_text
parse_character_set-character_set_text simplified d = refl
parse_character_set-character_set_text traditional d = refl

pub default_input_mode_text-IsValue : (x : DefaultInputMode) → IsValue (default_input_mode_text x)
unfolding default_input_mode_text trim_left trim_right
default_input_mode_text-IsValue chinese = is_value-IsValue _ refl
default_input_mode_text-IsValue english = is_value-IsValue _ refl

pub parse_default_input_mode-default_input_mode_text :
    (x d : DefaultInputMode) → parse_default_input_mode (default_input_mode_text x) d ≡ x
unfolding parse_default_input_mode default_input_mode_text
parse_default_input_mode-default_input_mode_text chinese d = refl
parse_default_input_mode-default_input_mode_text english d = refl

pub theme_mode_text-IsValue : (x : ThemeMode) → IsValue (theme_mode_text x)
unfolding theme_mode_text trim_left trim_right
theme_mode_text-IsValue light = is_value-IsValue _ refl
theme_mode_text-IsValue dark = is_value-IsValue _ refl
theme_mode_text-IsValue system = is_value-IsValue _ refl

pub parse_theme_mode-theme_mode_text :
    (x d : ThemeMode) → parse_theme_mode (theme_mode_text x) d ≡ x
unfolding parse_theme_mode theme_mode_text
parse_theme_mode-theme_mode_text light d = refl
parse_theme_mode-theme_mode_text dark d = refl
parse_theme_mode-theme_mode_text system d = refl

pub candidate_page_mode_text-IsValue :
    (x : CandidatePageMode) → IsValue (candidate_page_mode_text x)
unfolding candidate_page_mode_text trim_left trim_right
candidate_page_mode_text-IsValue single_line = is_value-IsValue _ refl
candidate_page_mode_text-IsValue multi_line = is_value-IsValue _ refl

pub parse_candidate_page_mode-candidate_page_mode_text :
    (x d : CandidatePageMode) → parse_candidate_page_mode (candidate_page_mode_text x) d ≡ x
unfolding parse_candidate_page_mode candidate_page_mode_text
parse_candidate_page_mode-candidate_page_mode_text single_line d = refl
parse_candidate_page_mode-candidate_page_mode_text multi_line d = refl
