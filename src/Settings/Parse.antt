-- ===== src/Settings/Parse.antt =====
-- ParseSettings of core/src/settings.cpp.
use ziliu_ime.Base.{ℕ, Option, none, some, List, [], ◌∷◌, ◌==◌, if◌then◌else◌, text_eq}
use ziliu_ime.Settings.Types.{codes, Settings, default_settings}
use ziliu_ime.Settings.Values.{trim, parse_boolean, parse_font_family, is_valid_theme_id}
use ziliu_ime.Settings.Colors.{parse_color}
use ziliu_ime.Settings.Branches.{
  parse_candidate_layout, parse_input_mode_switch_key, parse_punctuation_style, parse_page_keys,
  parse_character_set, parse_default_input_mode, parse_theme_mode, parse_candidate_page_mode,
  parse_candidate_count, parse_candidate_font_size, read_font_family, read_color_scheme,
}

abbrev pub Handler : Type 0
Handler = List ℕ → Settings → Settings

-- The chain of branches on the key, in its order.
abbrev pub handlers : List (List ℕ × Handler)
handlers =
    (
      codes "candidate_layout",
      λ v s. record s { candidate_layout = parse_candidate_layout v s.candidate_layout },
    )
    ∷ (
      codes "candidate_count",
      λ v s. record s { candidate_count = parse_candidate_count v s.candidate_count },
    )
    ∷ (
      codes "input_mode_switch_key",
      λ v s. record s {
        input_mode_switch_key = parse_input_mode_switch_key v s.input_mode_switch_key;
      },
    )
    ∷ (
      codes "punctuation_style",
      λ v s. record s { punctuation_style = parse_punctuation_style v s.punctuation_style },
    )
    ∷ (
      codes "auto_pair_punctuation",
      λ v s. record s { auto_pair_punctuation = parse_boolean v s.auto_pair_punctuation },
    )
    ∷ (codes "page_keys", λ v s. record s { page_key_set = parse_page_keys v s.page_key_set })
    ∷ (
      codes "character_set",
      λ v s. record s { character_set = parse_character_set v s.character_set },
    )
    ∷ (
      codes "default_input_mode",
      λ v s. record s { default_input_mode = parse_default_input_mode v s.default_input_mode },
    )
    ∷ (
      codes "chinese_candidates_only",
      λ v s. record s { chinese_candidates_only = parse_boolean v s.chinese_candidates_only },
    )
    ∷ (
      codes "initialism_spelling",
      λ v s. record s { initialism_spelling = parse_boolean v s.initialism_spelling },
    )
    ∷ (
      codes "spelling_correction",
      λ v s. record s { spelling_correction = parse_boolean v s.spelling_correction },
    )
    ∷ (
      codes "correction_gn_ng",
      λ v s. record s { correction_gn_ng = parse_boolean v s.correction_gn_ng },
    )
    ∷ (
      codes "correction_mg_ng",
      λ v s. record s { correction_mg_ng = parse_boolean v s.correction_mg_ng },
    )
    ∷ (
      codes "correction_iou_iu",
      λ v s. record s { correction_iou_iu = parse_boolean v s.correction_iou_iu },
    )
    ∷ (
      codes "correction_uei_ui",
      λ v s. record s { correction_uei_ui = parse_boolean v s.correction_uei_ui },
    )
    ∷ (
      codes "correction_uen_un",
      λ v s. record s { correction_uen_un = parse_boolean v s.correction_uen_un },
    )
    ∷ (codes "fuzzy_z_zh", λ v s. record s { fuzzy_z_zh = parse_boolean v s.fuzzy_z_zh })
    ∷ (codes "fuzzy_c_ch", λ v s. record s { fuzzy_c_ch = parse_boolean v s.fuzzy_c_ch })
    ∷ (codes "fuzzy_s_sh", λ v s. record s { fuzzy_s_sh = parse_boolean v s.fuzzy_s_sh })
    ∷ (codes "fuzzy_l_n", λ v s. record s { fuzzy_l_n = parse_boolean v s.fuzzy_l_n })
    ∷ (codes "fuzzy_f_h", λ v s. record s { fuzzy_f_h = parse_boolean v s.fuzzy_f_h })
    ∷ (codes "fuzzy_r_l", λ v s. record s { fuzzy_r_l = parse_boolean v s.fuzzy_r_l })
    ∷ (codes "fuzzy_an_ang", λ v s. record s { fuzzy_an_ang = parse_boolean v s.fuzzy_an_ang })
    ∷ (codes "fuzzy_en_eng", λ v s. record s { fuzzy_en_eng = parse_boolean v s.fuzzy_en_eng })
    ∷ (codes "fuzzy_in_ing", λ v s. record s { fuzzy_in_ing = parse_boolean v s.fuzzy_in_ing })
    ∷ (
      codes "fuzzy_ian_iang",
      λ v s. record s { fuzzy_ian_iang = parse_boolean v s.fuzzy_ian_iang },
    )
    ∷ (
      codes "fuzzy_uan_uang",
      λ v s. record s { fuzzy_uan_uang = parse_boolean v s.fuzzy_uan_uang },
    )
    ∷ (
      codes "smart_numeric_punctuation",
      λ v s. record s { smart_numeric_punctuation = parse_boolean v s.smart_numeric_punctuation },
    )
    ∷ (codes "theme_mode", λ v s. record s { theme_mode = parse_theme_mode v s.theme_mode })
    ∷ (
      codes "active_theme_id",
      λ v s. record s { active_theme_id = if is_valid_theme_id v then v else s.active_theme_id },
    )
    ∷ (
      codes "candidate_page_mode",
      λ v s. record s { candidate_page_mode = parse_candidate_page_mode v s.candidate_page_mode },
    )
    ∷ (
      codes "custom_candidate_colors",
      λ v s. record s { custom_candidate_colors = parse_boolean v s.custom_candidate_colors },
    )
    ∷ (codes "preedit_color", λ v s. record s { preedit_color = parse_color v s.preedit_color })
    ∷ (
      codes "highlighted_candidate_color",
      λ v s. record s { highlighted_candidate_color = parse_color v s.highlighted_candidate_color },
    )
    ∷ (
      codes "candidate_text_color",
      λ v s. record s { candidate_text_color = parse_color v s.candidate_text_color },
    )
    ∷ (
      codes "candidate_background_color",
      λ v s. record s { candidate_background_color = parse_color v s.candidate_background_color },
    )
    ∷ (
      codes "custom_candidate_fonts",
      λ v s. record s { custom_candidate_fonts = parse_boolean v s.custom_candidate_fonts },
    )
    ∷ (
      codes "candidate_chinese_font_family",
      λ v s. record s {
        candidate_chinese_font_family = parse_font_family v s.candidate_chinese_font_family;
      },
    )
    ∷ (
      codes "candidate_english_font_family",
      λ v s. record s {
        candidate_english_font_family = parse_font_family v s.candidate_english_font_family;
      },
    )
    ∷ (codes "candidate_font_family", read_font_family)
    ∷ (codes "candidate_color_scheme", read_color_scheme)
    ∷ (
      codes "custom_candidate_font_size",
      λ v s. record s { custom_candidate_font_size = parse_boolean v s.custom_candidate_font_size },
    )
    ∷ (
      codes "candidate_font_size",
      λ v s. record s { candidate_font_size = parse_candidate_font_size v s.candidate_font_size },
    )
    ∷ (
      codes "candidate_scale_with_text",
      λ v s. record s { candidate_scale_with_text = parse_boolean v s.candidate_scale_with_text },
    )
    ∷ (
      codes "custom_theme_scale_with_windows",
      λ v s. record s {
        custom_theme_scale_with_windows = parse_boolean v s.custom_theme_scale_with_windows;
      },
    )
    ∷ []

unfoldable pub apply_handlers : List (List ℕ × Handler) → List ℕ → Handler
apply_handlers [] key value s = s
apply_handlers ((name, handler) ∷ others) key value s =
    let rest = apply_handlers others key value s in
    if text_eq key name then handler value s else rest

unfoldable pub apply_key : List ℕ → List ℕ → Settings → Settings
unfolding apply_handlers
apply_key key value s = apply_handlers handlers key value s

-- What stands before and after the first `separator`.
abbrev pub with_first : ℕ → Option (List ℕ × List ℕ) → Option (List ℕ × List ℕ)
with_first c none = none
with_first c (some (before, after)) = some (c ∷ before, after)

unfoldable pub split_at : ℕ → List ℕ → Option (List ℕ × List ℕ)
split_at separator [] = none
split_at separator (c ∷ cs) =
    let later = with_first c (split_at separator cs) in
    if c == separator then some ([], cs) else later

unfoldable pub apply_entry : Option (List ℕ × List ℕ) → Settings → Settings
apply_entry none s = s
apply_entry (some (key, value)) s = apply_key (trim key) (trim value) s

-- A line that is trimmed.
unfoldable pub apply_trimmed : List ℕ → Settings → Settings
apply_trimmed [] s = s
apply_trimmed (c ∷ line) s = if c == b'#' then s else apply_entry (split_at b'=' (c ∷ line)) s

abbrev pub with_head : ℕ → List (List ℕ) → List (List ℕ)
with_head c [] = (c ∷ []) ∷ []
with_head c (line ∷ lines) = (c ∷ line) ∷ lines

-- The lines that the loop cuts off: each ends before a newline, or at the end of the text.
unfoldable pub lines_of : List ℕ → List (List ℕ)
lines_of [] = []
lines_of (c ∷ text) = let rest = lines_of text in if c == b'\n' then [] ∷ rest else with_head c rest

unfoldable pub apply_lines : List (List ℕ) → Settings → Settings
apply_lines [] s = s
apply_lines (line ∷ lines) s = apply_lines lines (apply_trimmed (trim line) s)

unfoldable pub parse_settings : List ℕ → Settings
parse_settings text = apply_lines (lines_of text) default_settings
