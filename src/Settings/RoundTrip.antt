-- ===== src/Settings/RoundTrip.antt =====
-- SerializeSettings and ParseSettings: what is written is read back.
use ziliu_ime.Base.{◌%◌, ◌^◌, ◌≡◌, refl, ap, ◌∙◌, true, arith}
use ziliu_ime.Settings.Types.{codes, Settings, default_settings}
use ziliu_ime.Settings.Values.{trim_left, trim_right}
use ziliu_ime.Settings.Colors.{parse_color-serialize_color}
use ziliu_ime.Settings.Parse.{apply_handlers, apply_key, parse_settings, lines_of, apply_lines}
use ziliu_ime.Settings.Serialize.{
  serialized_count, serialized_font_size, serialized_theme_id, entries, entries_text,
  serialize_settings,
}
use ziliu_ime.Settings.Lines.{
  IsValue, is_key, is_value-IsValue, apply_entries, apply_lines-line_text, apply_lines-entries_text,
}
use ziliu_ime.Settings.Choices.{
  parse_boolean-boolean_text, parse_candidate_layout-candidate_layout_text,
  parse_input_mode_switch_key-input_mode_switch_key_text,
  parse_punctuation_style-punctuation_style_text, parse_page_keys-page_keys_text,
  parse_character_set-character_set_text, parse_default_input_mode-default_input_mode_text,
  parse_theme_mode-theme_mode_text, parse_candidate_page_mode-candidate_page_mode_text,
}
use ziliu_ime.Settings.ValueLaws.{
  theme_id-serialized_theme_id, parse_clamped-to_string, parse_font_family-IsFamily,
}
use ziliu_ime.Settings.Entries.{IsWritable, entries-All}

-- What is written of the settings: numbers in their range, a valid theme id, and colors of 24 bits.
unfoldable pub normalized : Settings → Settings
normalized s = record s {
  candidate_count = serialized_count s.candidate_count;
  active_theme_id = serialized_theme_id s.active_theme_id;
  preedit_color = s.preedit_color % 2 ^ 24;
  highlighted_candidate_color = s.highlighted_candidate_color % 2 ^ 24;
  candidate_text_color = s.candidate_text_color % 2 ^ 24;
  candidate_background_color = s.candidate_background_color % 2 ^ 24;
  candidate_font_size = serialized_font_size s.candidate_font_size;
}

apply_entries-entries :
    (s : Settings) → IsWritable s → apply_entries (entries s) default_settings ≡ normalized s
unfolding apply_entries apply_key apply_handlers normalized
apply_entries-entries s v = λ i. record {
  candidate_layout =
      parse_candidate_layout-candidate_layout_text s.candidate_layout
        default_settings.candidate_layout i;
  candidate_count =
      parse_clamped-to_string 3 9 (omega arith) (omega arith) s.candidate_count
        default_settings.candidate_count i;
  input_mode_switch_key =
      parse_input_mode_switch_key-input_mode_switch_key_text s.input_mode_switch_key
        default_settings.input_mode_switch_key i;
  punctuation_style =
      parse_punctuation_style-punctuation_style_text s.punctuation_style
        default_settings.punctuation_style i;
  auto_pair_punctuation =
      parse_boolean-boolean_text s.auto_pair_punctuation default_settings.auto_pair_punctuation i;
  page_key_set = parse_page_keys-page_keys_text s.page_key_set default_settings.page_key_set i;
  character_set =
      parse_character_set-character_set_text s.character_set default_settings.character_set i;
  default_input_mode =
      parse_default_input_mode-default_input_mode_text s.default_input_mode
        default_settings.default_input_mode i;
  chinese_candidates_only =
      parse_boolean-boolean_text s.chinese_candidates_only default_settings.chinese_candidates_only
        i;
  initialism_spelling =
      parse_boolean-boolean_text s.initialism_spelling default_settings.initialism_spelling i;
  spelling_correction =
      parse_boolean-boolean_text s.spelling_correction default_settings.spelling_correction i;
  correction_gn_ng =
      parse_boolean-boolean_text s.correction_gn_ng default_settings.correction_gn_ng i;
  correction_mg_ng =
      parse_boolean-boolean_text s.correction_mg_ng default_settings.correction_mg_ng i;
  correction_iou_iu =
      parse_boolean-boolean_text s.correction_iou_iu default_settings.correction_iou_iu i;
  correction_uei_ui =
      parse_boolean-boolean_text s.correction_uei_ui default_settings.correction_uei_ui i;
  correction_uen_un =
      parse_boolean-boolean_text s.correction_uen_un default_settings.correction_uen_un i;
  fuzzy_z_zh = parse_boolean-boolean_text s.fuzzy_z_zh default_settings.fuzzy_z_zh i;
  fuzzy_c_ch = parse_boolean-boolean_text s.fuzzy_c_ch default_settings.fuzzy_c_ch i;
  fuzzy_s_sh = parse_boolean-boolean_text s.fuzzy_s_sh default_settings.fuzzy_s_sh i;
  fuzzy_l_n = parse_boolean-boolean_text s.fuzzy_l_n default_settings.fuzzy_l_n i;
  fuzzy_f_h = parse_boolean-boolean_text s.fuzzy_f_h default_settings.fuzzy_f_h i;
  fuzzy_r_l = parse_boolean-boolean_text s.fuzzy_r_l default_settings.fuzzy_r_l i;
  fuzzy_an_ang = parse_boolean-boolean_text s.fuzzy_an_ang default_settings.fuzzy_an_ang i;
  fuzzy_en_eng = parse_boolean-boolean_text s.fuzzy_en_eng default_settings.fuzzy_en_eng i;
  fuzzy_in_ing = parse_boolean-boolean_text s.fuzzy_in_ing default_settings.fuzzy_in_ing i;
  fuzzy_ian_iang = parse_boolean-boolean_text s.fuzzy_ian_iang default_settings.fuzzy_ian_iang i;
  fuzzy_uan_uang = parse_boolean-boolean_text s.fuzzy_uan_uang default_settings.fuzzy_uan_uang i;
  smart_numeric_punctuation =
      parse_boolean-boolean_text s.smart_numeric_punctuation
        default_settings.smart_numeric_punctuation i;
  theme_mode = parse_theme_mode-theme_mode_text s.theme_mode default_settings.theme_mode i;
  active_theme_id =
      theme_id-serialized_theme_id s.active_theme_id default_settings.active_theme_id i;
  candidate_page_mode =
      parse_candidate_page_mode-candidate_page_mode_text s.candidate_page_mode
        default_settings.candidate_page_mode i;
  custom_candidate_colors =
      parse_boolean-boolean_text s.custom_candidate_colors default_settings.custom_candidate_colors
        i;
  preedit_color = parse_color-serialize_color s.preedit_color default_settings.preedit_color i;
  highlighted_candidate_color =
      parse_color-serialize_color s.highlighted_candidate_color
        default_settings.highlighted_candidate_color i;
  candidate_text_color =
      parse_color-serialize_color s.candidate_text_color default_settings.candidate_text_color i;
  candidate_background_color =
      parse_color-serialize_color s.candidate_background_color
        default_settings.candidate_background_color i;
  custom_candidate_fonts =
      parse_boolean-boolean_text s.custom_candidate_fonts default_settings.custom_candidate_fonts i;
  candidate_chinese_font_family =
      parse_font_family-IsFamily s.candidate_chinese_font_family
        default_settings.candidate_chinese_font_family v.candidate_chinese_font_family i;
  candidate_english_font_family =
      parse_font_family-IsFamily s.candidate_english_font_family
        default_settings.candidate_english_font_family v.candidate_english_font_family i;
  custom_candidate_font_size =
      parse_boolean-boolean_text s.custom_candidate_font_size
        default_settings.custom_candidate_font_size i;
  candidate_font_size =
      parse_clamped-to_string 14 24 (omega arith) (omega arith) s.candidate_font_size
        default_settings.candidate_font_size i;
  candidate_scale_with_text =
      parse_boolean-boolean_text s.candidate_scale_with_text
        default_settings.candidate_scale_with_text i;
  custom_theme_scale_with_windows =
      parse_boolean-boolean_text s.custom_theme_scale_with_windows
        default_settings.custom_theme_scale_with_windows i;
}

-- ParseSettings reads back what SerializeSettings writes, with the numbers clamped to their range, an
-- invalid theme id replaced by the default one, and colors cut to 24 bits. The two font families are
-- not empty, have no newline and no blanks around them, and are none of the names of older versions.
pub parse_settings-serialize_settings :
    (s : Settings) → IsWritable s → parse_settings (serialize_settings s) ≡ normalized s
unfolding parse_settings serialize_settings
parse_settings-serialize_settings s v =
    apply_lines-line_text (codes "version") (codes "7") (entries_text (entries s)) default_settings
      version_key version_value
    ∙ ap (apply_lines (lines_of (entries_text (entries s)))) version_ignored
    ∙ apply_lines-entries_text (entries s) default_settings (entries-All s v)
    ∙ apply_entries-entries s v
  where
    version_key : is_key (codes "version") ≡ true
    version_key = unfold trim_left trim_right in refl

    version_value : IsValue (codes "7")
    version_value = is_value-IsValue (codes "7") (unfold trim_left trim_right in refl)

    version_ignored : apply_key (codes "version") (codes "7") default_settings ≡ default_settings
    version_ignored = unfold apply_key apply_handlers in refl
