-- ===== src/Settings/Entries.antt =====
-- Each line that SerializeSettings writes has a key and a value that a line can hold.
use ziliu_ime.Base.{ℕ, Bool, true, ◌≡◌, List, [], ◌∷◌, ◌&&◌, refl, arith, All}
use ziliu_ime.Settings.Types.{Settings}
use ziliu_ime.Settings.Values.{trim_left, trim_right}
use ziliu_ime.Settings.Serialize.{entries}
use ziliu_ime.Settings.Lines.{IsValue, is_key, IsEntry}
use ziliu_ime.Settings.Choices.{
  boolean_text-IsValue, candidate_layout_text-IsValue, input_mode_switch_key_text-IsValue,
  punctuation_style_text-IsValue, page_keys_text-IsValue, character_set_text-IsValue,
  default_input_mode_text-IsValue, theme_mode_text-IsValue, candidate_page_mode_text-IsValue,
}
use ziliu_ime.Settings.ValueLaws.{
  serialize_color-IsValue, serialized_theme_id-IsValue, to_string-IsValue, IsFamily,
}

-- The two font families are written as they are.
pub record IsWritable (s : Settings) : Type 0 where
  pub candidate_chinese_font_family : IsFamily s.candidate_chinese_font_family
  pub candidate_english_font_family : IsFamily s.candidate_english_font_family

-- Each key is one that a line can hold, and each value.
abbrev are_keys : List (List ℕ × List ℕ) → Bool
are_keys [] = true
are_keys ((key, value) ∷ rest) = is_key key && are_keys rest

infixr 20 ◌▸◌
data AreValues : List (List ℕ × List ℕ) → Type 0 where
  end : AreValues []
  ◌▸◌ :
      {key value : List ℕ} {rest : List (List ℕ × List ℕ)}
      → IsValue value
      → AreValues rest
      → AreValues ((key, value) ∷ rest)

AreValues-IsEntry :
    (all : List (List ℕ × List ℕ)) → are_keys all ≡ true → AreValues all → All IsEntry all
AreValues-IsEntry [] keys end = tt
AreValues-IsEntry ((key, value) ∷ rest) keys (v ▸ values) =
    ((ground arith, v), AreValues-IsEntry rest (ground arith) values)

entries_keys : (s : Settings) → are_keys (entries s) ≡ true
unfolding trim_left trim_right
entries_keys s = refl

entries_values : (s : Settings) → IsWritable s → AreValues (entries s)
entries_values s v =
    candidate_layout_text-IsValue s.candidate_layout
    ▸ to_string-IsValue 3 9 (omega arith) (omega arith) s.candidate_count
    ▸ input_mode_switch_key_text-IsValue s.input_mode_switch_key
    ▸ punctuation_style_text-IsValue s.punctuation_style
    ▸ boolean_text-IsValue s.auto_pair_punctuation
    ▸ page_keys_text-IsValue s.page_key_set
    ▸ character_set_text-IsValue s.character_set
    ▸ default_input_mode_text-IsValue s.default_input_mode
    ▸ boolean_text-IsValue s.chinese_candidates_only
    ▸ boolean_text-IsValue s.initialism_spelling
    ▸ boolean_text-IsValue s.spelling_correction
    ▸ boolean_text-IsValue s.correction_gn_ng
    ▸ boolean_text-IsValue s.correction_mg_ng
    ▸ boolean_text-IsValue s.correction_iou_iu
    ▸ boolean_text-IsValue s.correction_uei_ui
    ▸ boolean_text-IsValue s.correction_uen_un
    ▸ boolean_text-IsValue s.fuzzy_z_zh
    ▸ boolean_text-IsValue s.fuzzy_c_ch
    ▸ boolean_text-IsValue s.fuzzy_s_sh
    ▸ boolean_text-IsValue s.fuzzy_l_n
    ▸ boolean_text-IsValue s.fuzzy_f_h
    ▸ boolean_text-IsValue s.fuzzy_r_l
    ▸ boolean_text-IsValue s.fuzzy_an_ang
    ▸ boolean_text-IsValue s.fuzzy_en_eng
    ▸ boolean_text-IsValue s.fuzzy_in_ing
    ▸ boolean_text-IsValue s.fuzzy_ian_iang
    ▸ boolean_text-IsValue s.fuzzy_uan_uang
    ▸ boolean_text-IsValue s.smart_numeric_punctuation
    ▸ theme_mode_text-IsValue s.theme_mode
    ▸ serialized_theme_id-IsValue s.active_theme_id
    ▸ candidate_page_mode_text-IsValue s.candidate_page_mode
    ▸ boolean_text-IsValue s.custom_candidate_colors
    ▸ serialize_color-IsValue s.preedit_color
    ▸ serialize_color-IsValue s.highlighted_candidate_color
    ▸ serialize_color-IsValue s.candidate_text_color
    ▸ serialize_color-IsValue s.candidate_background_color
    ▸ boolean_text-IsValue s.custom_candidate_fonts
    ▸ v.candidate_chinese_font_family.value
    ▸ v.candidate_english_font_family.value
    ▸ boolean_text-IsValue s.custom_candidate_font_size
    ▸ to_string-IsValue 14 24 (omega arith) (omega arith) s.candidate_font_size
    ▸ boolean_text-IsValue s.candidate_scale_with_text
    ▸ boolean_text-IsValue s.custom_theme_scale_with_windows
    ▸ end

pub entries-All : (s : Settings) → IsWritable s → All IsEntry (entries s)
entries-All s v = AreValues-IsEntry (entries s) (entries_keys s) (entries_values s v)
