-- ===== src/Examples/Texts.antt =====
-- The settings as text: the default ones, and lines of a user.
use ziliu_ime.Base.{◌≡◌, refl}
use ziliu_ime.Settings.Types.{default_settings}
use ziliu_ime.Settings.Values.{trim_left, trim_right}
use ziliu_ime.Settings.Parse.{parse_settings}
use ziliu_ime.Settings.Serialize.{serialize_settings}
use ziliu_ime.Settings.Lines.{is_value-IsValue}
use ziliu_ime.Settings.ValueLaws.{IsFamily}
use ziliu_ime.Settings.Entries.{IsWritable}
use ziliu_ime.Settings.RoundTrip.{normalized, parse_settings-serialize_settings}

chinese-IsFamily : IsFamily default_settings.candidate_chinese_font_family
unfolding trim_left trim_right
chinese-IsFamily = record { value = is_value-IsValue _ refl; plain = refl }

english-IsFamily : IsFamily default_settings.candidate_english_font_family
unfolding trim_left trim_right
english-IsFamily = record { value = is_value-IsValue _ refl; plain = refl }

default_settings-IsWritable : IsWritable default_settings
default_settings-IsWritable = record {
  candidate_chinese_font_family = chinese-IsFamily;
  candidate_english_font_family = english-IsFamily;
}

parse_settings-serialize_settings_example :
    parse_settings (serialize_settings default_settings) ≡ normalized default_settings
parse_settings-serialize_settings_example =
    parse_settings-serialize_settings default_settings default_settings-IsWritable
