-- ===== src/Theme/Types.antt =====
-- The data of core/include/ziliu/core/theme_manifest.h. Texts are lists of bytes.
use ziliu_ime.Base.{ℕ, List, [], Option, none}
use ziliu_ime.Settings.Types.{codes}

abbrev pub theme_manifest_version : ℕ
theme_manifest_version = 1

abbrev pub maximum_theme_surface_overlays : ℕ
maximum_theme_surface_overlays = 128

pub data ThemeImageLayout : Type 0 where
  stretch tile fixed : ThemeImageLayout

pub data ThemeManifestIssueCode : Type 0 where
  invalid_json unsupported_version missing_property invalid_property : ThemeManifestIssueCode
  unsafe_asset_path manifest_too_large : ThemeManifestIssueCode

pub record ThemeInsets : Type 0 where
  pub left : ℕ
  pub top : ℕ
  pub right : ℕ
  pub bottom : ℕ

pub record ThemeImage : Type 0 where
  pub asset : List ℕ
  pub stretch_insets : ThemeInsets
  pub horizontal_layout : ThemeImageLayout
  pub vertical_layout : ThemeImageLayout

pub record ThemeSeparator : Type 0 where
  pub color : Option ℕ
  pub asset : List ℕ
  pub left : ℕ
  pub right : ℕ
  pub thickness : ℕ

pub record ThemeButtonImages : Type 0 where
  pub normal : List ℕ
  pub hover : List ℕ
  pub pressed : List ℕ

-- The ten integers of `align` are two's complement 32-bit numbers.
pub record ThemeOverlay : Type 0 where
  pub asset : List ℕ
  pub custom_index : ℕ
  pub draw_order : ℕ
  pub align : List ℕ

pub record ThemeSurface : Type 0 where
  pub background : Option ThemeImage
  pub overlays : List ThemeOverlay
  pub preedit_insets : Option ThemeInsets
  pub candidate_insets : Option ThemeInsets
  pub separator : Option ThemeSeparator
  pub previous_button : Option ThemeButtonImages
  pub next_button : Option ThemeButtonImages
  pub expand_button : Option ThemeButtonImages
  pub collapse_button : Option ThemeButtonImages
  pub menu_button : Option ThemeButtonImages

pub record ThemePalette : Type 0 where
  pub preedit_text : ℕ
  pub candidate_text : ℕ
  pub highlighted_candidate_text : ℕ
  pub background : ℕ
  pub highlighted_background : ℕ
  pub muted_text : ℕ
  pub separator : ℕ

pub record ThemeTypography : Type 0 where
  pub chinese_font_family : List ℕ
  pub english_font_family : List ℕ
  pub font_size : ℕ
  pub sogou_use_gdip : Option ℕ

pub record ThemeAppearance : Type 0 where
  pub palette : ThemePalette
  pub typography : ThemeTypography
  pub horizontal : ThemeSurface
  pub vertical : ThemeSurface

pub record ThemeManifest : Type 0 where
  pub format_version : ℕ
  pub id : List ℕ
  pub name : List ℕ
  pub author : List ℕ
  pub version : List ℕ
  pub license : List ℕ
  pub description : List ℕ
  pub homepage : List ℕ
  pub preview_asset : List ℕ
  pub source_format : List ℕ
  pub base_dpi : ℕ
  pub light : ThemeAppearance
  pub dark : Option ThemeAppearance

pub record ThemeManifestIssue : Type 0 where
  pub code : ThemeManifestIssueCode
  pub offset : ℕ
  pub path : List ℕ
  pub message : List ℕ

-- The values that the members start with.
abbrev pub default_insets : ThemeInsets
default_insets = record { left = 0; top = 0; right = 0; bottom = 0 }

abbrev pub default_image : ThemeImage
default_image = record {
  asset = [];
  stretch_insets = default_insets;
  horizontal_layout = stretch;
  vertical_layout = stretch;
}

abbrev pub default_separator : ThemeSeparator
default_separator = record { color = none; asset = []; left = 0; right = 0; thickness = 1 }

abbrev pub default_button_images : ThemeButtonImages
default_button_images = record { normal = []; hover = []; pressed = [] }

abbrev pub default_surface : ThemeSurface
default_surface = record {
  background = none;
  overlays = [];
  preedit_insets = none;
  candidate_insets = none;
  separator = none;
  previous_button = none;
  next_button = none;
  expand_button = none;
  collapse_button = none;
  menu_button = none;
}

abbrev pub default_palette : ThemePalette
default_palette = record {
  preedit_text = 0xFF202124;
  candidate_text = 0xFF202124;
  highlighted_candidate_text = 0xFF0067C0;
  background = 0xFFFAFAFA;
  highlighted_background = 0xFFE1EFFF;
  muted_text = 0xFF6B7280;
  separator = 0xFFD1D5DB;
}

abbrev pub default_typography : ThemeTypography
default_typography = record {
  chinese_font_family = codes "Source Han Sans SC";
  english_font_family = codes "Segoe UI Variable Text";
  font_size = 17;
  sogou_use_gdip = none;
}

abbrev pub default_appearance : ThemeAppearance
default_appearance = record {
  palette = default_palette;
  typography = default_typography;
  horizontal = default_surface;
  vertical = default_surface;
}

abbrev pub default_theme_manifest : ThemeManifest
default_theme_manifest = record {
  format_version = theme_manifest_version;
  id = [];
  name = [];
  author = [];
  version = [];
  license = [];
  description = [];
  homepage = [];
  preview_asset = [];
  source_format = codes "zlt";
  base_dpi = 96;
  light = default_appearance;
  dark = none;
}
