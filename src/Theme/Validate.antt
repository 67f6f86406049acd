-- ===== src/Theme/Validate.antt =====
-- ValidateThemeManifest of core/src/theme_manifest.cpp and the functions that it calls. Each is the
-- list of the issues that it appends, in order.
use ziliu_ime.Base.{
  ℕ, suc, Bool, true, false, not, ◌&&◌, ◌||◌, Option, none, some, List, [], ◌∷◌, ◌++◌, ltb, ◌==◌,
  if◌then◌else◌, length,
}
use ziliu_ime.Settings.Types.{codes}
use ziliu_ime.Settings.Values.{is_empty, to_string}
use ziliu_ime.Json.Utf.{is_valid_utf8}
use ziliu_ime.Theme.Types.{
  ThemeImageLayout, stretch, tile, fixed, ThemeManifestIssueCode, unsupported_version,
  invalid_property, unsafe_asset_path, ThemeManifestIssue, ThemeInsets, ThemeImage, ThemeSeparator,
  ThemeButtonImages, ThemeOverlay, ThemeSurface, ThemeAppearance, ThemeManifest,
  theme_manifest_version, maximum_theme_surface_overlays,
}
use ziliu_ime.Theme.Paths.{
  has_control_characters, is_valid_manifest_id, has_supported_image_extension,
  is_safe_theme_asset_path,
}

abbrev pub maximum_inset : ℕ
maximum_inset = 4096

abbrev pub minimum_theme_font_size : ℕ
minimum_theme_font_size = 8

abbrev pub maximum_theme_font_size : ℕ
maximum_theme_font_size = 96

abbrev pub minimum_base_dpi : ℕ
minimum_base_dpi = 72

abbrev pub maximum_base_dpi : ℕ
maximum_base_dpi = 384

abbrev pub Issues : Type 0
Issues = List ThemeManifestIssue

-- AddValidationIssue.
unfoldable pub validation_issue : ThemeManifestIssueCode → List ℕ → List ℕ → Issues
validation_issue code path message =
    record { code = code; offset = 0; path = path; message = message } ∷ []

-- The issues of several calls, one after the other.
unfoldable pub in_order : List Issues → Issues
in_order [] = []
in_order (issues ∷ rest) = issues ++ in_order rest

unfoldable pub issue_if : Bool → ThemeManifestIssueCode → List ℕ → List ℕ → Issues
issue_if true code path message = validation_issue code path message
issue_if false code path message = []

unfoldable pub validate_text : List ℕ → List ℕ → ℕ → Bool → Issues
validate_text value path maximum_length required =
    if required && is_empty value
    then validation_issue invalid_property path (codes "value must not be empty")
    else if ltb maximum_length (length value)
    then validation_issue invalid_property path (codes "value is too long")
    else issue_if (not (is_valid_utf8 value) || has_control_characters value) invalid_property path
        (codes "value must be valid UTF-8 without control characters")

unfoldable pub validate_asset : List ℕ → List ℕ → Bool → Issues
validate_asset asset path required =
    if is_empty asset
    then issue_if required unsafe_asset_path path (codes "asset path must not be empty")
    else if not (is_safe_theme_asset_path asset)
    then validation_issue unsafe_asset_path path
        (codes "asset path must be a safe relative POSIX path")
    else issue_if (not (has_supported_image_extension asset)) invalid_property path
        (codes "theme images must use PNG or APNG")

unfoldable pub validate_insets : ThemeInsets → List ℕ → Issues
validate_insets insets path =
    issue_if
      (ltb maximum_inset insets.left
        || ltb maximum_inset insets.top
        || ltb maximum_inset insets.right
        || ltb maximum_inset insets.bottom)
      invalid_property path (codes "each inset must be at most 4096")

unfoldable pub validate_button : ThemeButtonImages → List ℕ → Issues
validate_button button path = in_order (
    validate_asset button.normal (path ++ codes ".normal") true
    ∷ validate_asset button.hover (path ++ codes ".hover") false
    ∷ validate_asset button.pressed (path ++ codes ".pressed") false
    ∷ [])

unfoldable pub validate_separator : ThemeSeparator → List ℕ → Issues
validate_separator separator path = in_order (
    validate_asset separator.asset (path ++ codes ".asset") false
    ∷ issue_if (ltb maximum_inset separator.left || ltb maximum_inset separator.right)
        invalid_property path (codes "separator left and right margins must be at most 4096")
    ∷ issue_if (separator.thickness == 0 || ltb maximum_inset separator.thickness) invalid_property
        (path ++ codes ".thickness") (codes "separator thickness must be between 1 and 4096")
    ∷ [])

unfoldable pub validate_overlay : ThemeOverlay → List ℕ → Issues
validate_overlay overlay path = validate_asset overlay.asset (path ++ codes ".asset") true

-- The loop over the overlays, from the index of the first.
unfoldable pub validate_overlays : ℕ → List ThemeOverlay → List ℕ → Issues
validate_overlays index [] path = []
validate_overlays index (overlay ∷ overlays) path =
    validate_overlay overlay (path ++ codes ".overlays[" ++ to_string index ++ codes "]")
    ++ validate_overlays (suc index) overlays path

-- Each value of the enumeration is one that the switch accepts.
unfoldable pub validate_image_layout : ThemeImageLayout → List ℕ → Issues
validate_image_layout stretch path = []
validate_image_layout tile path = []
validate_image_layout fixed path = []

unfoldable pub validate_image : ThemeImage → List ℕ → Issues
validate_image image path = in_order (
    validate_asset image.asset (path ++ codes ".asset") true
    ∷ validate_insets image.stretch_insets (path ++ codes ".stretch")
    ∷ validate_image_layout image.horizontal_layout (path ++ codes ".layout.horizontal")
    ∷ validate_image_layout image.vertical_layout (path ++ codes ".layout.vertical")
    ∷ [])

-- if (value.has_value()) { ... }
abbrev pub when_present {ℓ} : {A : Type ℓ} → Option A → (A → Issues) → Issues
when_present none f = []
when_present (some a) f = f a

unfoldable pub validate_surface : ThemeSurface → List ℕ → Issues
validate_surface surface path = in_order (
    when_present surface.background (λ image. validate_image image (path ++ codes ".background"))
    ∷ issue_if (ltb maximum_theme_surface_overlays (length surface.overlays)) invalid_property
        (path ++ codes ".overlays") (codes "a surface may contain at most 128 overlays")
    ∷ validate_overlays 0 surface.overlays path
    ∷ when_present surface.preedit_insets
        (λ insets. validate_insets insets (path ++ codes ".content.preedit"))
    ∷ when_present surface.candidate_insets
        (λ insets. validate_insets insets (path ++ codes ".content.candidates"))
    ∷ when_present surface.separator
        (λ separator. validate_separator separator (path ++ codes ".separator"))
    ∷ when_present surface.previous_button
        (λ button. validate_button button (path ++ codes ".buttons.previous"))
    ∷ when_present surface.next_button
        (λ button. validate_button button (path ++ codes ".buttons.next"))
    ∷ when_present surface.expand_button
        (λ button. validate_button button (path ++ codes ".buttons.expand"))
    ∷ when_present surface.collapse_button
        (λ button. validate_button button (path ++ codes ".buttons.collapse"))
    ∷ when_present surface.menu_button
        (λ button. validate_button button (path ++ codes ".buttons.menu"))
    ∷ [])

abbrev pub exceeds_one : Option ℕ → Bool
exceeds_one none = false
exceeds_one (some flag) = ltb 1 flag

unfoldable pub validate_appearance : ThemeAppearance → List ℕ → Issues
validate_appearance appearance path = in_order (
    validate_text appearance.typography.chinese_font_family
      (path ++ codes ".typography.chinese_font_family") 128 true
    ∷ validate_text appearance.typography.english_font_family
        (path ++ codes ".typography.english_font_family") 128 true
    ∷ issue_if
        (ltb appearance.typography.font_size minimum_theme_font_size
          || ltb maximum_theme_font_size appearance.typography.font_size)
        invalid_property (path ++ codes ".typography.font_size")
        (codes "font size must be between 8 and 96")
    ∷ validate_surface appearance.horizontal (path ++ codes ".surfaces.horizontal")
    ∷ issue_if (exceeds_one appearance.typography.sogou_use_gdip) invalid_property
        (path ++ codes ".typography.sogou_use_gdip") (codes "SSF use_gdip must be 0 or 1")
    ∷ validate_surface appearance.vertical (path ++ codes ".surfaces.vertical")
    ∷ [])

unfoldable pub validate_theme_manifest : ThemeManifest → Issues
validate_theme_manifest manifest = in_order (
    issue_if (not (manifest.format_version == theme_manifest_version)) unsupported_version
      (codes "$.format_version") (codes "only ZLT manifest version 1 is supported")
    ∷ issue_if (not (is_valid_manifest_id manifest.id)) invalid_property (codes "$.id")
        (codes "id must use lowercase ASCII letters, digits, '.', '_' or '-'")
    ∷ validate_text manifest.name (codes "$.name") 128 true
    ∷ validate_text manifest.author (codes "$.author") 128 true
    ∷ validate_text manifest.version (codes "$.version") 64 true
    ∷ validate_text manifest.license (codes "$.license") 128 true
    ∷ validate_text manifest.description (codes "$.description") 2048 false
    ∷ validate_text manifest.homepage (codes "$.homepage") 2048 false
    ∷ validate_text manifest.source_format (codes "$.source_format") 64 true
    ∷ validate_asset manifest.preview_asset (codes "$.preview") false
    ∷ issue_if (ltb manifest.base_dpi minimum_base_dpi || ltb maximum_base_dpi manifest.base_dpi)
        invalid_property (codes "$.base_dpi") (codes "base DPI must be between 72 and 384")
    ∷ validate_appearance manifest.light (codes "$.appearances.light")
    ∷ when_present manifest.dark
        (λ appearance. validate_appearance appearance (codes "$.appearances.dark"))
    ∷ [])
