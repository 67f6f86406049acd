-- ===== src/Theme/Serialize.antt =====
-- SerializeThemeManifest of core/src/theme_manifest.cpp and the functions that write the parts.
use ziliu_ime.Base.{ℕ, Bool, true, false, ◌&&◌, Option, none, some, List, [], ◌∷◌}
use ziliu_ime.Settings.Types.{codes}
use ziliu_ime.Settings.Values.{is_empty}
use ziliu_ime.Theme.Types.{
  ThemeImageLayout, stretch, tile, fixed, ThemeImage, ThemeSeparator, ThemeButtonImages,
  ThemeOverlay, ThemeSurface, ThemeAppearance, ThemeManifest,
}
use ziliu_ime.Theme.Colors.{serialize_argb}
use ziliu_ime.Theme.Writer.{
  Action, new_writer, in_turn, begin_document, end_object, end_array, finish_document,
  string_property, unsigned_property, insets_property, overlay_alignment_property,
  begin_object_property, begin_array_property, begin_object_element,
}

unfoldable pub serialize_image_layout : ThemeImageLayout → List ℕ
serialize_image_layout stretch = codes "stretch"
serialize_image_layout tile = codes "tile"
serialize_image_layout fixed = codes "fixed"

abbrev pub unless : Bool → Action → Action
unless true action writer = writer
unless false action writer = action writer

-- if (value.has_value()) { ... }
abbrev pub if_present {ℓ} : {A : Type ℓ} → Option A → (A → Action) → Action
if_present none action writer = writer
if_present (some a) action writer = action a writer

abbrev pub optional_text : List ℕ → List ℕ → Action
optional_text key text = unless (is_empty text) (string_property key text)

unfoldable pub write_button : List ℕ → ThemeButtonImages → Action
write_button key button = in_turn (
    begin_object_property key
    ∷ string_property (codes "normal") button.normal
    ∷ optional_text (codes "hover") button.hover
    ∷ optional_text (codes "pressed") button.pressed
    ∷ end_object
    ∷ [])

unfoldable pub write_overlay : ThemeOverlay → Action
write_overlay overlay = in_turn (
    begin_object_element
    ∷ string_property (codes "asset") overlay.asset
    ∷ unsigned_property (codes "custom_index") overlay.custom_index
    ∷ unsigned_property (codes "draw_order") overlay.draw_order
    ∷ overlay_alignment_property (codes "align") overlay.align
    ∷ end_object
    ∷ [])

abbrev pub overlay_actions : List ThemeOverlay → List Action
overlay_actions [] = []
overlay_actions (overlay ∷ overlays) = write_overlay overlay ∷ overlay_actions overlays

abbrev pub overlays_action : List ThemeOverlay → Action
overlays_action [] writer = writer
overlays_action (overlay ∷ overlays) writer =
    in_turn
      (begin_array_property (codes "overlays")
        ∷ in_turn (overlay_actions (overlay ∷ overlays))
        ∷ end_array
        ∷ [])
      writer

abbrev pub write_image : ThemeImage → Action
write_image image = in_turn (
    begin_object_property (codes "background")
    ∷ string_property (codes "asset") image.asset
    ∷ begin_object_property (codes "layout")
    ∷ string_property (codes "horizontal") (serialize_image_layout image.horizontal_layout)
    ∷ string_property (codes "vertical") (serialize_image_layout image.vertical_layout)
    ∷ end_object
    ∷ insets_property (codes "stretch") image.stretch_insets
    ∷ end_object
    ∷ [])

abbrev pub write_separator : ThemeSeparator → Action
write_separator separator = in_turn (
    begin_object_property (codes "separator")
    ∷ if_present separator.color (λ color. string_property (codes "color") (serialize_argb color))
    ∷ optional_text (codes "asset") separator.asset
    ∷ unsigned_property (codes "left") separator.left
    ∷ unsigned_property (codes "right") separator.right
    ∷ unsigned_property (codes "thickness") separator.thickness
    ∷ end_object
    ∷ [])

abbrev pub is_absent {ℓ} : {A : Type ℓ} → Option A → Bool
is_absent none = true
is_absent (some a) = false

abbrev pub has_no_buttons : ThemeSurface → Bool
has_no_buttons surface =
    is_absent surface.previous_button
    && is_absent surface.next_button
    && is_absent surface.expand_button
    && is_absent surface.collapse_button
    && is_absent surface.menu_button

abbrev pub write_content : ThemeSurface → Action
write_content surface = in_turn (
    begin_object_property (codes "content")
    ∷ if_present surface.preedit_insets (insets_property (codes "preedit"))
    ∷ if_present surface.candidate_insets (insets_property (codes "candidates"))
    ∷ end_object
    ∷ [])

abbrev pub write_buttons : ThemeSurface → Action
write_buttons surface = in_turn (
    begin_object_property (codes "buttons")
    ∷ if_present surface.previous_button (write_button (codes "previous"))
    ∷ if_present surface.next_button (write_button (codes "next"))
    ∷ if_present surface.expand_button (write_button (codes "expand"))
    ∷ if_present surface.collapse_button (write_button (codes "collapse"))
    ∷ if_present surface.menu_button (write_button (codes "menu"))
    ∷ end_object
    ∷ [])

unfoldable pub write_surface : List ℕ → ThemeSurface → Action
write_surface key surface = in_turn (
    begin_object_property key
    ∷ if_present surface.background write_image
    ∷ overlays_action surface.overlays
    ∷ unless (is_absent surface.preedit_insets && is_absent surface.candidate_insets)
        (write_content surface)
    ∷ if_present surface.separator write_separator
    ∷ unless (has_no_buttons surface) (write_buttons surface)
    ∷ end_object
    ∷ [])

abbrev pub has_no_overlays : List ThemeOverlay → Bool
has_no_overlays [] = true
has_no_overlays (overlay ∷ overlays) = false

-- surface == ThemeSurface{}
unfoldable pub is_empty_surface : ThemeSurface → Bool
is_empty_surface surface =
    is_absent surface.background
    && has_no_overlays surface.overlays
    && is_absent surface.preedit_insets
    && is_absent surface.candidate_insets
    && is_absent surface.separator
    && has_no_buttons surface

abbrev pub write_palette : ThemeAppearance → Action
write_palette appearance =
    let color : List ℕ → ℕ → Action = λ key argb. string_property key (serialize_argb argb) in
    in_turn (
      begin_object_property (codes "palette")
      ∷ color (codes "preedit_text") appearance.palette.preedit_text
      ∷ color (codes "candidate_text") appearance.palette.candidate_text
      ∷ color (codes "highlighted_candidate_text") appearance.palette.highlighted_candidate_text
      ∷ color (codes "background") appearance.palette.background
      ∷ color (codes "highlighted_background") appearance.palette.highlighted_background
      ∷ color (codes "muted_text") appearance.palette.muted_text
      ∷ color (codes "separator") appearance.palette.separator
      ∷ end_object
      ∷ [])

abbrev pub write_typography : ThemeAppearance → Action
write_typography appearance = in_turn (
    begin_object_property (codes "typography")
    ∷ string_property (codes "chinese_font_family") appearance.typography.chinese_font_family
    ∷ string_property (codes "english_font_family") appearance.typography.english_font_family
    ∷ unsigned_property (codes "font_size") appearance.typography.font_size
    ∷ if_present appearance.typography.sogou_use_gdip (unsigned_property (codes "sogou_use_gdip"))
    ∷ end_object
    ∷ [])

abbrev pub write_surfaces : ThemeAppearance → Action
write_surfaces appearance = in_turn (
    begin_object_property (codes "surfaces")
    ∷ unless (is_empty_surface appearance.horizontal)
        (write_surface (codes "horizontal") appearance.horizontal)
    ∷ unless (is_empty_surface appearance.vertical)
        (write_surface (codes "vertical") appearance.vertical)
    ∷ end_object
    ∷ [])

unfoldable pub write_appearance : List ℕ → ThemeAppearance → Action
write_appearance key appearance = in_turn (
    begin_object_property key
    ∷ write_palette appearance
    ∷ write_typography appearance
    ∷ unless (is_empty_surface appearance.horizontal && is_empty_surface appearance.vertical)
        (write_surfaces appearance)
    ∷ end_object
    ∷ [])

unfoldable pub serialize_theme_manifest : ThemeManifest → List ℕ
serialize_theme_manifest manifest = finish_document (
    in_turn
      (begin_document
        ∷ unsigned_property (codes "format_version") manifest.format_version
        ∷ string_property (codes "id") manifest.id
        ∷ string_property (codes "name") manifest.name
        ∷ string_property (codes "author") manifest.author
        ∷ string_property (codes "version") manifest.version
        ∷ string_property (codes "license") manifest.license
        ∷ optional_text (codes "description") manifest.description
        ∷ optional_text (codes "homepage") manifest.homepage
        ∷ optional_text (codes "preview") manifest.preview_asset
        ∷ string_property (codes "source_format") manifest.source_format
        ∷ unsigned_property (codes "base_dpi") manifest.base_dpi
        ∷ begin_object_property (codes "appearances")
        ∷ write_appearance (codes "light") manifest.light
        ∷ if_present manifest.dark (write_appearance (codes "dark"))
        ∷ end_object
        ∷ [])
      new_writer)
