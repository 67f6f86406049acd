-- ===== src/Theme/Sections.antt =====
-- ManifestReader of core/src/theme_manifest.cpp: the readers of objects inside a surface.
use ziliu_ime.Base.{
  ℕ, suc, true, false, Option, none, some, List, [], ◌∷◌, ◌++◌, ltb, if◌then◌else◌,
}
use ziliu_ime.Settings.Types.{codes}
use ziliu_ime.Settings.Values.{to_string}
use ziliu_ime.Json.Types.{JsonValue, Items, Members, array, object, no_items, item}
use ziliu_ime.Theme.Types.{
  invalid_property, ThemeInsets, ThemeImage, ThemeSeparator, ThemeButtonImages, ThemeOverlay,
  default_button_images, maximum_theme_surface_overlays,
}
use ziliu_ime.Theme.Validate.{Issues, in_order, validation_issue}
use ziliu_ime.Theme.Fields.{
  Reading, find, read_string, read_unsigned, read_optional_color, read_insets, items_length,
  read_overlay_alignment, read_image_layout,
}

-- What a reader does where a value is no object.
unfoldable pub not_object {ℓ} : {A : Type ℓ} → List ℕ → A → List ℕ → A × Issues
not_object path output message = (output, validation_issue invalid_property path message)

abbrev pub image_layouts :
    List ℕ → ThemeImage → List ℕ → ThemeInsets → Issues → Option JsonValue → Reading ThemeImage
image_layouts path output asset insets issues none = (
  record {
    asset = asset;
    stretch_insets = insets;
    horizontal_layout = output.horizontal_layout;
    vertical_layout = output.vertical_layout;
  },
  issues,
)
image_layouts path output asset insets issues (some (object layout)) =
    let (horizontal, i1) =
      read_image_layout layout (codes "horizontal") (path ++ codes ".layout.horizontal")
        output.horizontal_layout in
    let (vertical, i2) =
      read_image_layout layout (codes "vertical") (path ++ codes ".layout.vertical")
        output.vertical_layout in
    (
      record {
        asset = asset;
        stretch_insets = insets;
        horizontal_layout = horizontal;
        vertical_layout = vertical;
      },
      in_order (issues ∷ i1 ∷ i2 ∷ []),
    )
image_layouts path output asset insets issues (some _) = (
  record {
    asset = asset;
    stretch_insets = insets;
    horizontal_layout = output.horizontal_layout;
    vertical_layout = output.vertical_layout;
  },
  in_order (
      issues
      ∷ validation_issue invalid_property (path ++ codes ".layout")
          (codes "layout must be an object")
      ∷ []),
)

unfoldable pub read_image : JsonValue → List ℕ → ThemeImage → Reading ThemeImage
read_image (object fields) path output =
    let (asset, i1) =
      read_string fields (codes "asset") (path ++ codes ".asset") true output.asset in
    let (insets, i2) =
      read_insets fields (codes "stretch") (path ++ codes ".stretch") output.stretch_insets in
    image_layouts path output asset insets (i1 ++ i2) (find (codes "layout") fields)
read_image _ path output = not_object path output (codes "image must be an object")

unfoldable pub read_separator : JsonValue → List ℕ → ThemeSeparator → Reading ThemeSeparator
read_separator (object fields) path output =
    let (color, i1) =
      read_optional_color fields (codes "color") (path ++ codes ".color") output.color in
    let (asset, i2) =
      read_string fields (codes "asset") (path ++ codes ".asset") false output.asset in
    let (left, i3) =
      read_unsigned fields (codes "left") (path ++ codes ".left") false output.left in
    let (right, i4) =
      read_unsigned fields (codes "right") (path ++ codes ".right") false output.right in
    let (thickness, i5) =
      read_unsigned fields (codes "thickness") (path ++ codes ".thickness") false
        output.thickness in
    (
      record { color = color; asset = asset; left = left; right = right; thickness = thickness },
      in_order (i1 ∷ i2 ∷ i3 ∷ i4 ∷ i5 ∷ []),
    )
read_separator _ path output = not_object path output (codes "separator must be an object")

unfoldable pub read_overlay : JsonValue → List ℕ → ThemeOverlay → Reading ThemeOverlay
read_overlay (object fields) path output =
    let (asset, i1) =
      read_string fields (codes "asset") (path ++ codes ".asset") true output.asset in
    let (custom_index, i2) =
      read_unsigned fields (codes "custom_index") (path ++ codes ".custom_index") true
        output.custom_index in
    let (draw_order, i3) =
      read_unsigned fields (codes "draw_order") (path ++ codes ".draw_order") true
        output.draw_order in
    let (align, i4) =
      read_overlay_alignment fields (codes "align") (path ++ codes ".align") output.align in
    (
      record { asset = asset; custom_index = custom_index; draw_order = draw_order; align = align },
      in_order (i1 ∷ i2 ∷ i3 ∷ i4 ∷ []),
    )
read_overlay _ path output = not_object path output (codes "overlay must be an object")

unfoldable pub read_button : JsonValue → List ℕ → ThemeButtonImages → Reading ThemeButtonImages
read_button (object fields) path output =
    let (normal, i1) =
      read_string fields (codes "normal") (path ++ codes ".normal") true output.normal in
    let (hover, i2) =
      read_string fields (codes "hover") (path ++ codes ".hover") false output.hover in
    let (pressed, i3) =
      read_string fields (codes "pressed") (path ++ codes ".pressed") false output.pressed in
    (record { normal = normal; hover = hover; pressed = pressed }, in_order (i1 ∷ i2 ∷ i3 ∷ []))
read_button _ path output = not_object path output (codes "button must be an object")

-- A part that is read into a default of its own, if its property is there.
abbrev pub fresh_part {ℓ} : {A : Type ℓ} → A × Issues → Option A × Issues
fresh_part (value, issues) = (some value, issues)

abbrev pub read_part {ℓ} :
    {A : Type ℓ} → (JsonValue → A × Issues) → Option A → Option JsonValue → Option A × Issues
read_part read output none = (output, [])
read_part read output (some value) = fresh_part (read value)

unfoldable pub read_optional_button :
    Members → List ℕ → List ℕ → Option ThemeButtonImages → Reading (Option ThemeButtonImages)
read_optional_button buttons key path output =
    read_part (λ value. read_button value (path ++ codes "." ++ key) default_button_images) output
      (find key buttons)

-- A ThemeOverlay as it is before it is read.
abbrev pub default_overlay : ThemeOverlay
default_overlay = record {
  asset = [];
  custom_index = 0;
  draw_order = 0;
  align = 0 ∷ 0 ∷ 0 ∷ 0 ∷ 0 ∷ 0 ∷ 0 ∷ 0 ∷ 0 ∷ 0 ∷ [];
}

abbrev pub then_overlay :
    Reading ThemeOverlay → Reading (List ThemeOverlay) → Reading (List ThemeOverlay)
then_overlay (overlay, issues) (overlays, more) = (overlay ∷ overlays, issues ++ more)

-- The loop over the overlays, from the index of the first.
unfoldable pub read_overlays : ℕ → Items → List ℕ → Reading (List ThemeOverlay)
read_overlays index no_items path = ([], [])
read_overlays index (item value rest) path =
    then_overlay
      (read_overlay value (path ++ codes ".overlays[" ++ to_string index ++ codes "]")
        default_overlay)
      (read_overlays (suc index) rest path)

-- The overlays follow those that the output has.
abbrev pub after_overlays :
    List ThemeOverlay → Reading (List ThemeOverlay) → Reading (List ThemeOverlay)
after_overlays output (overlays, issues) = (output ++ overlays, issues)

abbrev pub overlays_property :
    List ℕ → List ThemeOverlay → Option JsonValue → Reading (List ThemeOverlay)
overlays_property path output none = (output, [])
overlays_property path output (some (array items)) =
    if ltb maximum_theme_surface_overlays (items_length items)
    then (
      output,
      validation_issue invalid_property (path ++ codes ".overlays")
          (codes "a surface may contain at most 128 overlays"),
    )
    else after_overlays output (read_overlays 0 items path)
overlays_property path output (some _) = (
  output,
  validation_issue invalid_property (path ++ codes ".overlays") (codes "overlays must be an array"),
)
