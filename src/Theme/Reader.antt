-- ===== src/Theme/Reader.antt =====
-- ManifestReader::Read of core/src/theme_manifest.cpp and the readers of surfaces and appearances.
use ziliu_ime.Base.{ℕ, true, Option, none, some, List, [], ◌∷◌, ◌++◌}
use ziliu_ime.Settings.Types.{codes}
use ziliu_ime.Json.Types.{JsonValue, Members, object}
use ziliu_ime.Theme.Types.{
  ThemeInsets, ThemeButtonImages, ThemeSurface, ThemePalette, ThemeTypography, ThemeAppearance,
  default_image, default_separator,
}
use ziliu_ime.Theme.Validate.{Issues, in_order}
use ziliu_ime.Theme.Fields.{
  Reading, find, missing, read_string, read_unsigned, read_color, read_optional_insets,
}
use ziliu_ime.Theme.Sections.{
  not_object, read_image, read_separator, read_part, read_optional_button, overlays_property,
}

-- The two insets under `content`.
abbrev pub content_property :
    List ℕ
    → Option ThemeInsets × Option ThemeInsets
    → Option JsonValue
    → Reading (Option ThemeInsets × Option ThemeInsets)
content_property path output none = (output, [])
content_property path (preedit, candidates) (some (object content)) =
    let (new_preedit, i1) =
      read_optional_insets content (codes "preedit") (path ++ codes ".content.preedit") preedit in
    let (new_candidates, i2) =
      read_optional_insets content (codes "candidates") (path ++ codes ".content.candidates")
        candidates in
    ((new_preedit, new_candidates), in_order (i1 ∷ i2 ∷ []))
content_property path output (some _) =
    not_object (path ++ codes ".content") output (codes "content must be an object")

-- The five buttons under `buttons`.
pub record Buttons : Type 0 where
  pub previous : Option ThemeButtonImages
  pub next : Option ThemeButtonImages
  pub expand : Option ThemeButtonImages
  pub collapse : Option ThemeButtonImages
  pub menu : Option ThemeButtonImages

abbrev pub buttons_property : List ℕ → Buttons → Option JsonValue → Reading Buttons
buttons_property path output none = (output, [])
buttons_property path output (some (object buttons)) =
    let at = path ++ codes ".buttons" in
    let (previous, i1) = read_optional_button buttons (codes "previous") at output.previous in
    let (next, i2) = read_optional_button buttons (codes "next") at output.next in
    let (expand, i3) = read_optional_button buttons (codes "expand") at output.expand in
    let (collapse, i4) = read_optional_button buttons (codes "collapse") at output.collapse in
    let (menu, i5) = read_optional_button buttons (codes "menu") at output.menu in
    (
      record {
        previous = previous;
        next = next;
        expand = expand;
        collapse = collapse;
        menu = menu;
      },
      in_order (i1 ∷ i2 ∷ i3 ∷ i4 ∷ i5 ∷ []),
    )
buttons_property path output (some _) =
    not_object (path ++ codes ".buttons") output (codes "buttons must be an object")

abbrev pub buttons_of : ThemeSurface → Buttons
buttons_of surface = record {
  previous = surface.previous_button;
  next = surface.next_button;
  expand = surface.expand_button;
  collapse = surface.collapse_button;
  menu = surface.menu_button;
}

unfoldable pub read_surface : JsonValue → List ℕ → ThemeSurface → Reading ThemeSurface
read_surface (object fields) path output =
    let (background, i1) =
      read_part (λ value. read_image value (path ++ codes ".background") default_image)
        output.background (find (codes "background") fields) in
    let (overlays, i2) = overlays_property path output.overlays (find (codes "overlays") fields) in
    let ((preedit, candidates), i3) =
      content_property path (output.preedit_insets, output.candidate_insets)
        (find (codes "content") fields) in
    let (separator, i4) =
      read_part (λ value. read_separator value (path ++ codes ".separator") default_separator)
        output.separator (find (codes "separator") fields) in
    let (buttons, i5) = buttons_property path (buttons_of output) (find (codes "buttons") fields) in
    (
      record {
        background = background;
        overlays = overlays;
        preedit_insets = preedit;
        candidate_insets = candidates;
        separator = separator;
        previous_button = buttons.previous;
        next_button = buttons.next;
        expand_button = buttons.expand;
        collapse_button = buttons.collapse;
        menu_button = buttons.menu;
      },
      in_order (i1 ∷ i2 ∷ i3 ∷ i4 ∷ i5 ∷ []),
    )
read_surface _ path output = not_object path output (codes "surface must be an object")

unfoldable pub read_palette : JsonValue → List ℕ → ThemePalette → Reading ThemePalette
read_palette (object fields) path output =
    let (preedit, i1) =
      read_color fields (codes "preedit_text") (path ++ codes ".preedit_text")
        output.preedit_text in
    let (candidate, i2) =
      read_color fields (codes "candidate_text") (path ++ codes ".candidate_text")
        output.candidate_text in
    let (highlighted, i3) =
      read_color fields (codes "highlighted_candidate_text")
        (path ++ codes ".highlighted_candidate_text") output.highlighted_candidate_text in
    let (background, i4) =
      read_color fields (codes "background") (path ++ codes ".background") output.background in
    let (highlight, i5) =
      read_color fields (codes "highlighted_background") (path ++ codes ".highlighted_background")
        output.highlighted_background in
    let (muted, i6) =
      read_color fields (codes "muted_text") (path ++ codes ".muted_text") output.muted_text in
    let (separator, i7) =
      read_color fields (codes "separator") (path ++ codes ".separator") output.separator in
    (
      record {
        preedit_text = preedit;
        candidate_text = candidate;
        highlighted_candidate_text = highlighted;
        background = background;
        highlighted_background = highlight;
        muted_text = muted;
        separator = separator;
      },
      in_order (i1 ∷ i2 ∷ i3 ∷ i4 ∷ i5 ∷ i6 ∷ i7 ∷ []),
    )
read_palette _ path output = not_object path output (codes "palette must be an object")

-- The flag is kept even where it is refused: it is 0 then.
abbrev pub flag_property : Members → List ℕ → Option ℕ → Option JsonValue → Reading (Option ℕ)
flag_property fields path output none = (output, [])
flag_property fields path output (some value) =
    let (flag, issues) = read_unsigned fields (codes "sogou_use_gdip") path true 0 in
    (some flag, issues)

unfoldable pub read_typography : JsonValue → List ℕ → ThemeTypography → Reading ThemeTypography
read_typography (object fields) path output =
    let (chinese, i1) =
      read_string fields (codes "chinese_font_family") (path ++ codes ".chinese_font_family") true
        output.chinese_font_family in
    let (english, i2) =
      read_string fields (codes "english_font_family") (path ++ codes ".english_font_family") true
        output.english_font_family in
    let (size, i3) =
      read_unsigned fields (codes "font_size") (path ++ codes ".font_size") true output.font_size in
    let (flag, i4) =
      flag_property fields (path ++ codes ".sogou_use_gdip") output.sogou_use_gdip
        (find (codes "sogou_use_gdip") fields) in
    (
      record {
        chinese_font_family = chinese;
        english_font_family = english;
        font_size = size;
        sogou_use_gdip = flag;
      },
      in_order (i1 ∷ i2 ∷ i3 ∷ i4 ∷ []),
    )
read_typography _ path output = not_object path output (codes "typography must be an object")

-- A property that must be there.
abbrev pub required_part {ℓ} :
    {A : Type ℓ} → (JsonValue → A × Issues) → List ℕ → A → Option JsonValue → A × Issues
required_part read path output none = (output, missing true path)
required_part read path output (some value) = read value

abbrev pub optional_part {ℓ} :
    {A : Type ℓ} → (JsonValue → A × Issues) → A → Option JsonValue → A × Issues
optional_part read output none = (output, [])
optional_part read output (some value) = read value

abbrev pub surfaces_property :
    List ℕ → ThemeSurface × ThemeSurface → Option JsonValue → Reading (ThemeSurface × ThemeSurface)
surfaces_property path output none = (output, [])
surfaces_property path (horizontal, vertical) (some (object surfaces)) =
    let (new_horizontal, i1) =
      optional_part (λ value. read_surface value (path ++ codes ".surfaces.horizontal") horizontal)
        horizontal (find (codes "horizontal") surfaces) in
    let (new_vertical, i2) =
      optional_part (λ value. read_surface value (path ++ codes ".surfaces.vertical") vertical)
        vertical (find (codes "vertical") surfaces) in
    ((new_horizontal, new_vertical), in_order (i1 ∷ i2 ∷ []))
surfaces_property path output (some _) =
    not_object (path ++ codes ".surfaces") output (codes "surfaces must be an object")

unfoldable pub read_appearance : JsonValue → List ℕ → ThemeAppearance → Reading ThemeAppearance
read_appearance (object fields) path output =
    let (palette, i1) =
      required_part (λ value. read_palette value (path ++ codes ".palette") output.palette)
        (path ++ codes ".palette") output.palette (find (codes "palette") fields) in
    let (typography, i2) =
      required_part (λ value. read_typography value (path ++ codes ".typography") output.typography)
        (path ++ codes ".typography") output.typography (find (codes "typography") fields) in
    let ((horizontal, vertical), i3) =
      surfaces_property path (output.horizontal, output.vertical)
        (find (codes "surfaces") fields) in
    (
      record {
        palette = palette;
        typography = typography;
        horizontal = horizontal;
        vertical = vertical;
      },
      in_order (i1 ∷ i2 ∷ i3 ∷ []),
    )
read_appearance _ path output = not_object path output (codes "appearance must be an object")
