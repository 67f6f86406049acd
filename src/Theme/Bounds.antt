-- ===== src/Theme/Bounds.antt =====
-- The numbers and sizes of a manifest that ParseThemeManifest gives with no issue.
use ziliu_ime.Base.{
  ℕ, ◌≤◌, ◌≡◌, refl, Bool, true, false, Option, none, some, List, [], arith, length,
}
use ziliu_ime.Theme.Types.{
  ThemeManifestIssueCode, ThemeAppearance, ThemeManifest, ThemeSurface, ThemeInsets, ThemeSeparator,
}
use ziliu_ime.Theme.Paths.{is_valid_manifest_id}
use ziliu_ime.Theme.Validate.{
  issue_if, validation_issue, when_present, validate_surface, validate_appearance, validate_insets,
  validate_separator, validate_theme_manifest,
}
use ziliu_ime.Theme.Assets.{in_order-nil}
use ziliu_ime.Theme.Manifest.{parse_theme_manifest}
use ziliu_ime.Theme.ManifestLaws.{parse_theme_manifest-IsChecked}

abbrev pub IsPresent {ℓ} : {A : Type ℓ} → (A → Type 0) → Option A → Type 0
IsPresent P none = Unit
IsPresent P (some a) = P a

abbrev pub AreInsetsBounded : ThemeInsets → Type 0
AreInsetsBounded insets =
    (insets.left ≤ 4096) × (insets.top ≤ 4096) × (insets.right ≤ 4096) × (insets.bottom ≤ 4096)

abbrev pub IsSeparatorBounded : ThemeSeparator → Type 0
IsSeparatorBounded separator =
    (separator.left ≤ 4096)
    × (separator.right ≤ 4096)
    × (1 ≤ separator.thickness)
    × (separator.thickness ≤ 4096)

abbrev pub IsSurfaceBounded : ThemeSurface → Type 0
IsSurfaceBounded surface =
    (length surface.overlays ≤ 128)
    × IsPresent AreInsetsBounded surface.preedit_insets
    × IsPresent AreInsetsBounded surface.candidate_insets
    × IsPresent IsSeparatorBounded surface.separator

abbrev pub IsAppearanceBounded : ThemeAppearance → Type 0
IsAppearanceBounded appearance =
    (8 ≤ appearance.typography.font_size)
    × (appearance.typography.font_size ≤ 96)
    × IsSurfaceBounded appearance.horizontal
    × IsSurfaceBounded appearance.vertical

abbrev pub IsBounded : ThemeManifest → Type 0
IsBounded manifest =
    (manifest.format_version ≡ 1)
    × (is_valid_manifest_id manifest.id ≡ true)
    × (72 ≤ manifest.base_dpi)
    × (manifest.base_dpi ≤ 384)
    × IsAppearanceBounded manifest.light
    × IsPresent IsAppearanceBounded manifest.dark

not_reported :
    (b : Bool) (code : ThemeManifestIssueCode) (path message : List ℕ)
    → issue_if b code path message ≡ []
    → b ≡ false
unfolding issue_if validation_issue
not_reported true code path message h = cc
not_reported false code path message h = refl

insets_bounded :
    (insets : ThemeInsets) (path : List ℕ)
    → validate_insets insets path ≡ []
    → AreInsetsBounded insets
unfolding validate_insets
insets_bounded insets path h = let no = not_reported _ _ _ _ h in ground arith

optional_insets_bounded :
    (insets : Option ThemeInsets) (path : List ℕ)
    → when_present insets (λ i. validate_insets i path) ≡ []
    → IsPresent AreInsetsBounded insets
optional_insets_bounded none path h = tt
optional_insets_bounded (some insets) path h = insets_bounded insets path h

optional-IsSeparatorBounded :
    (separator : Option ThemeSeparator) (path : List ℕ)
    → when_present separator (λ s. validate_separator s path) ≡ []
    → IsPresent IsSeparatorBounded separator
unfolding validate_separator
optional-IsSeparatorBounded none path h = tt
optional-IsSeparatorBounded (some separator) path h =
    let (_, (margins, (thickness, _))) = in_order-nil _ h in
    let m = not_reported _ _ _ _ margins in let t = not_reported _ _ _ _ thickness in ground arith

surface_bounded :
    (surface : ThemeSurface) (path : List ℕ)
    → validate_surface surface path ≡ []
    → IsSurfaceBounded surface
unfolding validate_surface
surface_bounded surface path h =
    let (_, (overlays, (_, (preedit, (candidates, (separator, _)))))) = in_order-nil _ h in
    let few = not_reported _ _ _ _ overlays in
    (
      ground arith,
      optional_insets_bounded surface.preedit_insets _ preedit,
      optional_insets_bounded surface.candidate_insets _ candidates,
      optional-IsSeparatorBounded surface.separator _ separator,
    )

appearance_bounded :
    (appearance : ThemeAppearance) (path : List ℕ)
    → validate_appearance appearance path ≡ []
    → IsAppearanceBounded appearance
unfolding validate_appearance
appearance_bounded appearance path h =
    let (_, (_, (font, (horizontal, (_, (vertical, _)))))) = in_order-nil _ h in
    let size = not_reported _ _ _ _ font in
    (
      ground arith,
      ground arith,
      surface_bounded appearance.horizontal _ horizontal,
      surface_bounded appearance.vertical _ vertical,
    )

optional-IsAppearanceBounded :
    (appearance : Option ThemeAppearance) (path : List ℕ)
    → when_present appearance (λ a. validate_appearance a path) ≡ []
    → IsPresent IsAppearanceBounded appearance
optional-IsAppearanceBounded none path h = tt
optional-IsAppearanceBounded (some appearance) path h = appearance_bounded appearance path h

validate_theme_manifest-IsBounded :
    (manifest : ThemeManifest) → validate_theme_manifest manifest ≡ [] → IsBounded manifest
unfolding validate_theme_manifest
validate_theme_manifest-IsBounded manifest h =
    let (version, (id, (_, (_, (_, (_, (_, (_, (_, rest))))))))) = in_order-nil _ h in
    let (_, (dpi, (light, (dark, _)))) = rest in
    let one = not_reported _ _ _ _ version in
    let valid = not_reported _ _ _ _ id in
    let size = not_reported _ _ _ _ dpi in
    (
      ground arith,
      ground arith,
      ground arith,
      ground arith,
      appearance_bounded manifest.light _ light,
      optional-IsAppearanceBounded manifest.dark _ dark,
    )

-- A manifest that ParseThemeManifest gives with no issue has version 1, a valid id, a base DPI from 72 to
-- 384, font sizes from 8 to 96, at most 128 overlays in a surface, and content insets and separator sizes
-- of at most 4096, separators at least 1 thick, in both appearances.
pub parse_theme_manifest-IsBounded :
    (text : List ℕ)
    → (parse_theme_manifest text).issues ≡ []
    → IsBounded (parse_theme_manifest text).manifest
parse_theme_manifest-IsBounded text h =
    validate_theme_manifest-IsBounded (parse_theme_manifest text).manifest
      (parse_theme_manifest-IsChecked text h)
