-- ===== src/Theme/Assets.antt =====
-- What ValidateThemeManifest promises of the assets that a manifest names.
use ziliu_ime.Base.{
  ℕ, suc, ◌≡◌, refl, ◌⊎◌, inl, inr, Bool, true, false, Option, none, some, List, [], ◌∷◌, ◌++◌,
  arith, All, All-append,
}
use ziliu_ime.Theme.Types.{
  ThemeImage, ThemeSeparator, ThemeButtonImages, ThemeOverlay, ThemeSurface, ThemeAppearance,
  ThemeManifest,
}
use ziliu_ime.Theme.Paths.{is_safe_theme_asset_path, has_supported_image_extension}
use ziliu_ime.Theme.Destination.{components, destination, below}
use ziliu_ime.Theme.PathLaws.{destination-is_safe_theme_asset_path}
use ziliu_ime.Theme.ImageNames.{IsImageName, has_supported_image_extension-IsImageName}
use ziliu_ime.Theme.Validate.{
  Issues, in_order, validation_issue, issue_if, validate_asset, validate_button, validate_separator,
  validate_overlay, validate_overlays, validate_image, when_present, validate_surface,
  validate_appearance, validate_theme_manifest,
}

-- The assets of a manifest.
abbrev pub present {ℓ} : {A : Type ℓ} → Option A → (A → List (List ℕ)) → List (List ℕ)
present none f = []
present (some a) f = f a

abbrev pub button_assets : ThemeButtonImages → List (List ℕ)
button_assets button = button.normal ∷ button.hover ∷ button.pressed ∷ []

abbrev pub overlay_assets : List ThemeOverlay → List (List ℕ)
overlay_assets [] = []
overlay_assets (overlay ∷ overlays) = overlay.asset ∷ overlay_assets overlays

-- The lists one after the other.
unfoldable pub together : List (List (List ℕ)) → List (List ℕ)
together [] = []
together (names ∷ rest) = names ++ together rest

abbrev pub surface_assets : ThemeSurface → List (List ℕ)
surface_assets surface = together (
    present surface.background (λ image. image.asset ∷ [])
    ∷ overlay_assets surface.overlays
    ∷ present surface.separator (λ separator. separator.asset ∷ [])
    ∷ present surface.previous_button button_assets
    ∷ present surface.next_button button_assets
    ∷ present surface.expand_button button_assets
    ∷ present surface.collapse_button button_assets
    ∷ present surface.menu_button button_assets
    ∷ [])

abbrev pub appearance_assets : ThemeAppearance → List (List ℕ)
appearance_assets appearance =
    together (surface_assets appearance.horizontal ∷ surface_assets appearance.vertical ∷ [])

abbrev pub assets : ThemeManifest → List (List ℕ)
assets manifest = together (
    (manifest.preview_asset ∷ [])
    ∷ appearance_assets manifest.light
    ∷ present manifest.dark appearance_assets
    ∷ [])

-- No asset, or a PNG or APNG image that lies, on Windows, below the directory of the theme.
abbrev pub IsInside : List (List ℕ) → List ℕ → Type 0
IsInside directory asset =
    (asset ≡ [])
    ⊎ (IsImageName asset
        × (destination directory asset ≡ some (below directory (components asset))))

left_nil : (xs ys : Issues) → xs ++ ys ≡ [] → xs ≡ []
left_nil [] ys h = refl
left_nil (x ∷ xs) ys h = cc

right_nil : (xs ys : Issues) → xs ++ ys ≡ [] → ys ≡ []
right_nil [] ys h = h
right_nil (x ∷ xs) ys h = cc

both_nil : (xs ys : Issues) → xs ++ ys ≡ [] → (xs ≡ []) × (ys ≡ [])
both_nil xs ys h = (left_nil xs ys h, right_nil xs ys h)

pub in_order-nil : (all : List Issues) → in_order all ≡ [] → All (λ issues. issues ≡ []) all
unfolding in_order
in_order-nil [] h = tt
in_order-nil (issues ∷ rest) h =
    let (first, more) = both_nil issues (in_order rest) h in (first, in_order-nil rest more)

safe_asset :
    (asset path : List ℕ) (required : Bool)
    → validate_asset asset path required ≡ []
    → (asset ≡ [])
      ⊎ ((has_supported_image_extension asset ≡ true) × (is_safe_theme_asset_path asset ≡ true))
unfolding validate_asset validation_issue issue_if
safe_asset [] path required h = inl refl
safe_asset (c ∷ cs) path required h = inr (ground arith, ground arith)

module _ (directory : List (List ℕ)) where
  asset-IsInside :
      (asset path : List ℕ) (required : Bool)
      → validate_asset asset path required ≡ []
      → IsInside directory asset
  asset-IsInside asset path required h = elim (safe_asset asset path required h) [
    | inl e ↦ inl e
    | inr (image, safe) ↦ inr (
      has_supported_image_extension-IsImageName asset image,
      destination-is_safe_theme_asset_path directory asset safe,
    )
  ]

  button-IsInside :
      (button : ThemeButtonImages) (path : List ℕ)
      → validate_button button path ≡ []
      → All (IsInside directory) (button_assets button)
  unfolding validate_button
  button-IsInside button path h =
      let (a, (b, (c, _))) = in_order-nil _ h in
      (
        asset-IsInside button.normal _ true a,
        (asset-IsInside button.hover _ false b, (asset-IsInside button.pressed _ false c, tt)),
      )

  overlays-IsInside :
      (index : ℕ) (overlays : List ThemeOverlay) (path : List ℕ)
      → validate_overlays index overlays path ≡ []
      → All (IsInside directory) (overlay_assets overlays)
  unfolding validate_overlays validate_overlay
  overlays-IsInside index [] path h = tt
  overlays-IsInside index (overlay ∷ overlays) path h =
      let (a, b) = both_nil _ _ h in
      (asset-IsInside overlay.asset _ true a, overlays-IsInside (suc index) overlays path b)

  image-IsInside :
      (image : ThemeImage) (path : List ℕ)
      → validate_image image path ≡ []
      → IsInside directory image.asset
  unfolding validate_image
  image-IsInside image path h = asset-IsInside image.asset _ true (in_order-nil _ h).0

  separator-IsInside :
      (separator : ThemeSeparator) (path : List ℕ)
      → validate_separator separator path ≡ []
      → IsInside directory separator.asset
  unfolding validate_separator
  separator-IsInside separator path h = asset-IsInside separator.asset _ false (in_order-nil _ h).0

  together-IsInside :
      (all : List (List (List ℕ)))
      → All (All (IsInside directory)) all
      → All (IsInside directory) (together all)
  unfolding together
  together-IsInside [] h = tt
  together-IsInside (names ∷ rest) h =
      All-append (IsInside directory) names (together rest) h.0 (together-IsInside rest h.1)

  optional-button-IsInside :
      (button : Option ThemeButtonImages) (path : List ℕ)
      → when_present button (λ b. validate_button b path) ≡ []
      → All (IsInside directory) (present button button_assets)
  optional-button-IsInside none path h = tt
  optional-button-IsInside (some button) path h = button-IsInside button path h

  optional-image-IsInside :
      (image : Option ThemeImage) (path : List ℕ)
      → when_present image (λ i. validate_image i path) ≡ []
      → All (IsInside directory) (present image (λ i. i.asset ∷ []))
  optional-image-IsInside none path h = tt
  optional-image-IsInside (some image) path h = (image-IsInside image path h, tt)

  optional-separator-IsInside :
      (separator : Option ThemeSeparator) (path : List ℕ)
      → when_present separator (λ s. validate_separator s path) ≡ []
      → All (IsInside directory) (present separator (λ s. s.asset ∷ []))
  optional-separator-IsInside none path h = tt
  optional-separator-IsInside (some separator) path h = (separator-IsInside separator path h, tt)

  surface-IsInside :
      (surface : ThemeSurface) (path : List ℕ)
      → validate_surface surface path ≡ []
      → All (IsInside directory) (surface_assets surface)
  unfolding validate_surface
  surface-IsInside surface path h =
      let (image, (_, (overlays, (_, (_, (separator, buttons)))))) = in_order-nil _ h in
      let (previous, (next, (expand, (collapse, (menu, _))))) = buttons in
      together-IsInside _ (
        optional-image-IsInside surface.background _ image,
        (
          overlays-IsInside 0 surface.overlays path overlays,
          (
            optional-separator-IsInside surface.separator _ separator,
            (
              optional-button-IsInside surface.previous_button _ previous,
              (
                optional-button-IsInside surface.next_button _ next,
                (
                  optional-button-IsInside surface.expand_button _ expand,
                  (
                    optional-button-IsInside surface.collapse_button _ collapse,
                    (optional-button-IsInside surface.menu_button _ menu, tt),
                  ),
                ),
              ),
            ),
          ),
        ),
      )

  appearance-IsInside :
      (appearance : ThemeAppearance) (path : List ℕ)
      → validate_appearance appearance path ≡ []
      → All (IsInside directory) (appearance_assets appearance)
  unfolding validate_appearance
  appearance-IsInside appearance path h =
      let (_, (_, (_, (horizontal, (_, (vertical, _)))))) = in_order-nil _ h in
      together-IsInside _ (
        surface-IsInside appearance.horizontal _ horizontal,
        (surface-IsInside appearance.vertical _ vertical, tt),
      )

  optional-appearance-IsInside :
      (appearance : Option ThemeAppearance) (path : List ℕ)
      → when_present appearance (λ a. validate_appearance a path) ≡ []
      → All (IsInside directory) (present appearance appearance_assets)
  optional-appearance-IsInside none path h = tt
  optional-appearance-IsInside (some appearance) path h = appearance-IsInside appearance path h

  -- A manifest without validation issues names only assets that end in `.png` or `.apng` and lie below
  -- the directory of the theme, whichever that is, in both appearances, in every surface, overlay,
  -- separator and button; other asset names are empty.
  pub validate_theme_manifest-IsInside :
      (manifest : ThemeManifest)
      → validate_theme_manifest manifest ≡ []
      → All (IsInside directory) (assets manifest)
  unfolding validate_theme_manifest
  validate_theme_manifest-IsInside manifest h =
      let (_, (_, (_, (_, (_, (_, (_, (_, (_, rest))))))))) = in_order-nil _ h in
      let (preview, (_, (light, (dark, _)))) = rest in
      together-IsInside _ (
        (asset-IsInside manifest.preview_asset _ false preview, tt),
        (
          appearance-IsInside manifest.light _ light,
          (optional-appearance-IsInside manifest.dark _ dark, tt),
        ),
      )
