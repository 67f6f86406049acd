-- ===== src/Theme/ManifestLaws.antt =====
-- What ParseThemeManifest promises of a manifest that it gives with no issue.
use ziliu_ime.Base.{ℕ, ◌≡◌, List, [], ◌∷◌, ltb, length, All, Bool-cases, inl, inr, All}
use ziliu_ime.Json.Types.{JsonValue, Parsed, parsed, failed, unfinished}
use ziliu_ime.Json.Values.{parse_json}
use ziliu_ime.Theme.Types.{ThemeManifest}
use ziliu_ime.Theme.Validate.{validate_theme_manifest}
use ziliu_ime.Theme.Assets.{IsInside, assets, validate_theme_manifest-IsInside}
use ziliu_ime.Theme.Fields.{Reading}
use ziliu_ime.Theme.Manifest.{
  ThemeManifestParseResult, read_manifest, validated, manifest_of, maximum_theme_manifest_bytes,
  parse_theme_manifest,
}

-- A result with no issue holds a manifest that passed the validation.
abbrev pub IsChecked : ThemeManifestParseResult → Type 0
IsChecked result = (result.issues ≡ []) → validate_theme_manifest result.manifest ≡ []

validated-IsChecked : (reading : Reading ThemeManifest) → IsChecked (validated reading)
unfolding validated
validated-IsChecked (manifest, []) h = h
validated-IsChecked (manifest, issue ∷ issues) h = cc

manifest_of-IsChecked :
    (text : List ℕ) (parse : Parsed JsonValue) → IsChecked (manifest_of text parse)
manifest_of-IsChecked text (parsed root rest) h = validated-IsChecked (read_manifest root) h
manifest_of-IsChecked text (failed message rest) h = cc
manifest_of-IsChecked text unfinished h = cc

pub parse_theme_manifest-IsChecked : (text : List ℕ) → IsChecked (parse_theme_manifest text)
unfolding parse_theme_manifest
parse_theme_manifest-IsChecked text =
    elim (Bool-cases (ltb maximum_theme_manifest_bytes (length text))) [
      | inl long ↦ rw long (λ h. cc)
      | inr short ↦ rw short (manifest_of-IsChecked text (parse_json text))
    ]

-- A manifest that ParseThemeManifest gives with no issue, whatever the text was, names only assets that
-- end in `.png` or `.apng`, in letters of either case, and that lie below the directory of the theme,
-- whichever that is, as Windows reads the path: split at slashes and backslashes, not absolute, with no
-- drive, stream or control character, and with no component that is empty, `.` or `..`. Other names
-- are empty.
pub parse_theme_manifest-IsInside :
    (directory : List (List ℕ)) (text : List ℕ)
    → (parse_theme_manifest text).issues ≡ []
    → All (IsInside directory) (assets (parse_theme_manifest text).manifest)
parse_theme_manifest-IsInside directory text h =
    validate_theme_manifest-IsInside directory (parse_theme_manifest text).manifest
      (parse_theme_manifest-IsChecked text h)
