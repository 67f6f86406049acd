-- ===== src/Theme/Manifest.antt =====
-- ManifestReader::Read and ParseThemeManifest of core/src/theme_manifest.cpp.
use ziliu_ime.Base.{
  ℕ, ◌-◌, ◌*◌, true, false, Option, none, some, List, [], ◌∷◌, ltb, if◌then◌else◌, length,
}
use ziliu_ime.Settings.Types.{codes}
use ziliu_ime.Json.Types.{JsonValue, object, Parsed, parsed, failed, unfinished}
use ziliu_ime.Json.Values.{parse_json}
use ziliu_ime.Theme.Types.{
  invalid_json, manifest_too_large, ThemeAppearance, ThemeManifest, ThemeManifestIssue,
  default_appearance, default_theme_manifest,
}
use ziliu_ime.Theme.Validate.{Issues, in_order, validate_theme_manifest}
use ziliu_ime.Theme.Fields.{Reading, find, missing, read_string, read_unsigned}
use ziliu_ime.Theme.Sections.{not_object, read_part}
use ziliu_ime.Theme.Reader.{required_part, read_appearance}

pub record ThemeManifestParseResult : Type 0 where
  pub manifest : ThemeManifest
  pub issues : Issues

abbrev pub appearances_property :
    ThemeAppearance × Option ThemeAppearance
    → Option JsonValue
    → Reading (ThemeAppearance × Option ThemeAppearance)
appearances_property output none = (output, missing true (codes "$.appearances"))
appearances_property (light, dark) (some (object appearances)) =
    let (new_light, i1) =
      required_part (λ value. read_appearance value (codes "$.appearances.light") light)
        (codes "$.appearances.light") light (find (codes "light") appearances) in
    let (new_dark, i2) =
      read_part (λ value. read_appearance value (codes "$.appearances.dark") default_appearance)
        dark (find (codes "dark") appearances) in
    ((new_light, new_dark), in_order (i1 ∷ i2 ∷ []))
appearances_property output (some _) =
    not_object (codes "$.appearances") output (codes "property must be an object")

unfoldable pub read_manifest : JsonValue → Reading ThemeManifest
read_manifest (object root) =
    let initial = default_theme_manifest in
    let (format_version, i1) =
      read_unsigned root (codes "format_version") (codes "$.format_version") true
        initial.format_version in
    let (id, i2) = read_string root (codes "id") (codes "$.id") true initial.id in
    let (name, i3) = read_string root (codes "name") (codes "$.name") true initial.name in
    let (author, i4) = read_string root (codes "author") (codes "$.author") true initial.author in
    let (version, i5) =
      read_string root (codes "version") (codes "$.version") true initial.version in
    let (license, i6) =
      read_string root (codes "license") (codes "$.license") true initial.license in
    let (description, i7) =
      read_string root (codes "description") (codes "$.description") false initial.description in
    let (homepage, i8) =
      read_string root (codes "homepage") (codes "$.homepage") false initial.homepage in
    let (preview, i9) =
      read_string root (codes "preview") (codes "$.preview") false initial.preview_asset in
    let (source_format, i10) =
      read_string root (codes "source_format") (codes "$.source_format") false
        initial.source_format in
    let (base_dpi, i11) =
      read_unsigned root (codes "base_dpi") (codes "$.base_dpi") false initial.base_dpi in
    let ((light, dark), i12) =
      appearances_property (initial.light, initial.dark) (find (codes "appearances") root) in
    (
      record {
        format_version = format_version;
        id = id;
        name = name;
        author = author;
        version = version;
        license = license;
        description = description;
        homepage = homepage;
        preview_asset = preview;
        source_format = source_format;
        base_dpi = base_dpi;
        light = light;
        dark = dark;
      },
      in_order (i1 ∷ i2 ∷ i3 ∷ i4 ∷ i5 ∷ i6 ∷ i7 ∷ i8 ∷ i9 ∷ i10 ∷ i11 ∷ i12 ∷ []),
    )
read_manifest _ =
    not_object (codes "$") default_theme_manifest (codes "manifest root must be an object")

abbrev pub maximum_theme_manifest_bytes : ℕ
maximum_theme_manifest_bytes = 256 * 1024

-- A manifest that was read with no issue is validated.
unfoldable pub validated : Reading ThemeManifest → ThemeManifestParseResult
validated (manifest, []) = record { manifest = manifest; issues = validate_theme_manifest manifest }
validated (manifest, issue ∷ issues) = record { manifest = manifest; issues = issue ∷ issues }

abbrev pub refused : ThemeManifestIssue → ThemeManifestParseResult
refused issue = record { manifest = default_theme_manifest; issues = issue ∷ [] }

-- The offset of a failure is how much of the text lies before what is left. The last clause is for a
-- parser that ran out of fuel, which it never does.
abbrev pub manifest_of : List ℕ → Parsed JsonValue → ThemeManifestParseResult
manifest_of text (parsed root rest) = validated (read_manifest root)
manifest_of text (failed message rest) = refused (record {
  code = invalid_json;
  offset = length text - length rest;
  path = codes "$";
  message = message;
})
manifest_of text unfinished =
    refused (record { code = invalid_json; offset = 0; path = []; message = [] })

unfoldable pub parse_theme_manifest : List ℕ → ThemeManifestParseResult
parse_theme_manifest text =
    if ltb maximum_theme_manifest_bytes (length text)
    then refused (record {
      code = manifest_too_large;
      offset = 0;
      path = codes "$";
      message = codes "manifest exceeds the 256 KiB limit";
    })
    else manifest_of text (parse_json text)
