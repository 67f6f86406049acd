-- ===== src/Theme/Paths.antt =====
-- IsSafeThemeAssetPath, HasSupportedImageExtension and the other tests of texts in
-- core/src/theme_manifest.cpp.
use ziliu_ime.Base.{
  ℕ, zero, suc, ◌+◌, Bool, true, false, not, ◌&&◌, ◌||◌, Option, none, some, List, [], ◌∷◌, ltb,
  leb, ◌==◌, if◌then◌else◌, length, text_eq,
}
use ziliu_ime.Settings.Types.{codes}
use ziliu_ime.Settings.Values.{is_empty, is_ascii_lower, is_ascii_digit, are_theme_id_characters}
use ziliu_ime.Json.Utf.{is_valid_utf8}

abbrev pub has_character : (ℕ → Bool) → List ℕ → Bool
has_character p [] = false
has_character p (c ∷ cs) = p c || has_character p cs

unfoldable pub has_control_characters : List ℕ → Bool
has_control_characters text = has_character (λ c. ltb c 0x20) text

-- std::isalnum in the C locale.
abbrev pub is_alphanumeric : ℕ → Bool
is_alphanumeric c = is_ascii_lower c || is_ascii_digit c || (leb b'A' c && leb c b'Z')

-- IsValidThemeId of this file, which is not the one of core/src/settings.cpp.
unfoldable pub is_valid_manifest_id : List ℕ → Bool
is_valid_manifest_id [] = false
is_valid_manifest_id (c ∷ cs) =
    not (ltb 128 (length (c ∷ cs))) && is_alphanumeric c && are_theme_id_characters (c ∷ cs)

-- path.substr(path.find_last_of('.')), if there is one.
abbrev pub or_here : ℕ → List ℕ → Option (List ℕ) → Option (List ℕ)
or_here c cs none = if c == b'.' then some (c ∷ cs) else none
or_here c cs (some later) = some later

unfoldable pub from_last_dot : List ℕ → Option (List ℕ)
from_last_dot [] = none
from_last_dot (c ∷ cs) = or_here c cs (from_last_dot cs)

-- std::tolower in the C locale, on each character.
abbrev pub to_lower : List ℕ → List ℕ
to_lower [] = []
to_lower (c ∷ cs) = (if leb b'A' c && leb c b'Z' then c + 32 else c) ∷ to_lower cs

abbrev pub is_image_extension : Option (List ℕ) → Bool
is_image_extension none = false
is_image_extension (some text) =
    let extension = to_lower text in
    text_eq extension (codes ".png") || text_eq extension (codes ".apng")

unfoldable pub has_supported_image_extension : List ℕ → Bool
has_supported_image_extension path = is_image_extension (from_last_dot path)

abbrev pub is_last : ℕ → List ℕ → Bool
is_last b [] = false
is_last b (c ∷ []) = c == b
is_last b (c ∷ d ∷ ds) = is_last b (d ∷ ds)

abbrev pub is_first : ℕ → List ℕ → Bool
is_first b [] = false
is_first b (c ∷ cs) = c == b

abbrev pub is_safe_component : List ℕ → Bool
is_safe_component component = not (
    is_empty component
    || text_eq component (codes ".")
    || text_eq component (codes "..")
    || has_control_characters component)

-- path.find('/'): what stands before it, and what after it, if it is there.
abbrev pub before_slash : ℕ → List ℕ × Option (List ℕ) → List ℕ × Option (List ℕ)
before_slash c (component, rest) = (c ∷ component, rest)

unfoldable pub split_slash : List ℕ → List ℕ × Option (List ℕ)
split_slash [] = ([], none)
split_slash (c ∷ cs) =
    let more = split_slash cs in if c == b'/' then ([], some cs) else before_slash c more

-- The loop over the components. Each round takes a character at least, so `length path` rounds are
-- enough: an end of the fuel is the result false.
abbrev pub component_result : (List ℕ → Bool) → List ℕ × Option (List ℕ) → Bool
component_result more (component, none) = is_safe_component component
component_result more (component, some rest) = is_safe_component component && more rest

unfoldable pub are_safe_components : ℕ → List ℕ → Bool
are_safe_components fuel [] = true
are_safe_components zero (c ∷ cs) = false
are_safe_components (suc fuel) (c ∷ cs) =
    component_result (are_safe_components fuel) (split_slash (c ∷ cs))

unfoldable pub is_safe_theme_asset_path : List ℕ → Bool
is_safe_theme_asset_path path =
    not (
      is_empty path
      || ltb 240 (length path)
      || is_first b'/' path
      || is_first b'\\' path
      || is_last b'/' path
      || has_character (λ c. c == b'\\') path
      || has_character (λ c. c == b':') path
      || not (is_valid_utf8 path))
    && are_safe_components (length path) path
