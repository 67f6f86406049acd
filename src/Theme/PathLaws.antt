-- ===== src/Theme/PathLaws.antt =====
-- Where a path that IsSafeThemeAssetPath accepts leads on Windows.
use ziliu_ime.Base.{
  ℕ, zero, suc, ◌<◌, ◌≤◌, ◌≡◌, refl, sym, ap, ◌∙◌, Bool, true, false, ◌&&◌, Option, none, some,
  List, [], ◌∷◌, ◌==◌, if◌then◌else◌, length, arith, All, Bool-cases, inl, inr,
}
use ziliu_ime.Settings.Values.{is_empty}
use ziliu_ime.Theme.Destination.{
  components, with_character, is_no_name, walk, is_absolute, destination, below,
}
use ziliu_ime.Theme.Paths.{
  has_character, has_control_characters, is_first, is_last, is_safe_component, before_slash,
  split_slash, component_result, are_safe_components, is_safe_theme_asset_path,
}

abbrev IsSafe : List ℕ → Type 0
IsSafe component = is_safe_component component ≡ true

abbrev HasNoColon : List ℕ → Type 0
HasNoColon component = has_character (λ c. c == b':') component ≡ false

is_no_name-has_character :
    (text : List ℕ)
    → HasNoColon text
    → has_control_characters text ≡ false
    → is_no_name text ≡ false
unfolding has_control_characters
is_no_name-has_character [] h h' = refl
is_no_name-has_character (c ∷ cs) h h' =
    let rest = is_no_name-has_character cs (ground arith) (ground arith) in ground (arith, rest)

walk_safe :
    (directory path : List (List ℕ))
    → All IsSafe path
    → All HasNoColon path
    → walk directory path ≡ some (below directory path)
unfolding walk
walk_safe directory [] h n = refl
walk_safe directory (component ∷ rest) h n =
    let name : is_no_name component ≡ false =
      is_no_name-has_character component n.0 (ground (arith, h.0)) in
    let down = walk_safe (component ∷ directory) rest h.1 n.1 in rw name (ground (arith, down, h.0))

-- The components between the slashes that IsSafeThemeAssetPath looks for.
unfoldable slash_components : List ℕ → List (List ℕ)
slash_components [] = [] ∷ []
slash_components (c ∷ cs) =
    let rest = slash_components cs in if c == b'/' then [] ∷ rest else with_character c rest

components-slash_components :
    (path : List ℕ)
    → has_character (λ c. c == b'\\') path ≡ false
    → components path ≡ slash_components path
unfolding components slash_components
components-slash_components [] h = refl
components-slash_components (c ∷ cs) h =
    let rest = components-slash_components cs (ground arith) in rw rest (ground arith)

with_character-HasNoColon :
    (c : ℕ) (path : List (List ℕ))
    → (c == b':') ≡ false
    → All HasNoColon path
    → All HasNoColon (with_character c path)
with_character-HasNoColon c [] e n = (rw e refl, tt)
with_character-HasNoColon c (component ∷ rest) e n = (rw e n.0, n.1)

slash_components-HasNoColon :
    (path : List ℕ) → HasNoColon path → All HasNoColon (slash_components path)
unfolding slash_components
slash_components-HasNoColon [] h = (refl, tt)
slash_components-HasNoColon (c ∷ cs) h =
    let rest = slash_components-HasNoColon cs (ground arith) in
    elim (Bool-cases (c == b'/')) [
      | inl slash ↦ rw slash (refl, rest)
      | inr other ↦ rw other (with_character-HasNoColon c (slash_components cs) (ground arith) rest)
    ]

-- The components after the first slash.
abbrev after : Option (List ℕ) → List (List ℕ)
after none = []
after (some rest) = slash_components rest

abbrev split_components : List ℕ × Option (List ℕ) → List (List ℕ)
split_components (component, rest) = component ∷ after rest

with_before :
    (c : ℕ) (s : List ℕ × Option (List ℕ))
    → with_character c (split_components s) ≡ split_components (before_slash c s)
with_before c (component, rest) = refl

slash_components-split_slash :
    (path : List ℕ) → slash_components path ≡ split_components (split_slash path)
unfolding slash_components split_slash
slash_components-split_slash [] = refl
slash_components-split_slash (c ∷ cs) = elim (Bool-cases (c == b'/')) [
  | inl slash ↦ rw slash refl
  | inr other ↦ rw other (rw (slash_components-split_slash cs) (with_before c (split_slash cs)))
]

-- After the first slash of a path that does not end in one, there is a shorter path like that.
abbrev Follows : List ℕ → List ℕ × Option (List ℕ) → Type 0
Follows path (component, none) = Unit
Follows path (component, some rest) =
    (length rest < length path) × (is_empty rest ≡ false) × (is_last b'/' rest ≡ false)

before_slash-Follows :
    (c : ℕ) (path : List ℕ) (s : List ℕ × Option (List ℕ))
    → Follows path s
    → Follows (c ∷ path) (before_slash c s)
before_slash-Follows c path (component, none) h = tt
before_slash-Follows c path (component, some rest) (lt, e, l) = (omega arith, e, l)

split_slash-Follows : (path : List ℕ) → is_last b'/' path ≡ false → Follows path (split_slash path)
unfolding split_slash
split_slash-Follows [] h = tt
split_slash-Follows (c ∷ []) h = ground arith
split_slash-Follows (c ∷ d ∷ ds) h = elim (Bool-cases (c == b'/')) [
  | inl slash ↦ rw slash (omega arith, refl, h)
  | inr other ↦
      rw other
        (before_slash-Follows c (d ∷ ds) (split_slash (d ∷ ds)) (split_slash-Follows (d ∷ ds) h))
]

abbrev are_safe : List (List ℕ) → Bool
are_safe [] = true
are_safe (component ∷ rest) = is_safe_component component && are_safe rest

are_safe-All : (path : List (List ℕ)) → are_safe path ≡ true → All IsSafe path
are_safe-All [] h = tt
are_safe-All (component ∷ rest) h = (ground arith, are_safe-All rest (ground arith))

component_result-are_safe :
    (fuel : ℕ) (path : List ℕ) (s : List ℕ × Option (List ℕ)) (more : List ℕ → Bool)
    → Follows path s
    → length path ≤ suc fuel
    → ((rest : List ℕ)
        → length rest ≤ fuel
        → is_empty rest ≡ false
        → is_last b'/' rest ≡ false
        → more rest ≡ are_safe (slash_components rest))
    → component_result more s ≡ are_safe (split_components s)
component_result-are_safe fuel path (component, none) more f le k = ground arith
component_result-are_safe fuel path (component, some rest) more (lt, e, l) le k =
    ap (λ b. is_safe_component component && b) (k rest (omega arith) e l)

-- The loop of IsSafeThemeAssetPath with enough rounds tests each component of a path that does not end
-- in a slash.
are_safe_components-slash_components :
    (fuel : ℕ) (path : List ℕ)
    → length path ≤ fuel
    → is_empty path ≡ false
    → is_last b'/' path ≡ false
    → are_safe_components fuel path ≡ are_safe (slash_components path)
unfolding are_safe_components
are_safe_components-slash_components fuel [] le e l = cc
are_safe_components-slash_components zero (c ∷ cs) le e l = absurd (omega arith)
are_safe_components-slash_components (suc fuel) (c ∷ cs) le e l =
    component_result-are_safe fuel (c ∷ cs) (split_slash (c ∷ cs)) (are_safe_components fuel)
      (split_slash-Follows (c ∷ cs) l) le (are_safe_components-slash_components fuel)
    ∙ ap are_safe (sym (slash_components-split_slash (c ∷ cs)))

relative_path :
    (path : List ℕ)
    → is_first b'/' path ≡ false
    → is_first b'\\' path ≡ false
    → is_absolute path ≡ false
relative_path [] h h' = refl
relative_path (c ∷ cs) h h' = rw (h, h') refl

-- A path that IsSafeThemeAssetPath accepts leads, on Windows, from any directory down through its
-- components, each a name: it is not absolute, it names no drive and no stream, and no part of it goes
-- up or stays, so it never leaves the directory that it starts from.
pub destination-is_safe_theme_asset_path :
    (directory : List (List ℕ)) (path : List ℕ)
    → is_safe_theme_asset_path path ≡ true
    → destination directory path ≡ some (below directory (components path))
unfolding is_safe_theme_asset_path destination
destination-is_safe_theme_asset_path directory path h =
    let same = components-slash_components path (ground arith) in
    let tested =
      are_safe_components-slash_components (length path) path (omega arith) (ground arith)
        (ground arith) in
    let relative : is_absolute path ≡ false = relative_path path (ground arith) (ground arith) in
    let safe = are_safe-All (slash_components path) (sym tested ∙ ground arith) in
    rw (relative, same)
      (walk_safe directory (slash_components path) safe
        (slash_components-HasNoColon path (ground arith)))
