-- ===== src/Theme/Destination.antt =====
-- Where Windows finds the path of an asset of core/src/theme_manifest.cpp, seen from a directory.
use ziliu_ime.Base.{
  ltb, ℕ, Bool, false, ◌||◌, Option, none, some, List, [], ◌∷◌, ◌==◌, if◌then◌else◌, text_eq,
}
use ziliu_ime.Settings.Types.{codes}
use ziliu_ime.Settings.Values.{is_empty}

-- A path as its components, between the separators of Windows, which are both slashes.
abbrev pub is_separator : ℕ → Bool
is_separator c = c == b'/' || c == b'\\'

abbrev pub with_character : ℕ → List (List ℕ) → List (List ℕ)
with_character c [] = (c ∷ []) ∷ []
with_character c (component ∷ rest) = (c ∷ component) ∷ rest

unfoldable pub components : List ℕ → List (List ℕ)
components [] = [] ∷ []
components (c ∷ cs) =
    let rest = components cs in if is_separator c then [] ∷ rest else with_character c rest

-- A colon follows a drive or comes before a stream, and no name has a control character.
abbrev pub is_no_name : List ℕ → Bool
is_no_name [] = false
is_no_name (c ∷ cs) = c == b':' || ltb c 0x20 || is_no_name cs

-- A directory as the names from it up to the root, and where components lead from there: `..` goes up,
-- and an empty component and `.` stay. A component that is no name leads to another place, of which
-- nothing is known.
abbrev pub parent : List (List ℕ) → List (List ℕ)
parent [] = []
parent (name ∷ names) = names

unfoldable pub walk : List (List ℕ) → List (List ℕ) → Option (List (List ℕ))
walk directory [] = some directory
walk directory (component ∷ rest) =
    let up = walk (parent directory) rest in
    let here = walk directory rest in
    let down = walk (component ∷ directory) rest in
    if is_no_name component
    then none
    else if text_eq component (codes "..")
    then up
    else if is_empty component || text_eq component (codes ".")
    then here
    else down

-- A path that begins with a separator leads from the root, any other from the directory.
abbrev pub is_absolute : List ℕ → Bool
is_absolute [] = false
is_absolute (c ∷ cs) = is_separator c

unfoldable pub destination : List (List ℕ) → List ℕ → Option (List (List ℕ))
destination directory path =
    if is_absolute path then walk [] (components path) else walk directory (components path)

abbrev pub below : List (List ℕ) → List (List ℕ) → List (List ℕ)
below directory [] = directory
below directory (component ∷ rest) = below (component ∷ directory) rest
