-- ===== src/Theme/ImageNames.antt =====
-- The names that HasSupportedImageExtension of core/src/theme_manifest.cpp accepts.
use ziliu_ime.Base.{
  ℕ, ◌+◌, ◌≤◌, ◌≡◌, refl, subst, ◌⊎◌, inl, inr, true, ◌&&◌, Option, none, some, List, [], ◌∷◌, ◌++◌,
  leb, if◌then◌else◌, arith, text_eq, text_eq→eq, Bool-cases,
}
use ziliu_ime.Settings.Types.{codes}
use ziliu_ime.Theme.Paths.{
  or_here, from_last_dot, to_lower, is_image_extension, has_supported_image_extension,
}

-- A character and a lower-case one that are the same, or the same letter of the alphabet.
abbrev pub IsSameLetter : ℕ → ℕ → Type 0
IsSameLetter c lower = (c ≡ lower) ⊎ ((b'a' ≤ lower) × (lower ≤ b'z') × (c + 32 ≡ lower))

abbrev pub IsSameText : List ℕ → List ℕ → Type 0
IsSameText [] [] = Unit
IsSameText (c ∷ cs) (d ∷ ds) = IsSameLetter c d × IsSameText cs ds
IsSameText _ _ = ⊥

-- A name that ends in `.png` or `.apng`, in letters of either case.
pub record IsImageName (name : List ℕ) : Type 0 where
  pub stem : List ℕ
  pub ending : List ℕ
  pub whole : name ≡ stem ++ ending
  pub image : IsSameText ending (codes ".png") ⊎ IsSameText ending (codes ".apng")

IsSameText-to_lower : (text : List ℕ) → IsSameText text (to_lower text)
IsSameText-to_lower [] = tt
IsSameText-to_lower (c ∷ cs) = (letter, IsSameText-to_lower cs)
  where
    letter : IsSameLetter c (if leb b'A' c && leb c b'Z' then c + 32 else c)
    letter = elim (Bool-cases (leb b'A' c && leb c b'Z')) [
      | inl upper ↦ rw upper (inr (ground arith, ground arith, refl))
      | inr other ↦ rw other (inl refl)
    ]

-- What begins with the last dot is an end of the path.
or_here-suffix :
    (c : ℕ) (cs : List ℕ) (later : Option (List ℕ)) {rest : List ℕ}
    → ((tail : List ℕ) → later ≡ some tail → (stem : List ℕ) × (cs ≡ stem ++ tail))
    → or_here c cs later ≡ some rest
    → (stem : List ℕ) × (c ∷ cs ≡ stem ++ rest)
or_here-suffix c cs none k h = ([], ground arith)
or_here-suffix c cs (some tail) k h = let (stem, e) = k tail refl in (c ∷ stem, cc)

from_last_dot-suffix :
    (path : List ℕ) {rest : List ℕ}
    → from_last_dot path ≡ some rest
    → (stem : List ℕ) × (path ≡ stem ++ rest)
unfolding from_last_dot
from_last_dot-suffix [] h = cc
from_last_dot-suffix (c ∷ cs) h =
    or_here-suffix c cs (from_last_dot cs) (λ tail e. from_last_dot-suffix cs e) h

image_extension-cases :
    (o : Option (List ℕ))
    → is_image_extension o ≡ true
    → (rest : List ℕ) × (o ≡ some rest)
      × ((to_lower rest ≡ codes ".png") ⊎ (to_lower rest ≡ codes ".apng"))
image_extension-cases none h = cc
image_extension-cases (some rest) h = (rest, refl, either)
  where
    either : (to_lower rest ≡ codes ".png") ⊎ (to_lower rest ≡ codes ".apng")
    either = elim (Bool-cases (text_eq (to_lower rest) (codes ".png"))) [
      | inl png ↦ inl (text_eq→eq (to_lower rest) (codes ".png") png)
      | inr other ↦ inr (text_eq→eq (to_lower rest) (codes ".apng") (rw other at h))
    ]

-- A name that HasSupportedImageExtension accepts ends in `.png` or `.apng`, in letters of either case.
pub has_supported_image_extension-IsImageName :
    (name : List ℕ) → has_supported_image_extension name ≡ true → IsImageName name
unfolding has_supported_image_extension
has_supported_image_extension-IsImageName name h =
    let (rest, e, image) = image_extension-cases (from_last_dot name) h in
    let (stem, whole) = from_last_dot-suffix name e in
    let same = IsSameText-to_lower rest in
    record {
      stem = stem;
      ending = rest;
      whole = whole;
      image = elim image [
        | inl png ↦ inl (subst (IsSameText rest) png same)
        | inr apng ↦ inr (subst (IsSameText rest) apng same)
      ];
    }
