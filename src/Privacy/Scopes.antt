-- ===== src/Privacy/Scopes.antt =====
-- What the classification of a field comes to, whatever the order of its scopes.
use ziliu_ime.Base.{ℕ, ◌≡◌, refl, Bool, true, false, ◌&&◌, ◌||◌, some, List, [], ◌∷◌, arith}
use ziliu_ime.Privacy.{
  InputPrivacy, blocked, restricted, ordinary, ScopeNames, is_secret_scope, is_private_scope,
  is_known_ordinary_scope, classify_scopes, classify_scope_value,
}

module _ (names : ScopeNames) where
  abbrev pub has_secret : List ℕ → Bool
  has_secret [] = false
  has_secret (scope ∷ scopes) = is_secret_scope names scope || has_secret scopes

  abbrev pub are_known_ordinary : List ℕ → Bool
  are_known_ordinary [] = true
  are_known_ordinary (scope ∷ scopes) =
      is_known_ordinary_scope names scope && are_known_ordinary scopes

  -- The privacy that the scopes together allow.
  abbrev pub privacy_of : Bool → Bool → InputPrivacy
  privacy_of true known = blocked
  privacy_of false true = ordinary
  privacy_of false false = restricted

  private_not_ordinary :
      (scope : ℕ)
      → is_private_scope names scope ≡ true
      → is_known_ordinary_scope names scope ≡ false
  unfolding is_known_ordinary_scope
  private_not_ordinary scope h = ground arith

  classify_scopes-restricted :
      (scopes : List ℕ)
      → classify_scopes names restricted scopes ≡ privacy_of (has_secret scopes) false
  unfolding classify_scopes
  classify_scopes-restricted [] = refl
  classify_scopes-restricted (scope ∷ scopes) = ground (arith, classify_scopes-restricted scopes)

  classify_scopes-ordinary :
      (scopes : List ℕ)
      → classify_scopes names ordinary scopes
        ≡ privacy_of (has_secret scopes) (are_known_ordinary scopes)
  unfolding classify_scopes
  classify_scopes-ordinary [] = refl
  classify_scopes-ordinary (scope ∷ scopes) = ground (
    arith,
    classify_scopes-ordinary scopes,
    classify_scopes-restricted scopes,
    private_not_ordinary scope,
  )

  -- A field that has scopes is blocked if any of them is secret, wherever it stands; else it is ordinary
  -- if all of them are known ordinary scopes, and restricted if one is not.
  pub classify_scope_value-privacy_of :
      (scope : ℕ) (rest : List ℕ)
      → classify_scope_value names (some (scope ∷ rest))
        ≡ privacy_of (has_secret (scope ∷ rest)) (are_known_ordinary (scope ∷ rest))
  unfolding classify_scope_value
  classify_scope_value-privacy_of scope rest = classify_scopes-ordinary (scope ∷ rest)
