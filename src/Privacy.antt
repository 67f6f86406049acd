-- ===== src/Privacy.antt =====
-- The privacy of an input field, from its input scopes: tsf/src/input_privacy.h.
pub mod Scopes
use ziliu_ime.Base.{
  ℕ, ◌+◌, ◌%◌, ◌^◌, Bool, true, false, not, ◌&&◌, ◌||◌, Option, none, some, List, [], ◌∷◌, leb,
  ◌==◌, if◌then◌else◌,
}

pub data InputPrivacy : Type 0 where
  blocked restricted ordinary : InputPrivacy

-- The enumerators of InputScope that the code names, from a header of Windows. An InputScope is an int,
-- given by its 32-bit pattern.
pub record ScopeNames : Type 0 where
  pub is_password : ℕ
  pub is_numeric_password : ℕ
  pub is_numeric_pin : ℕ
  pub is_alphanumeric_pin : ℕ
  pub is_alphanumeric_pin_set : ℕ
  pub is_private : ℕ
  pub is_default : ℕ
  pub is_chat_without_emoji : ℕ

-- The order of two ints, on their patterns.
abbrev pub int_leb : ℕ → ℕ → Bool
int_leb a b = leb ((a + 2 ^ 31) % 2 ^ 32) ((b + 2 ^ 31) % 2 ^ 32)

module _ (names : ScopeNames) where
  unfoldable pub is_secret_scope : ℕ → Bool
  is_secret_scope scope =
      scope == names.is_password
      || scope == names.is_numeric_password
      || scope == names.is_numeric_pin
      || scope == names.is_alphanumeric_pin
      || scope == names.is_alphanumeric_pin_set

  unfoldable pub is_private_scope : ℕ → Bool
  is_private_scope scope = scope == names.is_private

  unfoldable pub is_known_ordinary_scope : ℕ → Bool
  is_known_ordinary_scope scope =
      int_leb names.is_default scope
      && int_leb scope names.is_chat_without_emoji
      && not (is_secret_scope scope)
      && not (is_private_scope scope)

  -- The loop of ClassifyScopeValue over the scopes.
  unfoldable pub classify_scopes : InputPrivacy → List ℕ → InputPrivacy
  classify_scopes privacy [] = privacy
  classify_scopes privacy (scope ∷ scopes) =
      let as_restricted = classify_scopes restricted scopes in
      let as_before = classify_scopes privacy scopes in
      if is_secret_scope scope
      then blocked
      else if is_private_scope scope
      then as_restricted
      else if not (is_known_ordinary_scope scope)
      then as_restricted
      else as_before

  -- ClassifyScopeValue, on the scopes that GetInputScopes gives: `none` where the value is empty or is no
  -- input scope object, or the call fails.
  unfoldable pub classify_scope_value : Option (List ℕ) → InputPrivacy
  classify_scope_value none = restricted
  classify_scope_value (some []) = restricted
  classify_scope_value (some (scope ∷ scopes)) = classify_scopes ordinary (scope ∷ scopes)
