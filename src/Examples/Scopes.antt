-- ===== src/Examples/Scopes.antt =====
-- The privacy of a field, for some values of the scopes' names.
use ziliu_ime.Base.{◌≡◌, refl, some, [], ◌∷◌}
use ziliu_ime.Privacy.{
  blocked, ScopeNames, is_known_ordinary_scope, is_secret_scope, is_private_scope, classify_scopes,
  classify_scope_value,
}
use ziliu_ime.Privacy.Scopes.{
  has_secret, are_known_ordinary, privacy_of, classify_scope_value-privacy_of,
}

abbrev names : ScopeNames
names = record {
  is_password = 31;
  is_numeric_password = 63;
  is_numeric_pin = 64;
  is_alphanumeric_pin = 65;
  is_alphanumeric_pin_set = 66;
  is_private = 61;
  is_default = 0;
  is_chat_without_emoji = 68;
}

classify_scope_value-privacy_of_example :
    classify_scope_value names (some (5 ∷ 61 ∷ 31 ∷ []))
    ≡ privacy_of names
        (has_secret names (5 ∷ 61 ∷ 31 ∷ []))
        (are_known_ordinary names (5 ∷ 61 ∷ 31 ∷ []))
classify_scope_value-privacy_of_example = classify_scope_value-privacy_of names 5 (61 ∷ 31 ∷ [])

-- A secret scope blocks after a private one too.
secret_last : classify_scope_value names (some (5 ∷ 61 ∷ 31 ∷ [])) ≡ blocked
unfolding classify_scope_value classify_scopes is_secret_scope is_private_scope
    is_known_ordinary_scope
secret_last = refl
