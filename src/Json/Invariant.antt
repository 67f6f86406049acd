-- ===== src/Json/Invariant.antt =====
-- What the values are that JsonParser gives: no level below the last, texts and keys in valid UTF-8,
-- and the keys of an object in strict order, so that no key stands twice.
use ziliu_ime.Base.{
  ℕ, zero, suc, ◌≡◌, refl, Bool, true, false, Option, none, some, List, if◌then◌else◌,
}
use ziliu_ime.Json.Types.{
  JsonValue, Items, Members, null, boolean, number, string, array, object, no_items, item,
  no_members, member,
}
use ziliu_ime.Json.StringOutcomes.{IsText}
use ziliu_ime.Json.Values.{text_lt, push_back, below_member, emplace}

abbrev pub IsBefore : List ℕ → Members → Type 0
IsBefore key no_members = Unit
IsBefore key (member k v rest) = text_lt key k ≡ true

unfoldable mutual
  pub IsJson : ℕ → JsonValue → Type 0
  IsJson zero value = ⊥
  IsJson (suc levels) null = Unit
  IsJson (suc levels) (boolean b) = Unit
  IsJson (suc levels) (number text) = Unit
  IsJson (suc levels) (string text) = IsText text
  IsJson (suc levels) (array items) = AreItems levels items
  IsJson (suc levels) (object table) = AreMembers levels table

  pub AreItems : ℕ → Items → Type 0
  AreItems levels no_items = Unit
  AreItems levels (item value rest) = IsJson levels value × AreItems levels rest

  pub AreMembers : ℕ → Members → Type 0
  AreMembers levels no_members = Unit
  AreMembers levels (member key value rest) =
      IsText key × IsJson levels value × IsBefore key rest × AreMembers levels rest

pub push_back-AreItems :
    (levels : ℕ) (items : Items) (value : JsonValue)
    → AreItems levels items
    → IsJson levels value
    → AreItems levels (push_back items value)
unfolding push_back IsJson
push_back-AreItems levels no_items value h k = (k, tt)
push_back-AreItems levels (item first rest) value h k =
    (h.0, push_back-AreItems levels rest value h.1 k)

abbrev pub WhenSome : (Members → Type 0) → Option Members → Type 0
WhenSome P none = Unit
WhenSome P (some table) = P table

module _ (P : Members → Type 0) where
  if-WhenSome :
      (b : Bool) (x y : Option Members)
      → ((b ≡ true) → WhenSome P x)
      → ((b ≡ false) → WhenSome P y)
      → WhenSome P (if b then x else y)
  if-WhenSome true x y h k = h refl
  if-WhenSome false x y h k = k refl

below_member-IsBefore :
    (k key : List ℕ) (value : JsonValue) (o : Option Members)
    → text_lt k key ≡ true
    → WhenSome (IsBefore k) (below_member key value o)
below_member-IsBefore k key value none lt = tt
below_member-IsBefore k key value (some rest) lt = lt

-- A key below the new one and below those before is below those after.
emplace-IsBefore :
    (k key : List ℕ) (value : JsonValue) (table : Members)
    → text_lt k key ≡ true
    → IsBefore k table
    → WhenSome (IsBefore k) (emplace key value table)
unfolding emplace
emplace-IsBefore k key value no_members lt h = lt
emplace-IsBefore k key value (member k' v rest) lt h =
    if-WhenSome (IsBefore k) (text_lt key k') (some (member key value (member k' v rest))) _
      (λ _. lt)
      (λ _.
        if-WhenSome (IsBefore k) (text_lt k' key) (below_member k' v (emplace key value rest)) none
          (λ _. below_member-IsBefore k k' v (emplace key value rest) h) (λ _. tt))

below_member-AreMembers :
    (levels : ℕ) (key : List ℕ) (value : JsonValue) (o : Option Members)
    → IsText key
    → IsJson levels value
    → WhenSome (IsBefore key) o
    → WhenSome (AreMembers levels) o
    → WhenSome (AreMembers levels) (below_member key value o)
unfolding IsJson
below_member-AreMembers levels key value none t j b h = tt
below_member-AreMembers levels key value (some rest) t j b h = (t, j, b, h)

pub emplace-AreMembers :
    (levels : ℕ) (key : List ℕ) (value : JsonValue) (table : Members)
    → IsText key
    → IsJson levels value
    → AreMembers levels table
    → WhenSome (AreMembers levels) (emplace key value table)
unfolding emplace IsJson
emplace-AreMembers levels key value no_members t j h = (t, j, tt, tt)
emplace-AreMembers levels key value (member k v rest) t j (t', j', b, h) =
    if-WhenSome (AreMembers levels) (text_lt key k) (some (member key value (member k v rest))) _
      (λ lt. (t, j, lt, (t', j', b, h)))
      (λ _.
        if-WhenSome (AreMembers levels) (text_lt k key) (below_member k v (emplace key value rest))
          none
          (λ lt.
            below_member-AreMembers levels k v (emplace key value rest) t' j'
              (emplace-IsBefore k key value rest lt b)
              (emplace-AreMembers levels key value rest t j h))
          (λ _. tt))
