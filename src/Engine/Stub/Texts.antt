-- ===== src/Engine/Stub/Texts.antt =====
-- The preedit of the stub engine: its last unit, its letters, and where separators stand in it.
use ziliu_ime.Base.{
  ℕ, ◌+◌, ◌≡◌, refl, sym, ap, ◌∙◌, Bool, true, false, not, ◌&&◌, ◌||◌, List, [], ◌∷◌, ◌++◌, arith,
  ◌==◌, if◌then◌else◌, length,
}
use ziliu_ime.Engine.Interface.{apostrophe}
use ziliu_ime.Engine.Stub.{is_empty, back, pop_back, lookup_key}

pub back-append : (s : List ℕ) (c : ℕ) → back (s ++ c ∷ []) ≡ c
unfolding back
back-append [] c = refl
back-append (x ∷ []) c = refl
back-append (x ∷ y ∷ s) c = back-append (y ∷ s) c

pub pop_back-append : (s : List ℕ) (c : ℕ) → pop_back (s ++ c ∷ []) ≡ s
unfolding pop_back
pop_back-append [] c = refl
pop_back-append (x ∷ []) c = refl
pop_back-append (x ∷ y ∷ s) c = ap (λ r. x ∷ r) (pop_back-append (y ∷ s) c)

-- A text that is not empty is its front and its last unit.
pub pop_back-back : (s : List ℕ) → is_empty s ≡ false → s ≡ pop_back s ++ back s ∷ []
unfolding pop_back back
pop_back-back [] h = cc
pop_back-back (x ∷ []) h = refl
pop_back-back (x ∷ y ∷ s) h = ap (λ r. x ∷ r) (pop_back-back (y ∷ s) refl)

pub append-is_empty : (s : List ℕ) (c : ℕ) → is_empty (s ++ c ∷ []) ≡ false
append-is_empty [] c = refl
append-is_empty (x ∷ s) c = refl

abbrev pub letters : List ℕ → ℕ
letters s = length (lookup_key s)

pub letters_letter :
    (s : List ℕ) (c : ℕ) → (c == apostrophe) ≡ false → letters (s ++ c ∷ []) ≡ letters s + 1
unfolding lookup_key
letters_letter [] c h = ground arith
letters_letter (x ∷ s) c h = ground (arith, letters_letter s c h)

pub letters_separator :
    (s : List ℕ) (c : ℕ) → (c == apostrophe) ≡ true → letters (s ++ c ∷ []) ≡ letters s
unfolding lookup_key
letters_separator [] c h = ground arith
letters_separator (x ∷ s) c h = ground (arith, letters_separator s c h)

-- No separator stands first or right after another, where `after` says that a letter came before.
abbrev pub is_separated_after : Bool → List ℕ → Bool
is_separated_after after [] = true
is_separated_after after (c ∷ cs) =
    if c == apostrophe then after && is_separated_after false cs else is_separated_after true cs

abbrev pub is_separated : List ℕ → Bool
is_separated = is_separated_after false

separated_letter :
    (after : Bool) (s : List ℕ) (c : ℕ)
    → (c == apostrophe) ≡ false
    → is_separated_after after s ≡ true
    → is_separated_after after (s ++ c ∷ []) ≡ true
separated_letter after [] c h v = ground arith
separated_letter after (x ∷ s) c h v =
    ground (arith, separated_letter true s c h, separated_letter false s c h)

separated_separator :
    (after : Bool) (s : List ℕ)
    → (is_empty s && not after) ≡ false
    → (not (is_empty s) && back s == apostrophe) ≡ false
    → is_separated_after after s ≡ true
    → is_separated_after after (s ++ apostrophe ∷ []) ≡ true
unfolding back
separated_separator after [] e h v = ground arith
separated_separator after (x ∷ []) e h v = ground arith
separated_separator after (x ∷ y ∷ s) e h v =
    ground (arith, separated_separator true (y ∷ s), separated_separator false (y ∷ s))

separated_front :
    (after : Bool) (s : List ℕ) (c : ℕ)
    → is_separated_after after (s ++ c ∷ []) ≡ true
    → is_separated_after after s ≡ true
separated_front after [] c v = refl
separated_front after (x ∷ s) c v =
    ground (arith, separated_front true s c, separated_front false s c)

pub is_separated_letter :
    (s : List ℕ) (c : ℕ)
    → (c == apostrophe) ≡ false
    → is_separated s ≡ true
    → is_separated (s ++ c ∷ []) ≡ true
is_separated_letter = separated_letter false

pub is_separated_separator :
    (s : List ℕ)
    → (is_empty s || back s == apostrophe) ≡ false
    → is_separated s ≡ true
    → is_separated (s ++ apostrophe ∷ []) ≡ true
is_separated_separator s h v = separated_separator false s (ground arith) (ground arith) v

pub is_separated-pop_back :
    (s : List ℕ) → is_empty s ≡ false → is_separated s ≡ true → is_separated (pop_back s) ≡ true
is_separated-pop_back s e v =
    separated_front false (pop_back s) (back s) (ap is_separated (sym (pop_back-back s e)) ∙ v)
