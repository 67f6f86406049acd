-- ===== src/Json/Outcomes.antt =====
-- What a parser of Json/Types.antt may give back: a value with a property and less text, or a failure
-- whose position lies in the text, and never the end of a loop's fuel.
use ziliu_ime.Base.{ℕ, ◌+◌, ◌≤◌, List, [], ◌∷◌, length, arith, ◌==◌, Bool-cases, inl, inr}
use ziliu_ime.Json.Types.{
  Parsed, parsed, failed, unfinished, Parser, then_parse, skip_whitespace, consume, close_or,
}

-- `d` characters at least are taken of `n`.
abbrev pub Outcome : {A : Type 0} → (A → Type 0) → ℕ → ℕ → Parsed A → Type 0
Outcome P d n (parsed a rest) = P a × (length rest + d ≤ n)
Outcome P d n (failed message rest) = length rest ≤ n
Outcome P d n unfinished = ⊥

-- A parser that takes `taken` characters at least, wherever it starts.
abbrev pub Takes : {A : Type 0} → ℕ → (A → Type 0) → Parser A → Type 0
Takes taken P p = (text : List ℕ) (d n : ℕ) → length text + d ≤ n → Outcome P (d + taken) n (p text)

abbrev pub Anything : {A : Type 0} → A → Type 0
Anything a = Unit

module _ {A B : Type 0} (P : A → Type 0) (Q : B → Type 0) where
  pub then_parse-Outcome :
      (d e n : ℕ) (f : A → Parser B) (r : Parsed A)
      → Outcome P d n r
      → ((a : A) (rest : List ℕ) → P a → length rest + d ≤ n → Outcome Q e n (f a rest))
      → Outcome Q e n (then_parse f r)
  then_parse-Outcome d e n f (parsed a rest) h k = k a rest h.0 h.1
  then_parse-Outcome d e n f (failed message rest) h k = h
  then_parse-Outcome d e n f unfinished h k = elim h [ ]

module _ {A : Type 0} (P : A → Type 0) where
  pub weaken : (d e n : ℕ) (r : Parsed A) → e ≤ d → Outcome P d n r → Outcome P e n r
  weaken d e n (parsed a rest) le h = (h.0, omega arith)
  weaken d e n (failed message rest) le h = h
  weaken d e n unfinished le h = elim h [ ]

  pub close_or-Outcome :
      (d n : ℕ) (c : ℕ) (result : A) (more : Parser A) (text : List ℕ)
      → length text + d ≤ n
      → P result
      → Outcome P d n (more text)
      → Outcome P d n (close_or c result more text)
  unfolding close_or
  close_or-Outcome d n c result more [] le h k = k
  close_or-Outcome d n c result more (x ∷ xs) le h k = elim (Bool-cases (x == c)) [
    | inl same ↦ rw same (h, omega arith)
    | inr other ↦ rw other k
  ]

pub length-skip_whitespace : (text : List ℕ) → length (skip_whitespace text) ≤ length text
unfolding skip_whitespace
length-skip_whitespace [] = omega arith
length-skip_whitespace (c ∷ cs) = ground (arith, length-skip_whitespace cs)

pub consume-Takes : (c : ℕ) → Takes 1 Anything (consume c)
unfolding consume
consume-Takes c [] d n le = omega arith
consume-Takes c (x ∷ xs) d n le = ground arith
