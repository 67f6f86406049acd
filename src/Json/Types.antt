-- ===== src/Json/Types.antt =====
-- JsonNumber and JsonValue of core/src/theme_manifest.cpp, and what a member function of JsonParser
-- gives back. The text that a parser takes is what lies at `position_` and after it; a failure keeps
-- the message and the text left at the `position_` of the first Fail, the one that is reported.
use ziliu_ime.Base.{ℕ, Bool, List, [], ◌∷◌, if◌then◌else◌, ◌==◌, ◌||◌, ◌++◌}
use ziliu_ime.Settings.Types.{codes}

-- A JsonNumber is the text of a number; an Object is kept in the order of its keys.
mutual
  pub data JsonValue : Type 0 where
    null : JsonValue
    boolean : Bool → JsonValue
    number : List ℕ → JsonValue
    string : List ℕ → JsonValue
    array : Items → JsonValue
    object : Members → JsonValue

  pub data Items : Type 0 where
    no_items : Items
    item : JsonValue → Items → Items

  pub data Members : Type 0 where
    no_members : Members
    member : List ℕ → JsonValue → Members → Members

pub data Parsed {ℓ} (A : Type ℓ) : Type ℓ where
  parsed : A → List ℕ → Parsed A
  failed : List ℕ → List ℕ → Parsed A
  unfinished : Parsed A

abbrev pub Parser {ℓ} : Type ℓ → Type ℓ
Parser A = List ℕ → Parsed A

abbrev pub then_parse {ℓ κ} : {A : Type ℓ} {B : Type κ} → (A → Parser B) → Parsed A → Parsed B
then_parse f (parsed a rest) = f a rest
then_parse f (failed message rest) = failed message rest
then_parse f unfinished = unfinished

infixl 5 ◌>>=◌ ◌>>◌
abbrev pub ◌>>=◌ {ℓ κ} : {A : Type ℓ} {B : Type κ} → Parser A → (A → Parser B) → Parser B
(p >>= f) text = then_parse f (p text)

abbrev pub ◌>>◌ {ℓ} : {B : Type ℓ} → Parser (Unit {0}) → Parser B → Parser B
p >> q = p >>= λ _. q

unfoldable pub is_whitespace : ℕ → Bool
is_whitespace c = c == b' ' || c == b'\t' || c == b'\r' || c == b'\n'

unfoldable pub skip_whitespace : List ℕ → List ℕ
skip_whitespace [] = []
skip_whitespace (c ∷ cs) = let rest = skip_whitespace cs in if is_whitespace c then rest else c ∷ cs

abbrev pub skip : Parser (Unit {0})
skip text = parsed tt (skip_whitespace text)

unfoldable pub consume : ℕ → Parser (Unit {0})
consume expected [] = failed (codes "expected '" ++ expected ∷ codes "'") []
consume expected (c ∷ cs) =
    if c == expected
    then parsed tt cs
    else failed (codes "expected '" ++ expected ∷ codes "'") (c ∷ cs)

-- The test for a closing bracket, with what is done at another text.
unfoldable pub close_or {ℓ} : {A : Type ℓ} → ℕ → A → Parser A → Parser A
close_or bracket result more [] = more []
close_or bracket result more (c ∷ cs) = if c == bracket then parsed result cs else more (c ∷ cs)
