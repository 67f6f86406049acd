-- ===== src/Json/Numbers.antt =====
-- ParseNumber of core/src/theme_manifest.cpp.
use ziliu_ime.Base.{ℕ, ◌-◌, Bool, ◌&&◌, ◌||◌, List, [], ◌∷◌, leb, ◌==◌, if◌then◌else◌, length, take}
use ziliu_ime.Settings.Types.{codes}
use ziliu_ime.Json.Types.{parsed, failed, Parser, ◌>>◌, then_parse, JsonValue, number}

-- std::isdigit in the C locale.
abbrev pub is_digit : ℕ → Bool
is_digit c = leb b'0' c && leb c b'9'

unfoldable pub skip_digits : List ℕ → List ℕ
skip_digits [] = []
skip_digits (c ∷ cs) = let rest = skip_digits cs in if is_digit c then rest else c ∷ cs

unfoldable pub minus_sign : Parser (Unit {0})
minus_sign [] = parsed tt []
minus_sign (c ∷ []) =
    if c == b'-' then failed (codes "incomplete number") [] else parsed tt (c ∷ [])
minus_sign (c ∷ d ∷ rest) = if c == b'-' then parsed tt (d ∷ rest) else parsed tt (c ∷ d ∷ rest)

abbrev pub after_zero : Parser (Unit {0})
after_zero [] = parsed tt []
after_zero (c ∷ cs) =
    if is_digit c then failed (codes "leading zero in number") (c ∷ cs) else parsed tt (c ∷ cs)

unfoldable pub integer_part : Parser (Unit {0})
integer_part [] = failed (codes "invalid number") []
integer_part (c ∷ cs) =
    if c == b'0'
    then after_zero cs
    else if leb b'1' c && leb c b'9'
    then parsed tt (skip_digits (c ∷ cs))
    else failed (codes "invalid number") (c ∷ cs)

-- Digits, at least one of them.
unfoldable pub digits : List ℕ → Parser (Unit {0})
digits message text =
    if length (skip_digits text) == length text
    then failed message (skip_digits text)
    else parsed tt (skip_digits text)

unfoldable pub fraction : Parser (Unit {0})
fraction [] = parsed tt []
fraction (c ∷ cs) =
    if c == b'.' then digits (codes "number fraction has no digits") cs else parsed tt (c ∷ cs)

abbrev pub skip_sign : List ℕ → List ℕ
skip_sign [] = []
skip_sign (c ∷ cs) = if c == b'+' || c == b'-' then cs else c ∷ cs

unfoldable pub exponent : Parser (Unit {0})
exponent [] = parsed tt []
exponent (c ∷ cs) =
    if c == b'e' || c == b'E'
    then digits (codes "number exponent has no digits") (skip_sign cs)
    else parsed tt (c ∷ cs)

unfoldable pub skip_number : Parser (Unit {0})
skip_number = do minus_sign; integer_part; fraction; exponent

-- text_.substr(start, position_ - start), for the text from `start` on.
abbrev pub number_text : List ℕ → Parser JsonValue
number_text text rest = parsed (number (take (length text - length rest) text)) rest

unfoldable pub parse_number : Parser JsonValue
parse_number text = then_parse (λ _. number_text text) (skip_number text)
