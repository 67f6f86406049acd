-- ===== src/Json/NumberOutcomes.antt =====
-- ParseNumber takes no character back, and where it is called at a digit or a sign it takes one.
use ziliu_ime.Base.{ℕ, ◌+◌, ◌≤◌, ◌≡◌, true, ◌&&◌, List, [], ◌∷◌, length, leb, arith}
use ziliu_ime.Settings.Types.{codes}
use ziliu_ime.Json.Types.{JsonValue, number}
use ziliu_ime.Json.Numbers.{
  skip_digits, minus_sign, after_zero, integer_part, digits, fraction, skip_sign, exponent,
  skip_number, number_text, parse_number,
}
use ziliu_ime.Json.Outcomes.{Takes, Anything, then_parse-Outcome, weaken}

length-skip_digits : (text : List ℕ) → length (skip_digits text) ≤ length text
unfolding skip_digits
length-skip_digits [] = omega arith
length-skip_digits (c ∷ cs) = ground (arith, length-skip_digits cs)

length-skip_sign : (text : List ℕ) → length (skip_sign text) ≤ length text
length-skip_sign [] = omega arith
length-skip_sign (c ∷ cs) = ground arith

digits-Takes : (message : List ℕ) → Takes 0 Anything (digits message)
unfolding digits
digits-Takes message text d n le = ground (arith, length-skip_digits text)

minus_sign-Takes : Takes 0 Anything minus_sign
unfolding minus_sign
minus_sign-Takes [] d n le = (tt, omega arith)
minus_sign-Takes (c ∷ []) d n le = ground arith
minus_sign-Takes (c ∷ e ∷ rest) d n le = ground arith

after_zero-Takes : Takes 0 Anything after_zero
after_zero-Takes [] d n le = (tt, omega arith)
after_zero-Takes (c ∷ cs) d n le = ground arith

skip_digits_first :
    (c : ℕ) (cs : List ℕ)
    → (leb b'1' c && leb c b'9') ≡ true
    → length (skip_digits (c ∷ cs)) ≤ length cs
unfolding skip_digits
skip_digits_first c cs h = ground (arith, length-skip_digits cs)

integer_part-Takes : Takes 1 Anything integer_part
unfolding integer_part
integer_part-Takes [] d n le = omega arith
integer_part-Takes (c ∷ cs) d n le =
    let zero' = after_zero-Takes cs (d + 1) n (omega arith) in
    ground (
      arith,
      weaken Anything (d + 1 + 0) (d + 1) n (after_zero cs) (omega arith) zero',
      skip_digits_first c cs,
    )

fraction-Takes : Takes 0 Anything fraction
unfolding fraction
fraction-Takes [] d n le = (tt, omega arith)
fraction-Takes (c ∷ cs) d n le =
    ground (arith, digits-Takes (codes "number fraction has no digits") cs d n (omega arith))

exponent-Takes : Takes 0 Anything exponent
unfolding exponent
exponent-Takes [] d n le = (tt, omega arith)
exponent-Takes (c ∷ cs) d n le = ground (
  arith,
  digits-Takes (codes "number exponent has no digits") (skip_sign cs) d n
      (omega (arith, length-skip_sign cs)),
)

skip_number-Takes : Takes 1 Anything skip_number
unfolding skip_number
skip_number-Takes text d n le =
    then_parse-Outcome Anything Anything (d + 0) (d + 1) n _ (minus_sign text)
      (minus_sign-Takes text d n le)
      (λ _ t1 _ k1.
        then_parse-Outcome Anything Anything (d + 1) (d + 1) n _ (integer_part t1)
          (integer_part-Takes t1 d n (omega arith))
          (λ _ t2 _ k2.
            then_parse-Outcome Anything Anything (d + 1 + 0) (d + 1) n _ (fraction t2)
              (fraction-Takes t2 (d + 1) n k2)
              (λ _ t3 _ k3.
                weaken Anything (d + 1 + 0) (d + 1) n (exponent t3) (omega arith)
                  (exponent-Takes t3 (d + 1) n (omega arith)))))

pub parse_number-Takes :
    (P : JsonValue → Type 0) → ((text : List ℕ) → P (number text)) → Takes 1 P parse_number
unfolding parse_number
parse_number-Takes P p text d n le =
    then_parse-Outcome Anything P (d + 1) (d + 1) n (λ _. number_text text) (skip_number text)
      (skip_number-Takes text d n le) (λ _ rest _ k. (p _, k))
