-- ===== src/Json/StringOutcomes.antt =====
-- ParseString and ParseNumber take characters, never run out of fuel, and give valid UTF-8.
use ziliu_ime.Base.{
  ℕ, zero, suc, ◌+◌, ◌-◌, ◌<◌, ◌≤◌, ◌≡◌, true, Option, none, some, List, [], ◌∷◌, ◌++◌, length,
  drop, length-drop, ◌==◌, arith, Bool-cases, inl, inr,
}
use ziliu_ime.Json.Types.{then_parse, consume}
use ziliu_ime.Json.Utf.{is_valid_utf8}
use ziliu_ime.Json.Strings.{
  quad_value, quad_result, parse_hex_quad, join_low, escaped_code_point, appended, unicode_escape,
  escape, string_character, string_end, string_loop, string_body, parse_string,
}
use ziliu_ime.Json.Outcomes.{Outcome, Takes, Anything, then_parse-Outcome, weaken, consume-Takes}

abbrev pub IsText : List ℕ → Type 0
IsText text = is_valid_utf8 text ≡ true

quad_result-Outcome :
    (o : Option ℕ) (text : List ℕ) (d n : ℕ)
    → length text + d ≤ n
    → 4 ≤ length text
    → Outcome Anything (d + 4) n (quad_result text o)
quad_result-Outcome none text d n le four = omega arith
quad_result-Outcome (some v) text d n le four = (tt, omega (arith, length-drop 4 text))

parse_hex_quad-Takes : Takes 4 Anything parse_hex_quad
unfolding parse_hex_quad
parse_hex_quad-Takes text d n le =
    ground (arith, quad_result-Outcome (quad_value 4 0 text) text d n)

join_low-Outcome :
    (high low : ℕ) (rest : List ℕ) (d n : ℕ)
    → length rest + d ≤ n
    → Outcome Anything d n (join_low high low rest)
join_low-Outcome high low rest d n le = ground arith

low_surrogate-Outcome :
    (high : ℕ) (text : List ℕ) (d n : ℕ)
    → length text + d ≤ n
    → Outcome Anything (d + 0) n (then_parse (join_low high) (parse_hex_quad text))
low_surrogate-Outcome high text d n le =
    then_parse-Outcome Anything Anything (d + 4) (d + 0) n (join_low high) (parse_hex_quad text)
      (parse_hex_quad-Takes text d n le)
      (λ low rest _ k. join_low-Outcome high low rest (d + 0) n (omega arith))

escaped_code_point-Takes : (c : ℕ) → Takes 0 Anything (escaped_code_point c)
unfolding escaped_code_point
escaped_code_point-Takes c text d n le =
    let pair = low_surrogate-Outcome c (drop 2 text) d n (omega (arith, length-drop 2 text)) in
    ground arith

unicode_escape-Takes : Takes 0 Anything unicode_escape
unfolding unicode_escape
unicode_escape-Takes text d n le =
    then_parse-Outcome Anything Anything (d + 4) (d + 0) n _ (parse_hex_quad text)
      (parse_hex_quad-Takes text d n le)
      (λ c rest _ k.
        then_parse-Outcome Anything Anything (d + 0) (d + 0) n appended (escaped_code_point c rest)
          (escaped_code_point-Takes c rest d n (omega arith)) (λ full last _ k'. (tt, k')))

escape-Takes : Takes 0 Anything escape
unfolding escape
escape-Takes [] d n le = omega arith
escape-Takes (c ∷ rest) d n le =
    let inner = unicode_escape-Takes rest d n (omega arith) in ground arith

string_character-Takes : (c : ℕ) → Takes 0 Anything (string_character c)
unfolding string_character
string_character-Takes c rest d n le = let inner = escape-Takes rest d n le in ground arith

string_end-Takes : (output : List ℕ) → Takes 0 IsText (string_end output)
unfolding string_end
string_end-Takes output rest d n le = ground arith

string_loop-Outcome :
    (fuel : ℕ) (output text : List ℕ) (d n : ℕ)
    → length text + d ≤ n
    → length text < fuel
    → Outcome IsText (d + 0) n (string_loop fuel output text)
unfolding string_loop
string_loop-Outcome zero output text d n le lt = absurd (omega arith)
string_loop-Outcome (suc fuel) output [] d n le lt = omega arith
string_loop-Outcome (suc fuel) output (c ∷ rest) d n le lt =
    let next : Outcome IsText (d + 0) n
        (then_parse (λ bytes. string_loop fuel (output ++ bytes)) (string_character c rest)) =
      then_parse-Outcome Anything IsText (n - length rest + 0) (d + 0) n _ (string_character c rest)
        (string_character-Takes c rest (n - length rest) n (omega arith))
        (λ bytes more _ k.
          string_loop-Outcome fuel (output ++ bytes) more d n (omega arith) (omega arith)) in
    let end = string_end-Takes output rest d n (omega arith) in
    elim (Bool-cases (c == b'"')) [ inl quote ↦ rw quote end | inr other ↦ rw other next ]

pub parse_string-Takes : Takes 1 IsText parse_string
unfolding parse_string
parse_string-Takes text d n le =
    then_parse-Outcome Anything IsText (d + 1) (d + 1) n _ (consume b'"' text)
      (consume-Takes b'"' text d n le)
      (λ _ rest _ k.
        weaken IsText (d + 1 + 0) (d + 1) n (string_body rest) (omega arith)
          (string_loop-Outcome (suc (length rest)) [] rest (d + 1) n k (omega arith)))
