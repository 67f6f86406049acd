-- ===== src/Json/ValueOutcomes.antt =====
-- ParseValue, ParseObject, ParseArray and Parse: what they may give back.
use ziliu_ime.Base.{
  ℕ, zero, suc, ◌+◌, ◌-◌, ◌<◌, ◌≤◌, ◌≡◌, ◌≢◌, subst, true, false, Option, none, some, List, [], ◌∷◌,
  length, take, length-drop, text_eq, arith, Bool-cases, inl, inr,
}
use ziliu_ime.Settings.Types.{codes}
use ziliu_ime.Json.Types.{
  JsonValue, Items, Members, null, boolean, array, object, no_items, no_members, Parsed, parsed,
  failed, unfinished, Parser, then_parse, skip_whitespace, consume,
}
use ziliu_ime.Json.Strings.{parse_string}
use ziliu_ime.Json.Values.{
  maximum_json_depth, push_back, emplace, emplaced, consume_literal, array_loop, object_loop,
  parse_array, parse_object, string_value, value_at, parse_value, at_end, parse_json,
}
use ziliu_ime.Json.Outcomes.{
  Outcome, Takes, Anything, then_parse-Outcome, close_or-Outcome, length-skip_whitespace,
  consume-Takes,
}
use ziliu_ime.Json.StringOutcomes.{IsText, parse_string-Takes}
use ziliu_ime.Json.NumberOutcomes.{parse_number-Takes}
use ziliu_ime.Json.Invariant.{
  IsJson, AreItems, AreMembers, WhenSome, push_back-AreItems, emplace-AreMembers,
}

emplaced-Outcome :
    (levels : ℕ) (o : Option Members) (rest : List ℕ) (d n : ℕ)
    → length rest + d ≤ n
    → WhenSome (AreMembers levels) o
    → Outcome (AreMembers levels) d n (emplaced o rest)
emplaced-Outcome levels none rest d n le h = omega arith
emplaced-Outcome levels (some table) rest d n le h = (h, le)

-- The parser of the values one level deeper.
module _ (levels : ℕ) (parse : Parser JsonValue) (inner : Takes 1 (IsJson levels) parse) where
  array_loop-Outcome :
      (fuel : ℕ) (items : Items) (text : List ℕ) (d n : ℕ)
      → length text + d ≤ n
      → length text < fuel
      → AreItems levels items
      → Outcome (IsJson (suc levels)) d n (array_loop parse fuel items text)
  unfolding array_loop IsJson
  array_loop-Outcome zero items text d n le lt h = absurd (omega arith)
  array_loop-Outcome (suc fuel) items text d n le lt h =
      let e = n - length text in
      then_parse-Outcome (IsJson levels) (IsJson (suc levels)) (e + 1) d n _ (parse text)
        (inner text e n (omega arith))
        (λ value t1 v k1.
          let more = push_back-AreItems levels items value h v in
          let t2 = skip_whitespace t1 in
          let le2 : length t2 ≤ length t1 = length-skip_whitespace t1 in
          close_or-Outcome (IsJson (suc levels)) d n b']' (array (push_back items value)) _ t2
            (omega arith) more
            (then_parse-Outcome Anything (IsJson (suc levels)) (e + 1) d n _ (consume b',' t2)
              (consume-Takes b',' t2 e n (omega arith))
              (λ _ t3 _ k3.
                array_loop-Outcome fuel (push_back items value) t3 d n (omega arith) (omega arith)
                  more)))

  -- The table after a key: the value, the insertion and what follows.
  object_loop-Outcome :
      (fuel : ℕ) (table : Members) (text : List ℕ) (d n : ℕ)
      → length text + d ≤ n
      → length text < fuel
      → AreMembers levels table
      → Outcome (IsJson (suc levels)) d n (object_loop parse fuel table text)
  unfolding object_loop IsJson
  object_loop-Outcome zero table text d n le lt h = absurd (omega arith)
  object_loop-Outcome (suc fuel) table text d n le lt h =
      let e = n - length text in
      let s0 = skip_whitespace text in
      let le0 : length s0 ≤ length text = length-skip_whitespace text in
      then_parse-Outcome IsText (IsJson (suc levels)) (e + 1) d n _ (parse_string s0)
        (parse_string-Takes s0 e n (omega arith))
        (λ key t1 k k1.
          let s1 = skip_whitespace t1 in
          let le1 : length s1 ≤ length t1 = length-skip_whitespace t1 in
          then_parse-Outcome Anything (IsJson (suc levels)) (e + 1) d n _ (consume b':' s1)
            (consume-Takes b':' s1 e n (omega arith))
            (λ _ t2 _ k2.
              then_parse-Outcome (IsJson levels) (IsJson (suc levels)) (e + 1) d n _ (parse t2)
                (inner t2 e n (omega arith))
                (λ value t3 v k3.
                  then_parse-Outcome (AreMembers levels) (IsJson (suc levels)) e d n _
                    (emplaced (emplace key value table) t3)
                    (emplaced-Outcome levels (emplace key value table) t3 e n (omega arith)
                      (emplace-AreMembers levels key value table k v h))
                    (λ more t4 m k4.
                      let s4 = skip_whitespace t4 in
                      let le4 : length s4 ≤ length t4 = length-skip_whitespace t4 in
                      close_or-Outcome (IsJson (suc levels)) d n b'}' (object more) _ s4
                        (omega arith) m
                        (then_parse-Outcome Anything (IsJson (suc levels)) (e + 1) d n _
                          (consume b',' s4) (consume-Takes b',' s4 e n (omega arith))
                          (λ _ t5 _ k5.
                            object_loop-Outcome fuel more t5 d n (omega arith) (omega arith) m))))))

  parse_array-Takes : Takes 1 (IsJson (suc levels)) (parse_array parse)
  unfolding parse_array
  parse_array-Takes text d n le =
      then_parse-Outcome Anything (IsJson (suc levels)) (d + 1) (d + 1) n _ (consume b'[' text)
        (consume-Takes b'[' text d n le)
        (λ _ t1 _ k1.
          let t2 = skip_whitespace t1 in
          let le2 : length t2 + (d + 1) ≤ n = omega (arith, length-skip_whitespace t1) in
          close_or-Outcome (IsJson (suc levels)) (d + 1) n b']' (array no_items) _ t2 le2
            (unfold IsJson in tt)
            (array_loop-Outcome (suc (length t2)) no_items t2 (d + 1) n le2 (omega arith)
              (unfold IsJson in tt)))

  parse_object-Takes : Takes 1 (IsJson (suc levels)) (parse_object parse)
  unfolding parse_object
  parse_object-Takes text d n le =
      then_parse-Outcome Anything (IsJson (suc levels)) (d + 1) (d + 1) n _ (consume b'{' text)
        (consume-Takes b'{' text d n le)
        (λ _ t1 _ k1.
          let t2 = skip_whitespace t1 in
          let le2 : length t2 + (d + 1) ≤ n = omega (arith, length-skip_whitespace t1) in
          close_or-Outcome (IsJson (suc levels)) (d + 1) n b'}' (object no_members) _ t2 le2
            (unfold IsJson in tt)
            (object_loop-Outcome (suc (length t2)) no_members t2 (d + 1) n le2 (omega arith)
              (unfold IsJson in tt)))

  string_value-Takes :
      Takes 1 (IsJson (suc levels)) (λ text. then_parse string_value (parse_string text))
  string_value-Takes text d n le =
      then_parse-Outcome IsText (IsJson (suc levels)) (d + 1) (d + 1) n string_value
        (parse_string text) (parse_string-Takes text d n le)
        (λ output rest h k. unfold IsJson in (h, k))

  consume_literal-Outcome :
      (c : ℕ) (literal : List ℕ) (value : JsonValue) (text : List ℕ) (d n : ℕ)
      → length text + d ≤ n
      → 0 < length text
      → IsJson (suc levels) value
      → Outcome (IsJson (suc levels)) (d + 1) n (consume_literal (c ∷ literal) value text)
  unfolding consume_literal
  consume_literal-Outcome c literal value text d n le some_text h =
      let shorter = length-drop (length (c ∷ literal)) text in
      elim (Bool-cases (text_eq (take (length (c ∷ literal)) text) (c ∷ literal))) [
        | inl same ↦ rw same (h, omega arith)
        | inr other ↦ rw other (omega arith)
      ]

  value_at-Takes : Takes 1 (IsJson (suc levels)) (value_at parse)
  unfolding value_at
  value_at-Takes [] d n le = omega arith
  value_at-Takes (next ∷ rest) d n le =
      let some_text : 0 < length (next ∷ rest) = omega arith in
      let stop : length (next ∷ rest) ≤ n = omega arith in
      let obj = parse_object-Takes (next ∷ rest) d n le in
      let arr = parse_array-Takes (next ∷ rest) d n le in
      let str = string_value-Takes (next ∷ rest) d n le in
      let t =
        consume_literal-Outcome b't' (codes "rue") (boolean true) (next ∷ rest) d n le some_text
          (unfold IsJson in tt) in
      let f =
        consume_literal-Outcome b'f' (codes "alse") (boolean false) (next ∷ rest) d n le some_text
          (unfold IsJson in tt) in
      let u =
        consume_literal-Outcome b'n' (codes "ull") null (next ∷ rest) d n le some_text
          (unfold IsJson in tt) in
      let num =
        parse_number-Takes (IsJson (suc levels)) (λ _. unfold IsJson in tt) (next ∷ rest) d n le in
      ground arith

-- Every level.
parse_value-Takes : (levels : ℕ) → Takes 1 (IsJson levels) (parse_value levels)
unfolding parse_value
parse_value-Takes zero text d n le = omega arith
parse_value-Takes (suc levels) text d n le =
    value_at-Takes levels (parse_value levels) (parse_value-Takes levels) (skip_whitespace text) d n
      (omega (arith, length-skip_whitespace text))

abbrev pub IsDocument : JsonValue → Type 0
IsDocument value = IsJson (suc maximum_json_depth) value

at_end-Outcome :
    (value : JsonValue) (text : List ℕ) (n : ℕ)
    → length text ≤ n
    → IsDocument value
    → Outcome IsDocument 0 n (at_end value text)
at_end-Outcome value [] n le h = (h, omega arith)
at_end-Outcome value (c ∷ rest) n le h = le

parse_json-Outcome : (text : List ℕ) → Outcome IsDocument 0 (length text) (parse_json text)
unfolding parse_json
parse_json-Outcome text =
    let n = length text in
    let t0 = skip_whitespace text in
    then_parse-Outcome IsDocument IsDocument 1 0 n _ (parse_value (suc maximum_json_depth) t0)
      (parse_value-Takes (suc maximum_json_depth) t0 0 n
        (omega (arith, length-skip_whitespace text)))
      (λ value rest h k.
        at_end-Outcome value (skip_whitespace rest) n (omega (arith, length-skip_whitespace rest))
          h)

Outcome-parsed :
    (n : ℕ) (r : Parsed JsonValue) {value : JsonValue} {rest : List ℕ}
    → Outcome IsDocument 0 n r
    → r ≡ parsed value rest
    → IsDocument value
Outcome-parsed n r o e = (subst (Outcome IsDocument 0 n) e o).0

-- Parse always ends in a value or in a failure: no loop of the parser runs out of its rounds, whatever
-- the text is.
pub parse_json-finishes : (text : List ℕ) → parse_json text ≢ unfinished
parse_json-finishes text e = subst (Outcome IsDocument 0 (length text)) e (parse_json-Outcome text)

-- A value that Parse gives is nested at most 33 deep, every string and every key in it is valid UTF-8,
-- and the keys of each object stand in strictly ascending order.
pub parse_json-IsDocument :
    (text : List ℕ) (value : JsonValue) (rest : List ℕ)
    → parse_json text ≡ parsed value rest
    → IsDocument value
parse_json-IsDocument text value rest e =
    Outcome-parsed (length text) (parse_json text) (parse_json-Outcome text) e

-- The position that a failure of Parse reports lies in the text or at its end.
pub parse_json-position :
    (text message rest : List ℕ) → parse_json text ≡ failed message rest → length rest ≤ length text
parse_json-position text message rest e =
    subst (Outcome IsDocument 0 (length text)) e (parse_json-Outcome text)
