-- ===== src/Ipc/Utf/RoundTrip.antt =====
-- ToUtf8 and FromUtf8 are inverse on whole texts.
use ziliu_ime.Base.{
  ℕ, zero, suc, ◌+◌, ◌/◌, ◌%◌, ◌^◌, ◌<◌, ◌≤◌, ◌≡◌, refl, false, true, some, List, [], ◌∷◌, ◌++◌,
  Option, ◌⊎◌, inl, inr, arith, All, length, length-append, >>=-eq-some, ap, ◌∙◌, subst, Bool-cases,
  ltb, tests, ◌-◌, All-append, All-append_right,
}
use mathlib.Core.Option.{some-injective}
use ziliu_ime.Ipc.Utf.{
  IsByte, IsUnit, is_surrogate, is_high, is_low, pair_code_point, code_point_bytes, append_bytes,
  to_utf8, decode_code_point, code_point_units, from_utf8_loop, from_utf8,
}
use ziliu_ime.Ipc.Utf.Scalars.{decode-code_point_bytes}
use ziliu_ime.Ipc.Utf.Reads.{decode_code_point-Read}

-- What AppendCodePoint writes has a byte at least.
length-code_point_bytes :
    (cp : ℕ) {front : List ℕ} → code_point_bytes cp ≡ some front → 0 < length front
unfolding code_point_bytes
length-code_point_bytes cp h = ground arith

-- One round on the bytes of a code point.
round :
    (fuel cp : ℕ) (front rest tail : List ℕ)
    → code_point_bytes cp ≡ some front
    → from_utf8_loop fuel rest ≡ some tail
    → from_utf8_loop (suc fuel) (front ++ rest) ≡ some (code_point_units cp ++ tail)
unfolding from_utf8_loop
round fuel cp [] rest tail h e = absurd (omega (arith, length-code_point_bytes cp h))
round fuel cp (b ∷ front) rest tail h e = rw (decode-code_point_bytes cp (b ∷ front) rest h) (rw e)

-- Inversion of one append.
pub append_bytes-eq-some :
    (cp : ℕ) (r : Option (List ℕ)) {bytes : List ℕ}
    → append_bytes cp r ≡ some bytes
    → (front : List ℕ) × (tail : List ℕ) × (code_point_bytes cp ≡ some front)
      × (r ≡ some tail)
      × (bytes ≡ front ++ tail)
append_bytes-eq-some cp r h =
    let (front, e, h') = >>=-eq-some (code_point_bytes cp) _ h in
    let (tail, e', h'') = >>=-eq-some r _ h' in (front, tail, e, e', cc)

-- A text that ToUtf8 accepts begins with a pair or with a unit that is no surrogate.
pub to_utf8_single :
    (u : ℕ) (bytes : List ℕ) → to_utf8 (u ∷ []) ≡ some bytes → append_bytes u (some []) ≡ some bytes
unfolding to_utf8
to_utf8_single u bytes h = ground arith

pub to_utf8_cases :
    (u next : ℕ) (rest bytes : List ℕ)
    → to_utf8 (u ∷ next ∷ rest) ≡ some bytes
    → ((is_high u ≡ true)
        × (is_low next ≡ true)
        × (append_bytes (pair_code_point u next) (to_utf8 rest) ≡ some bytes))
      ⊎ (append_bytes u (to_utf8 (next ∷ rest)) ≡ some bytes)
unfolding to_utf8
to_utf8_cases u next rest bytes h = ground arith

pub units_of_pair :
    (u next : ℕ)
    → is_high u ≡ true
    → is_low next ≡ true
    → code_point_units (pair_code_point u next) ≡ u ∷ next ∷ []
unfolding code_point_units
units_of_pair u next h l = ground arith

pub units_of_unit : (u : ℕ) → IsUnit u → code_point_units u ≡ u ∷ []
unfolding code_point_units
units_of_unit u h = ground arith

-- One append, read back by the loop, if what follows is.
read_append :
    (fuel cp : ℕ) (r : Option (List ℕ)) (bytes text : List ℕ)
    → append_bytes cp r ≡ some bytes
    → length bytes ≤ fuel
    → ((f : ℕ) (tail : List ℕ)
        → r ≡ some tail
        → length tail ≤ f
        → from_utf8_loop f tail ≡ some text)
    → from_utf8_loop fuel bytes ≡ some (code_point_units cp ++ text)
read_append zero cp r bytes text h le ih =
    let (front, tail, e, _, e'') = append_bytes-eq-some cp r h in
    absurd (omega (arith, length-code_point_bytes cp e, length-append front tail, ap length e''))
read_append (suc fuel) cp r bytes text h le ih =
    let (front, tail, e, e', e'') = append_bytes-eq-some cp r h in
    rw e'' (
      round fuel cp front tail text e (
        ih fuel tail e'
          (omega (arith, length-code_point_bytes cp e, length-append front tail, ap length e''))))

loop-to_utf8 :
    (text : List ℕ) (fuel : ℕ) (bytes : List ℕ)
    → All IsUnit text
    → to_utf8 text ≡ some bytes
    → length bytes ≤ fuel
    → from_utf8_loop fuel bytes ≡ some text
loop-to_utf8 [] fuel bytes lt h le = unfold to_utf8 from_utf8_loop in ground arith
loop-to_utf8 (u ∷ []) fuel bytes lt h le = rw (units_of_unit u lt.0) at (
    read_append fuel u (some []) bytes [] (to_utf8_single u bytes h) le
      (λ f tail e le'. unfold from_utf8_loop in ground arith))
loop-to_utf8 (u ∷ next ∷ rest) fuel bytes lt h le = elim (to_utf8_cases u next rest bytes h) [
  | inl (hi, lo, e) ↦ rw (units_of_pair u next hi lo) at (
      read_append fuel (pair_code_point u next) (to_utf8 rest) bytes rest e le
        (λ f tail e' le'. loop-to_utf8 rest f tail lt.1.1 e' le'))
  | inr e ↦ rw (units_of_unit u lt.0) at (
      read_append fuel u (to_utf8 (next ∷ rest)) bytes (next ∷ rest) e le
        (λ f tail e' le'. loop-to_utf8 (next ∷ rest) f tail lt.1 e' le'))
]

-- Reader::FromUtf8 reads back the UTF-16 text that Writer::ToUtf8 accepted, surrogate pairs
-- included; so no two texts have one encoding.
pub from_utf8-to_utf8 :
    (text bytes : List ℕ)
    → All IsUnit text
    → to_utf8 text ≡ some bytes
    → from_utf8 bytes ≡ some text
unfolding from_utf8
from_utf8-to_utf8 text bytes lt h = loop-to_utf8 text (length bytes) bytes lt h (omega arith)

-- ToUtf8 on the units of a code point, and on what follows them.
to_utf8_pair :
    (high low : ℕ) (rest : List ℕ)
    → is_high high ≡ true
    → is_low low ≡ true
    → to_utf8 (high ∷ low ∷ rest) ≡ append_bytes (pair_code_point high low) (to_utf8 rest)
unfolding to_utf8
to_utf8_pair high low rest h l = ground arith

to_utf8_unit :
    (u : ℕ) (text : List ℕ)
    → is_surrogate u ≡ false
    → to_utf8 (u ∷ text) ≡ append_bytes u (to_utf8 text)
unfolding to_utf8
to_utf8_unit u [] s = ground arith
to_utf8_unit u (next ∷ text) s = ground arith

to_utf8_units :
    (cp : ℕ) (text : List ℕ)
    → is_surrogate cp ≡ false
    → cp ≤ 0x10FFFF
    → (to_utf8 (code_point_units cp ++ text) ≡ append_bytes cp (to_utf8 text))
      × All IsUnit (code_point_units cp)
unfolding code_point_units
to_utf8_units cp text s hi =
    let high = 0xD800 + (cp - 0x10000) / 2 ^ 10 in
    let low = 0xDC00 + (cp - 0x10000) % 2 ^ 10 in
    elim (Bool-cases (ltb 0xFFFF cp)) [
      | inl wide ↦
          let same : pair_code_point high low ≡ cp = omega tests in
          rw wide (
            subst (λ c. to_utf8 (high ∷ low ∷ text) ≡ append_bytes c (to_utf8 text)) same
                (to_utf8_pair high low text (ground arith) (ground arith)),
            omega tests,
          )
      | inr narrow ↦ rw narrow (to_utf8_unit cp text s, ground arith)
    ]

loop-from_utf8 :
    (fuel : ℕ) (bytes text : List ℕ)
    → All IsByte bytes
    → from_utf8_loop fuel bytes ≡ some text
    → (to_utf8 text ≡ some bytes) × All IsUnit text
unfolding from_utf8_loop
loop-from_utf8 fuel [] text lt h =
    subst (λ t. (to_utf8 t ≡ some []) × All IsUnit t) (some-injective _ _ h)
      (unfold to_utf8 in (refl, tt))
loop-from_utf8 zero (b ∷ bytes) text lt h = cc
loop-from_utf8 (suc fuel) (b ∷ bytes) text lt h =
    let ((cp, rest), d, h') = >>=-eq-some (decode_code_point (b ∷ bytes)) _ h in
    let (tail, e, h'') = >>=-eq-some (from_utf8_loop fuel rest) _ h' in
    let (front, w, e', s, hi) = decode_code_point-Read (b ∷ bytes) cp rest lt d in
    let lt' = All-append_right IsByte front rest (subst (All IsByte) e' lt) in
    let (back, units) = loop-from_utf8 fuel rest tail lt' e in
    let (one, units') = to_utf8_units cp tail s hi in
    subst (λ t. (to_utf8 t ≡ some (b ∷ bytes)) × All IsUnit t) (some-injective _ _ h'')
      (one ∙ rw (w, back, e'), All-append IsUnit (code_point_units cp) tail units' units)

-- A byte string that Reader::FromUtf8 accepts is the one that Writer::ToUtf8 writes for the result,
-- and the result holds UTF-16 code units.
pub to_utf8-from_utf8 :
    (bytes text : List ℕ)
    → All IsByte bytes
    → from_utf8 bytes ≡ some text
    → (to_utf8 text ≡ some bytes) × All IsUnit text
unfolding from_utf8
to_utf8-from_utf8 bytes text lt h = loop-from_utf8 (length bytes) bytes text lt h
