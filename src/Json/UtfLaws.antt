-- ===== src/Json/UtfLaws.antt =====
-- IsValidUtf8 and AppendUtf8 of core/src/theme_manifest.cpp against the text conversions of
-- core/src/ipc_protocol.cpp, which are written apart from them.
use ziliu_ime.Base.{
  ℕ, zero, suc, ◌*◌, ◌%◌, ◌^◌, ◌≡◌, refl, bit_or, Bool, true, false, Option, none, some, List, [],
  ◌∷◌, arith, length, Option-cases, inl, inr,
}
use ziliu_ime.Ipc.Utf.{
  code_point_bytes, lead_byte, continue_code_point, minimum_code_point, decode_code_point,
  from_utf8_loop, from_utf8,
}
use ziliu_ime.Json.Utf.{
  sequence_head, sequence_tail, after_sequence, is_valid_utf8_loop, is_valid_utf8, append_utf8,
}

sequence_tail-continue_code_point :
    (n cp : ℕ) (text : List ℕ) → sequence_tail n cp text ≡ continue_code_point n cp text
unfolding sequence_tail continue_code_point
sequence_tail-continue_code_point zero cp text = refl
sequence_tail-continue_code_point (suc n) cp [] = refl
sequence_tail-continue_code_point (suc n) cp (next ∷ text) =
    rw (sequence_tail-continue_code_point n (bit_or (cp * 2 ^ 6) (next % 0x40)) text) refl

abbrev rest_of : Option (ℕ × List ℕ) → Option (List ℕ)
rest_of none = none
rest_of (some (cp, rest)) = some rest

continue_none : (cp : ℕ) (text : List ℕ) → continue_code_point 0 cp text ≡ some (cp, text)
unfolding continue_code_point
continue_none cp text = refl

after_sequence-decode :
    (first : ℕ) (text : List ℕ)
    → after_sequence first text ≡ rest_of (decode_code_point (first ∷ text))
unfolding after_sequence sequence_head decode_code_point lead_byte minimum_code_point
after_sequence-decode first text = ground (
  arith,
  sequence_tail-continue_code_point 1 (first % 0x20) text,
  sequence_tail-continue_code_point 2 (first % 0x10) text,
  sequence_tail-continue_code_point 3 (first % 0x08) text,
  continue_none first text,
)

abbrev pub accepts : Option (List ℕ) → Bool
accepts none = false
accepts (some text) = true

loop-decode :
    (fuel : ℕ) (text : List ℕ) → is_valid_utf8_loop fuel text ≡ accepts (from_utf8_loop fuel text)
unfolding is_valid_utf8_loop from_utf8_loop
loop-decode fuel [] = refl
loop-decode zero (b ∷ text) = refl
loop-decode (suc fuel) (b ∷ text) = elim (Option-cases (decode_code_point (b ∷ text))) [
  | inl bad ↦ rw (after_sequence-decode b text, bad) refl
  | inr ((cp, rest), good) ↦
      rw (after_sequence-decode b text, good, loop-decode fuel rest)
        (elim (Option-cases (from_utf8_loop fuel rest)) [
          | inl none' ↦ rw none' refl
          | inr (tail, some') ↦ rw some' refl
        ])
]

-- IsValidUtf8 holds for exactly the byte strings that the protocol's Reader::FromUtf8 accepts.
pub is_valid_utf8-from_utf8 : (text : List ℕ) → is_valid_utf8 text ≡ accepts (from_utf8 text)
unfolding is_valid_utf8 from_utf8
is_valid_utf8-from_utf8 text = loop-decode (length text) text

-- AppendUtf8 appends what the protocol's Writer::AppendCodePoint does, where that accepts the code point.
pub append_utf8-code_point_bytes :
    (cp : ℕ) (bytes : List ℕ) → code_point_bytes cp ≡ some bytes → append_utf8 cp ≡ bytes
unfolding append_utf8 code_point_bytes
append_utf8-code_point_bytes cp bytes h = ground arith
