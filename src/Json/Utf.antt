-- ===== src/Json/Utf.antt =====
-- IsValidUtf8 and AppendUtf8 of core/src/theme_manifest.cpp. Shifts and the masks of low bits are
-- written as `/`, `*` and `%`; the bits that are set and tested are `bit_or` and `bit_and`.
use ziliu_ime.Base.{
  ℕ, zero, suc, ◌*◌, ◌/◌, ◌%◌, ◌^◌, bit_and, bit_or, Bool, true, false, ◌&&◌, ◌||◌, Option, none,
  some, List, [], ◌∷◌, ltb, leb, ◌==◌, if◌then◌else◌, length, ◌>>=◌,
}

-- A first byte beyond 0x7F: `continuation_count`, `code_point` and `minimum`.
unfoldable pub sequence_head : ℕ → Option (ℕ × ℕ × ℕ)
sequence_head first =
    if bit_and first 0xE0 == 0xC0
    then some (1, first % 0x20, 0x80)
    else if bit_and first 0xF0 == 0xE0
    then some (2, first % 0x10, 0x800)
    else if bit_and first 0xF8 == 0xF0
    then some (3, first % 0x08, 0x10000)
    else none

-- The loop over the continuation bytes: the code point and what follows.
unfoldable pub sequence_tail : ℕ → ℕ → List ℕ → Option (ℕ × List ℕ)
sequence_tail zero code_point text = some (code_point, text)
sequence_tail (suc n) code_point [] = none
sequence_tail (suc n) code_point (next ∷ text) =
    let more = sequence_tail n (bit_or (code_point * 2 ^ 6) (next % 0x40)) text in
    if bit_and next 0xC0 == 0x80 then more else none

-- One round of IsValidUtf8: what follows the sequence, or the result false. `text` is what follows
-- the first byte, so `index + continuation_count >= text.size()` says that it is too short.
unfoldable pub after_sequence : ℕ → List ℕ → Option (List ℕ)
after_sequence first text = if leb first 0x7F then some text else do
  (continuation_count, bits, minimum) ← sequence_head first
  (code_point, rest) ←
      if ltb (length text) continuation_count
      then none
      else sequence_tail continuation_count bits text
  if ltb code_point minimum
        || ltb 0x10FFFF code_point
        || (leb 0xD800 code_point && leb code_point 0xDFFF)
      then none
      else some rest

-- The loop. Each round takes a byte at least, so `length text` rounds are enough.
abbrev pub when_some : (List ℕ → Bool) → Option (List ℕ) → Bool
when_some more none = false
when_some more (some rest) = more rest

unfoldable pub is_valid_utf8_loop : ℕ → List ℕ → Bool
is_valid_utf8_loop fuel [] = true
is_valid_utf8_loop zero (first ∷ text) = false
is_valid_utf8_loop (suc fuel) (first ∷ text) =
    when_some (is_valid_utf8_loop fuel) (after_sequence first text)

unfoldable pub is_valid_utf8 : List ℕ → Bool
is_valid_utf8 text = is_valid_utf8_loop (length text) text

-- What AppendUtf8 appends.
unfoldable pub append_utf8 : ℕ → List ℕ
append_utf8 code_point =
    if leb code_point 0x7F
    then code_point ∷ []
    else if leb code_point 0x7FF
    then bit_or 0xC0 (code_point / 2 ^ 6) ∷ bit_or 0x80 (code_point % 0x40) ∷ []
    else if leb code_point 0xFFFF
    then bit_or 0xE0 (code_point / 2 ^ 12)
      ∷ bit_or 0x80 (code_point / 2 ^ 6 % 0x40)
      ∷ bit_or 0x80 (code_point % 0x40)
      ∷ []
    else bit_or 0xF0 (code_point / 2 ^ 18)
      ∷ bit_or 0x80 (code_point / 2 ^ 12 % 0x40)
      ∷ bit_or 0x80 (code_point / 2 ^ 6 % 0x40)
      ∷ bit_or 0x80 (code_point % 0x40)
      ∷ []
