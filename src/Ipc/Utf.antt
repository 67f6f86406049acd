-- ===== src/Ipc/Utf.antt =====
-- The text conversions of core/src/ipc_protocol.cpp: Writer::AppendCodePoint, Writer::ToUtf8 and
-- Reader::FromUtf8, in their branches for a two-byte wchar_t. Shifts and the masks of low bits are
-- written as `/`, `*` and `%`; the bits that are set and tested are `bit_or` and `bit_and`.
pub mod Masks
pub mod Scalars
pub mod Reads
pub mod RoundTrip
use ziliu_ime.Base.{
  ℕ, zero, suc, ◌+◌, ◌-◌, ◌*◌, ◌/◌, ◌%◌, ◌^◌, ◌<◌, bit_and, bit_or, Bool, true, false, ◌&&◌, ◌||◌,
  Option, none, some, List, [], ◌∷◌, ◌++◌, ltb, leb, ◌==◌, if◌then◌else◌, length, ◌>>=◌,
}

abbrev pub IsByte : ℕ → Type 0
IsByte b = b < 256

abbrev pub IsUnit : ℕ → Type 0
IsUnit u = u < 2 ^ 16

-- `cp` lies in [0xD800, 0xDFFF], in [0xD800, 0xDBFF], in [0xDC00, 0xDFFF].
abbrev pub is_surrogate : ℕ → Bool
is_surrogate cp = leb 0xD800 cp && leb cp 0xDFFF

abbrev pub is_high : ℕ → Bool
is_high u = leb 0xD800 u && leb u 0xDBFF

abbrev pub is_low : ℕ → Bool
is_low u = leb 0xDC00 u && leb u 0xDFFF

-- 0x80 | (bits & 0x3F): the six low bits in a continuation byte.
abbrev pub continuation : ℕ → ℕ
continuation bits = bit_or 0x80 (bits % 0x40)

-- What AppendCodePoint appends, or its failure.
unfoldable pub code_point_bytes : ℕ → Option (List ℕ)
code_point_bytes cp =
    if leb cp 0x7F
    then some (cp ∷ [])
    else if leb cp 0x7FF
    then some (bit_or 0xC0 (cp / 2 ^ 6) ∷ continuation cp ∷ [])
    else if leb cp 0xFFFF
    then (if is_surrogate cp
        then none
        else some (bit_or 0xE0 (cp / 2 ^ 12) ∷ continuation (cp / 2 ^ 6) ∷ continuation cp ∷ []))
    else if leb cp 0x10FFFF
    then some (
        bit_or 0xF0 (cp / 2 ^ 18)
        ∷ continuation (cp / 2 ^ 12)
        ∷ continuation (cp / 2 ^ 6)
        ∷ continuation cp
        ∷ [])
    else none

-- The code point of a surrogate pair.
abbrev pub pair_code_point : ℕ → ℕ → ℕ
pair_code_point high low = 0x10000 + (high - 0xD800) * 2 ^ 10 + (low - 0xDC00)

-- The bytes of one code point, then those of what follows it.
abbrev pub append_bytes : ℕ → Option (List ℕ) → Option (List ℕ)
append_bytes cp rest = do bytes ← code_point_bytes cp; tail ← rest; some (bytes ++ tail)

-- Writer::ToUtf8. `none` is the result false.
unfoldable pub to_utf8 : List ℕ → Option (List ℕ)
to_utf8 [] = some []
to_utf8 (u ∷ []) = if is_high u then none else if is_low u then none else append_bytes u (some [])
to_utf8 (u ∷ next ∷ rest) =
    let after_pair = append_bytes (pair_code_point u next) (to_utf8 rest) in
    let after_one = append_bytes u (to_utf8 (next ∷ rest)) in
    if is_high u
    then (if ltb next 0xDC00 || ltb 0xDFFF next then none else after_pair)
    else if is_low u
    then none
    else after_one

-- The first byte of a sequence: the bits that it gives, and how many bytes continue it.
unfoldable pub lead_byte : ℕ → Option (ℕ × ℕ)
lead_byte first =
    if leb first 0x7F
    then some (first, 0)
    else if bit_and first 0xE0 == 0xC0
    then some (first % 0x20, 1)
    else if bit_and first 0xF0 == 0xE0
    then some (first % 0x10, 2)
    else if bit_and first 0xF8 == 0xF0
    then some (first % 0x08, 3)
    else none

-- The loop over the continuation bytes.
unfoldable pub continue_code_point : ℕ → ℕ → List ℕ → Option (ℕ × List ℕ)
continue_code_point zero cp bytes = some (cp, bytes)
continue_code_point (suc n) cp [] = none
continue_code_point (suc n) cp (next ∷ bytes) =
    let more = continue_code_point n (bit_or (cp * 2 ^ 6) (next % 0x40)) bytes in
    if bit_and next 0xC0 == 0x80 then more else none

unfoldable pub minimum_code_point : ℕ → ℕ
minimum_code_point count =
    if count == 0 then 0 else if count == 1 then 0x80 else if count == 2 then 0x800 else 0x10000

-- One round of FromUtf8 up to its check of the code point.
unfoldable pub decode_code_point : List ℕ → Option (ℕ × List ℕ)
decode_code_point [] = none
decode_code_point (first ∷ bytes) = do
  (bits, count) ← lead_byte first
  (cp, rest) ← if ltb (length bytes) count then none else continue_code_point count bits bytes
  if ltb cp (minimum_code_point count) || ltb 0x10FFFF cp || is_surrogate cp
      then none
      else some (cp, rest)

-- The code units that the round appends.
unfoldable pub code_point_units : ℕ → List ℕ
code_point_units cp =
    if ltb 0xFFFF cp
    then (0xD800 + (cp - 0x10000) / 2 ^ 10) ∷ (0xDC00 + (cp - 0x10000) % 2 ^ 10) ∷ []
    else cp ∷ []

-- FromUtf8's loop. Each round takes a byte at least, so `length bytes` rounds are enough.
unfoldable pub from_utf8_loop : ℕ → List ℕ → Option (List ℕ)
from_utf8_loop fuel [] = some []
from_utf8_loop zero (b ∷ bytes) = none
from_utf8_loop (suc fuel) (b ∷ bytes) = do
  (cp, rest) ← decode_code_point (b ∷ bytes)
  tail ← from_utf8_loop fuel rest
  some (code_point_units cp ++ tail)

-- Reader::FromUtf8. `none` is the result false.
unfoldable pub from_utf8 : List ℕ → Option (List ℕ)
from_utf8 bytes = from_utf8_loop (length bytes) bytes
