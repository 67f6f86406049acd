-- ===== src/Ipc/Utf/Scalars.antt =====
-- One code point in UTF-8: a round of FromUtf8 on what AppendCodePoint writes.
use ziliu_ime.Base.{
  ℕ, zero, suc, ◌+◌, ◌*◌, ◌/◌, ◌%◌, ◌^◌, ◌<◌, ◌≤◌, ◌≡◌, refl, bit_or, false, some, List, ◌∷◌, ◌++◌,
  arith,
}
use ziliu_ime.Ipc.Utf.{
  is_surrogate, continuation, code_point_bytes, lead_byte, continue_code_point, minimum_code_point,
  decode_code_point,
}
use ziliu_ime.Ipc.Utf.Masks.{
  set_C0, set_E0, set_F0, test_C0, test_E0, test_F0, test_F8, join_six, continuation_lem,
}

-- A continuation byte passes the test of the loop, and its six bits join the code point.
continue_step :
    (n cp x : ℕ) (rest : List ℕ)
    → continue_code_point (suc n) cp (continuation x ∷ rest)
      ≡ continue_code_point n (cp * 64 + x % 64) rest
unfolding continue_code_point
continue_step n cp x rest =
    ground (arith, continuation_lem x, test_C0 (continuation x), join_six cp (continuation x))

continue_done : (cp : ℕ) (rest : List ℕ) → continue_code_point zero cp rest ≡ some (cp, rest)
unfolding continue_code_point
continue_done cp rest = refl

-- One round of FromUtf8 at each of the four lengths.
decode_one_byte :
    (cp : ℕ) (rest : List ℕ) → cp ≤ 0x7F → decode_code_point (cp ∷ rest) ≡ some (cp, rest)
unfolding decode_code_point lead_byte minimum_code_point continue_code_point
decode_one_byte cp rest h = ground arith

lead_of_two : (x : ℕ) → x < 32 → lead_byte (bit_or 0xC0 x) ≡ some (x, 1)
unfolding lead_byte
lead_of_two x h = ground (arith, set_C0 x, test_E0 (bit_or 0xC0 x))

lead_of_three : (x : ℕ) → x < 16 → lead_byte (bit_or 0xE0 x) ≡ some (x, 2)
unfolding lead_byte
lead_of_three x h = ground (arith, set_E0 x, test_E0 (bit_or 0xE0 x), test_F0 (bit_or 0xE0 x))

lead_of_four : (x : ℕ) → x < 8 → lead_byte (bit_or 0xF0 x) ≡ some (x, 3)
unfolding lead_byte
lead_of_four x h =
    ground
      (arith, set_F0 x, test_E0 (bit_or 0xF0 x), test_F0 (bit_or 0xF0 x), test_F8 (bit_or 0xF0 x))

decode_two_bytes :
    (cp : ℕ) (rest : List ℕ)
    → 0x7F < cp
    → cp ≤ 0x7FF
    → decode_code_point (bit_or 0xC0 (cp / 2 ^ 6) ∷ continuation cp ∷ rest) ≡ some (cp, rest)
unfolding decode_code_point minimum_code_point
decode_two_bytes cp rest lo hi = rw (lead_of_two (cp / 2 ^ 6) (omega arith)) (
    ground
      (arith, continue_step 0 (cp / 2 ^ 6) cp rest, continue_done (cp / 2 ^ 6 * 64 + cp % 64) rest))

decode_three_bytes :
    (cp : ℕ) (rest : List ℕ)
    → 0x7FF < cp
    → cp ≤ 0xFFFF
    → is_surrogate cp ≡ false
    → decode_code_point
        (bit_or 0xE0 (cp / 2 ^ 12) ∷ continuation (cp / 2 ^ 6) ∷ continuation cp ∷ rest)
      ≡ some (cp, rest)
unfolding decode_code_point minimum_code_point
decode_three_bytes cp rest lo hi s = rw (lead_of_three (cp / 2 ^ 12) (omega arith)) (
    ground (
      arith,
      continue_step 1 (cp / 2 ^ 12) (cp / 2 ^ 6) (continuation cp ∷ rest),
      continue_step 0 (cp / 2 ^ 12 * 64 + cp / 2 ^ 6 % 64) cp rest,
      continue_done ((cp / 2 ^ 12 * 64 + cp / 2 ^ 6 % 64) * 64 + cp % 64) rest,
    ))

decode_four_bytes :
    (cp : ℕ) (rest : List ℕ)
    → 0xFFFF < cp
    → cp ≤ 0x10FFFF
    → decode_code_point (
        bit_or 0xF0 (cp / 2 ^ 18)
        ∷ continuation (cp / 2 ^ 12)
        ∷ continuation (cp / 2 ^ 6)
        ∷ continuation cp
        ∷ rest)
      ≡ some (cp, rest)
unfolding decode_code_point minimum_code_point
decode_four_bytes cp rest lo hi =
    let a = cp / 2 ^ 18 * 64 + cp / 2 ^ 12 % 64 in
    let b = a * 64 + cp / 2 ^ 6 % 64 in
    rw (lead_of_four (cp / 2 ^ 18) (omega arith)) (
      ground (
        arith,
        continue_step 2 (cp / 2 ^ 18) (cp / 2 ^ 12)
            (continuation (cp / 2 ^ 6) ∷ continuation cp ∷ rest),
        continue_step 1 a (cp / 2 ^ 6) (continuation cp ∷ rest),
        continue_step 0 b cp rest,
        continue_done (b * 64 + cp % 64) rest,
      ))

pub decode-code_point_bytes :
    (cp : ℕ) (bytes rest : List ℕ)
    → code_point_bytes cp ≡ some bytes
    → decode_code_point (bytes ++ rest) ≡ some (cp, rest)
unfolding code_point_bytes
decode-code_point_bytes cp bytes rest h = ground (
  arith,
  decode_one_byte cp rest,
  decode_two_bytes cp rest,
  decode_three_bytes cp rest,
  decode_four_bytes cp rest,
)
