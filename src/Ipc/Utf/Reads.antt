-- ===== src/Ipc/Utf/Reads.antt =====
-- One code point in UTF-8, from the reader's side: a round of FromUtf8 that succeeds has read what
-- AppendCodePoint writes, so no longer form and no surrogate passes.
use ziliu_ime.Base.{
  subst, ℕ, zero, suc, ◌+◌, ◌*◌, ◌/◌, ◌%◌, ◌<◌, ◌≤◌, ◌≡◌, false, some, List, [], ◌∷◌, ◌++◌, ◌⊎◌,
  inl, inr, arith, All, >>=-eq-some,
}
use ziliu_ime.Ipc.Utf.{
  IsByte, is_surrogate, code_point_bytes, lead_byte, continue_code_point, minimum_code_point,
  decode_code_point,
}
use ziliu_ime.Ipc.Utf.Masks.{
  set_C0, set_E0, set_F0, test_C0, test_E0, test_F0, test_F8, join_six, continuation_lem,
}

-- The same facts from the reader's side: what a lead byte and a continuation byte must have been.
lead_byte_cases :
    (b bits count : ℕ)
    → b < 256
    → lead_byte b ≡ some (bits, count)
    → ((count ≡ 0) × (b ≡ bits) × (bits ≤ 0x7F))
      ⊎ ((count ≡ 1) × (b ≡ 0xC0 + bits) × (bits < 32))
      ⊎ ((count ≡ 2) × (b ≡ 0xE0 + bits) × (bits < 16))
      ⊎ ((count ≡ 3) × (b ≡ 0xF0 + bits) × (bits < 8))
unfolding lead_byte
lead_byte_cases b bits count lt h = ground (arith, test_E0 b, test_F0 b, test_F8 b)

continue_inv :
    (n cp : ℕ) (bytes : List ℕ) {r : ℕ} {rest : List ℕ}
    → All IsByte bytes
    → continue_code_point (suc n) cp bytes ≡ some (r, rest)
    → (x : ℕ) × (tail : List ℕ) × (bytes ≡ (0x80 + x) ∷ tail)
      × (x < 64)
      × All IsByte tail
      × (continue_code_point n (cp * 64 + x) tail ≡ some (r, rest))
unfolding continue_code_point
continue_inv n cp [] lt h = cc
continue_inv n cp (b ∷ bytes) lt h = (
  b % 64,
  bytes,
  ground (arith, test_C0 b),
  omega arith,
  lt.1,
  ground (arith, test_C0 b, join_six cp b),
)

continue_done_inv :
    (cp : ℕ) (bytes : List ℕ) {r : ℕ} {rest : List ℕ}
    → continue_code_point zero cp bytes ≡ some (r, rest)
    → (cp ≡ r) × (bytes ≡ rest)
unfolding continue_code_point
continue_done_inv cp bytes h = ground arith

-- What the check of the code point leaves.
checked :
    (first bits count : ℕ) (bytes : List ℕ) {cp : ℕ} {rest : List ℕ}
    → lead_byte first ≡ some (bits, count)
    → decode_code_point (first ∷ bytes) ≡ some (cp, rest)
    → (continue_code_point count bits bytes ≡ some (cp, rest))
      × (minimum_code_point count ≤ cp)
      × (cp ≤ 0x10FFFF)
      × (is_surrogate cp ≡ false)
unfolding decode_code_point
checked first bits count bytes lead h = ground arith

-- What AppendCodePoint writes, as sums.
bytes_two :
    (cp : ℕ)
    → 0x7F < cp
    → cp ≤ 0x7FF
    → code_point_bytes cp ≡ some ((0xC0 + cp / 64) ∷ (0x80 + cp % 64) ∷ [])
unfolding code_point_bytes
bytes_two cp lo hi = ground (arith, set_C0 (cp / 64), continuation_lem cp)

bytes_three :
    (cp : ℕ)
    → 0x7FF < cp
    → cp ≤ 0xFFFF
    → is_surrogate cp ≡ false
    → code_point_bytes cp
      ≡ some ((0xE0 + cp / 4096) ∷ (0x80 + cp / 64 % 64) ∷ (0x80 + cp % 64) ∷ [])
unfolding code_point_bytes
bytes_three cp lo hi s =
    ground (arith, set_E0 (cp / 4096), continuation_lem (cp / 64), continuation_lem cp)

bytes_four :
    (cp : ℕ)
    → 0xFFFF < cp
    → cp ≤ 0x10FFFF
    → code_point_bytes cp
      ≡ some (
          (0xF0 + cp / 262144)
          ∷ (0x80 + cp / 4096 % 64)
          ∷ (0x80 + cp / 64 % 64)
          ∷ (0x80 + cp % 64)
          ∷ [])
unfolding code_point_bytes
bytes_four cp lo hi = ground (
  arith,
  set_F0 (cp / 262144),
  continuation_lem (cp / 4096),
  continuation_lem (cp / 64),
  continuation_lem cp,
)

-- A round of FromUtf8 that succeeds has read what AppendCodePoint writes for the code point.
abbrev pub Read : ℕ → List ℕ → List ℕ → Type 0
Read cp bytes rest =
    (front : List ℕ) × (code_point_bytes cp ≡ some front)
    × (bytes ≡ front ++ rest)
    × (is_surrogate cp ≡ false)
    × (cp ≤ 0x10FFFF)

Read-one :
    (b bits : ℕ) (bytes : List ℕ) {cp : ℕ} {rest : List ℕ}
    → b ≡ bits
    → bits ≤ 0x7F
    → lead_byte b ≡ some (bits, 0)
    → decode_code_point (b ∷ bytes) ≡ some (cp, rest)
    → Read cp (b ∷ bytes) rest
unfolding code_point_bytes
Read-one b bits bytes {cp} {rest} e hi lead h =
    let (c, _, _, s) = checked b bits 0 bytes lead h in
    let (same, tail) = continue_done_inv bits bytes c in
    (cp ∷ [], ground arith, ground arith, s, omega arith)

Read-two :
    (b bits : ℕ) (bytes : List ℕ) {cp : ℕ} {rest : List ℕ}
    → All IsByte bytes
    → b ≡ 0xC0 + bits
    → bits < 32
    → lead_byte b ≡ some (bits, 1)
    → decode_code_point (b ∷ bytes) ≡ some (cp, rest)
    → Read cp (b ∷ bytes) rest
unfolding minimum_code_point
Read-two b bits bytes {cp} {rest} lt e hi lead h =
    let (c, lo, top, s) = checked b bits 1 bytes lead h in
    let (x, t1, e1, hx, _, c1) = continue_inv 0 bits bytes lt c in
    let (same, tail) = continue_done_inv (bits * 64 + x) t1 c1 in
    (
      (0xC0 + cp / 64) ∷ (0x80 + cp % 64) ∷ [],
      bytes_two cp (omega arith) (omega arith),
      ground arith,
      s,
      top,
    )

Read-three :
    (b bits : ℕ) (bytes : List ℕ) {cp : ℕ} {rest : List ℕ}
    → All IsByte bytes
    → b ≡ 0xE0 + bits
    → bits < 16
    → lead_byte b ≡ some (bits, 2)
    → decode_code_point (b ∷ bytes) ≡ some (cp, rest)
    → Read cp (b ∷ bytes) rest
unfolding minimum_code_point
Read-three b bits bytes {cp} {rest} lt e hi lead h =
    let (c, lo, top, s) = checked b bits 2 bytes lead h in
    let (x, t1, e1, hx, lt1, c1) = continue_inv 1 bits bytes lt c in
    let (y, t2, e2, hy, _, c2) = continue_inv 0 (bits * 64 + x) t1 lt1 c1 in
    let (same, tail) = continue_done_inv ((bits * 64 + x) * 64 + y) t2 c2 in
    (
      (0xE0 + cp / 4096) ∷ (0x80 + cp / 64 % 64) ∷ (0x80 + cp % 64) ∷ [],
      bytes_three cp (omega arith) (omega arith) s,
      ground arith,
      s,
      top,
    )

Read-four :
    (b bits : ℕ) (bytes : List ℕ) {cp : ℕ} {rest : List ℕ}
    → All IsByte bytes
    → b ≡ 0xF0 + bits
    → bits < 8
    → lead_byte b ≡ some (bits, 3)
    → decode_code_point (b ∷ bytes) ≡ some (cp, rest)
    → Read cp (b ∷ bytes) rest
unfolding minimum_code_point
Read-four b bits bytes {cp} {rest} lt e hi lead h =
    let (c, lo, top, s) = checked b bits 3 bytes lead h in
    let (x, t1, e1, hx, lt1, c1) = continue_inv 2 bits bytes lt c in
    let (y, t2, e2, hy, lt2, c2) = continue_inv 1 (bits * 64 + x) t1 lt1 c1 in
    let (z, t3, e3, hz, _, c3) = continue_inv 0 ((bits * 64 + x) * 64 + y) t2 lt2 c2 in
    let (same, tail) = continue_done_inv (((bits * 64 + x) * 64 + y) * 64 + z) t3 c3 in
    (
      (0xF0 + cp / 262144)
          ∷ (0x80 + cp / 4096 % 64)
          ∷ (0x80 + cp / 64 % 64)
          ∷ (0x80 + cp % 64)
          ∷ [],
      bytes_four cp (omega arith) top,
      ground arith,
      s,
      top,
    )

lead_of_round :
    (b : ℕ) (bytes : List ℕ) {cp : ℕ} {rest : List ℕ}
    → decode_code_point (b ∷ bytes) ≡ some (cp, rest)
    → (bits : ℕ) × (count : ℕ) × (lead_byte b ≡ some (bits, count))
unfolding decode_code_point
lead_of_round b bytes h = let (p, e, _) = >>=-eq-some (lead_byte b) _ h in (p.0, p.1, e)

pub decode_code_point-Read :
    (bytes : List ℕ) (cp : ℕ) (rest : List ℕ)
    → All IsByte bytes
    → decode_code_point bytes ≡ some (cp, rest)
    → Read cp bytes rest
decode_code_point-Read [] cp rest lt h = unfold decode_code_point in cc
decode_code_point-Read (b ∷ bytes) cp rest lt h =
    let (bits, count, lead) = lead_of_round b bytes h in
    elim (lead_byte_cases b bits count lt.0 lead) [
      | inl (c, e, hi) ↦
          Read-one b bits bytes e hi (subst (λ n. lead_byte b ≡ some (bits, n)) c lead) h
      | inr (inl (c, e, hi)) ↦
          Read-two b bits bytes lt.1 e hi (subst (λ n. lead_byte b ≡ some (bits, n)) c lead) h
      | inr (inr (inl (c, e, hi))) ↦
          Read-three b bits bytes lt.1 e hi (subst (λ n. lead_byte b ≡ some (bits, n)) c lead) h
      | inr (inr (inr (c, e, hi))) ↦
          Read-four b bits bytes lt.1 e hi (subst (λ n. lead_byte b ≡ some (bits, n)) c lead) h
    ]
