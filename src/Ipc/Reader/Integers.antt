-- ===== src/Ipc/Reader/Integers.antt =====
-- Integers: each write is read back, and each successful read is of what is written.
use ziliu_ime.Base.{
  ℕ, zero, suc, ◌+◌, ◌*◌, ◌/◌, ◌%◌, ◌^◌, ◌<◌, ◌≤◌, ◌≡◌, refl, ap, ◌∙◌, bit_or, some, List, [], ◌∷◌,
  ◌++◌, arith, All, length, length-append, subst, ltb-false_of_le, All-append_right,
}
use ziliu_ime.Base.Bits.{bit_or_low_high}
use ziliu_ime.Ipc.Utf.{IsByte}
use ziliu_ime.Ipc.Writer.{write_integer}
use ziliu_ime.Ipc.Reader.{read_integer_loop, read_integer}
use native.Mathlib.Nat.{div-add-mod}
use native.Mathlib.Numerals.{towards_suc}

pub length-write_integer : (size value : ℕ) → length (write_integer size value) ≡ size
unfolding write_integer
length-write_integer zero value = refl
length-write_integer (suc size) value = ap suc (length-write_integer size (value / 2 ^ 8))

pub write_integer-IsByte : (size value : ℕ) → All IsByte (write_integer size value)
unfolding write_integer
write_integer-IsByte zero value = tt
write_integer-IsByte (suc size) value = (omega arith, write_integer-IsByte size (value / 2 ^ 8))

-- The weight of bit `8 * (index + 1)`.
weight_step : (index : ℕ) → 2 ^ ((index + 1) * 8) ≡ 256 * 2 ^ (index * 8)
weight_step index =
    let e : (index + 1) * 8 ≡ index * 8 + 8 = omega arith in rw e (eight (index * 8))
  where
    eight : (s : ℕ) → 2 ^ (s + 8) ≡ 256 * 2 ^ s
    eight s = simp towards_suc (omega arith)

-- One round of the loop: the byte is added at its weight, and the sum stays below the next weight.
add_byte :
    (index decoded b : ℕ)
    → decoded < 2 ^ (index * 8)
    → b < 256
    → (bit_or decoded (b * 2 ^ (index * 8)) ≡ decoded + b * 2 ^ (index * 8))
      × (decoded + b * 2 ^ (index * 8) < 2 ^ ((index + 1) * 8))
add_byte index decoded b hd hb =
    (bit_or_low_high (index * 8) b decoded hd, rw (weight_step index) (grind arith))

read_loop_write :
    (size index decoded value : ℕ) (rest : List ℕ)
    → decoded < 2 ^ (index * 8)
    → value < 2 ^ (size * 8)
    → read_integer_loop size index decoded (write_integer size value ++ rest)
      ≡ some (decoded + value * 2 ^ (index * 8), rest)
unfolding read_integer_loop write_integer
read_loop_write zero index decoded value rest hd hv =
    let none_left : value ≡ 0 = omega arith in rw none_left (ground arith)
read_loop_write (suc size) index decoded value rest hd hv =
    let w = 2 ^ (index * 8) in
    let (joined, small) = add_byte index decoded (value % 256) hd (omega arith) in
    let below : value / 256 < 2 ^ (size * 8) = omega (arith, high_part) in
    let total : decoded + value % 256 * w + value / 256 * 2 ^ ((index + 1) * 8)
        ≡ decoded + value * w =
      omega (
        arith,
        ap (λ (t : ℕ). value / 256 * t) (weight_step index),
        ap (λ (t : ℕ). t * w) (div-add-mod value 256),
      ) in
    rw joined (
      read_loop_write size (index + 1) (decoded + value % 256 * w) (value / 256) rest small below
      ∙ rw total)
  where
    high_part : 2 ^ (suc size * 8) ≡ 256 * 2 ^ (size * 8)
    high_part = let e : suc size ≡ size + 1 = omega arith in rw e (weight_step size)

-- Reader::Integer reads back the integer that Writer::Integer wrote, and leaves what follows it.
pub read_integer-write_integer :
    (size value : ℕ) (rest : List ℕ)
    → value < 2 ^ (size * 8)
    → read_integer size (write_integer size value ++ rest) ≡ some (value, rest)
unfolding read_integer
read_integer-write_integer size value rest h =
    let enough : size ≤ length (write_integer size value ++ rest) =
      omega
        (arith, length-append (write_integer size value) rest, length-write_integer size value) in
    rw (ltb-false_of_le _ _ enough)
      (read_loop_write size 0 0 value rest (omega arith) h ∙ ground arith)

-- What the loop has read.
read_loop_inv :
    (size index decoded : ℕ) (bytes : List ℕ) {r : ℕ} {rest : List ℕ}
    → decoded < 2 ^ (index * 8)
    → All IsByte bytes
    → read_integer_loop size index decoded bytes ≡ some (r, rest)
    → (value : ℕ) × (r ≡ decoded + value * 2 ^ (index * 8))
      × (value < 2 ^ (size * 8))
      × (bytes ≡ write_integer size value ++ rest)
unfolding read_integer_loop write_integer
read_loop_inv zero index decoded bytes hd lt h = (0, ground arith, omega arith, ground arith)
read_loop_inv (suc size) index decoded [] hd lt h = cc
read_loop_inv (suc size) index decoded (b ∷ bytes) {r} {rest} hd lt h =
    let w = 2 ^ (index * 8) in
    let (joined, small) = add_byte index decoded b hd lt.0 in
    let (value, e, below, tail) =
      read_loop_inv size (index + 1) (decoded + b * w) bytes small lt.1 (rw joined at h) in
    let low : (b + 256 * value) % 256 ≡ b = omega arith in
    let high : (b + 256 * value) / 256 ≡ value = omega arith in
    (
      b + 256 * value,
      omega (arith, e, ap (λ (t : ℕ). value * t) (weight_step index)),
      omega (arith, high_part),
      rw (low, high) (ap (λ t. b ∷ t) tail),
    )
  where
    high_part : 2 ^ (suc size * 8) ≡ 256 * 2 ^ (size * 8)
    high_part = let e : suc size ≡ size + 1 = omega arith in rw e (weight_step size)

-- A successful Reader::Integer has read what Writer::Integer writes for its value.
pub read_integer-eq-some :
    (size : ℕ) (bytes : List ℕ) {value : ℕ} {rest : List ℕ}
    → All IsByte bytes
    → read_integer size bytes ≡ some (value, rest)
    → (bytes ≡ write_integer size value ++ rest) × (value < 2 ^ (size * 8)) × All IsByte rest
unfolding read_integer
read_integer-eq-some size bytes {value} {rest} lt h =
    let h' : read_integer_loop size 0 0 bytes ≡ some (value, rest) = ground arith in
    let (v, e, below, tail) = read_loop_inv size 0 0 bytes (omega arith) lt h' in
    let same : v ≡ value = omega (arith, e) in
    let tail' = subst (λ t. bytes ≡ write_integer size t ++ rest) same tail in
    (
      tail',
      subst (λ t. t < 2 ^ (size * 8)) same below,
      All-append_right IsByte (write_integer size value) rest (subst (All IsByte) tail' lt),
    )
