-- ===== src/Ipc/Utf/Masks.antt =====
-- The masks of AppendCodePoint and FromUtf8 as arithmetic, by tables over one byte.
use ziliu_ime.Base.{ℕ, ◌+◌, ◌*◌, ◌/◌, ◌%◌, ◌^◌, ◌<◌, ◌≡◌, refl, bit_and, bit_or, arith}
use ziliu_ime.Base.Bits.{same_below, same_below→eq, bit_or_high_low}
use ziliu_ime.Ipc.Utf.{continuation}

-- The bits that are set, as sums.
pub set_80 : (x : ℕ) → x < 64 → bit_or 0x80 x ≡ 0x80 + x
unfolding same_below
set_80 = same_below→eq _ _ 64 refl

pub set_C0 : (x : ℕ) → x < 32 → bit_or 0xC0 x ≡ 0xC0 + x
unfolding same_below
set_C0 = same_below→eq _ _ 32 refl

pub set_E0 : (x : ℕ) → x < 16 → bit_or 0xE0 x ≡ 0xE0 + x
unfolding same_below
set_E0 = same_below→eq _ _ 16 refl

pub set_F0 : (x : ℕ) → x < 8 → bit_or 0xF0 x ≡ 0xF0 + x
unfolding same_below
set_F0 = same_below→eq _ _ 8 refl

-- The bits that are tested, as quotients.
pub test_C0 : (b : ℕ) → b < 256 → bit_and b 0xC0 ≡ b / 64 * 64
unfolding same_below
test_C0 = same_below→eq _ _ 256 refl

pub test_E0 : (b : ℕ) → b < 256 → bit_and b 0xE0 ≡ b / 32 * 32
unfolding same_below
test_E0 = same_below→eq _ _ 256 refl

pub test_F0 : (b : ℕ) → b < 256 → bit_and b 0xF0 ≡ b / 16 * 16
unfolding same_below
test_F0 = same_below→eq _ _ 256 refl

pub test_F8 : (b : ℕ) → b < 256 → bit_and b 0xF8 ≡ b / 8 * 8
unfolding same_below
test_F8 = same_below→eq _ _ 256 refl

pub join_six : (cp b : ℕ) → bit_or (cp * 2 ^ 6) (b % 0x40) ≡ cp * 64 + b % 64
join_six cp b = bit_or_high_low 6 cp (b % 64) (omega arith)

-- A continuation byte carries the six low bits of `x`.
pub continuation_lem : (x : ℕ) → continuation x ≡ 0x80 + x % 64
continuation_lem x = set_80 (x % 64) (omega arith)
