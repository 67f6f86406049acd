-- ===== src/Ipc/Reader/Blocks.antt =====
-- Sequences of reads, and blocks of bytes with their length in front.
use ziliu_ime.Base.{
  ℕ, ◌*◌, ◌%◌, ◌^◌, ◌<◌, ◌≤◌, ◌≡◌, refl, sym, ap, ◌∙◌, subst, Option, none, some, List, [], ◌++◌,
  append_assoc, arith, All, length, length-append, take, drop, take-append, drop-append,
  take-append-drop, length-take, ltb, ltb-false_of_le, if◌then◌else◌, Bool, true, false,
  All-append_left, All-append_right,
}
use mathlib.Core.Option.{some-injective}
use ziliu_ime.Ipc.Utf.{IsByte}
use ziliu_ime.Ipc.Writer.{write_integer, write_block}
use ziliu_ime.Ipc.Reader.{
  Reader, ◌>>=◌, and_then, or_fail, require, pure, fail, read_integer, read_span, read_block,
}
use ziliu_ime.Ipc.Reader.Integers.{read_integer-write_integer, read_integer-eq-some}

-- `read` takes exactly `bytes` off the front of any input, and gives `a`.
abbrev pub Takes {ℓ} : {A : Type ℓ} → Reader A → A → List ℕ → Type ℓ
Takes read a bytes = (rest : List ℕ) → read (bytes ++ rest) ≡ some (a, rest)

pub Takes-bind {ℓ κ} :
    {A : Type ℓ} {B : Type κ} (m : Reader A) (f : A → Reader B) (a : A) (b : B) (xs ys : List ℕ)
    → Takes m a xs
    → Takes (f a) b ys
    → Takes (m >>= f) b (xs ++ ys)
Takes-bind m f a b xs ys h k rest = rw (append_assoc xs ys rest, h (ys ++ rest)) (k rest)

pub Takes-pure {ℓ} : {A : Type ℓ} (a : A) → Takes (pure a) a []
Takes-pure a rest = refl

pub Takes-integer :
    (size value : ℕ)
    → value < 2 ^ (size * 8)
    → Takes (read_integer size) value (write_integer size value)
Takes-integer size value h rest = read_integer-write_integer size value rest h

pub pure_value {ℓ} : {A : Type ℓ} {a b : A} {xs ys : List ℕ} → pure a xs ≡ some (b, ys) → a ≡ b
pure_value h = ap (λ p. p.0) (some-injective _ _ h)

pub pure_rest {ℓ} : {A : Type ℓ} {a b : A} {xs ys : List ℕ} → pure a xs ≡ some (b, ys) → xs ≡ ys
pure_rest h = ap (λ p. p.1) (some-injective _ _ h)

-- A successful sequence, in its two halves.
and_then-eq-some {ℓ κ} :
    {A : Type ℓ} {B : Type κ} (o : Option (A × List ℕ)) (f : A → Reader B) {b : B} {rest : List ℕ}
    → and_then o f ≡ some (b, rest)
    → (a : A) × (mid : List ℕ) × (o ≡ some (a, mid)) × (f a mid ≡ some (b, rest))
and_then-eq-some none f h = cc
and_then-eq-some (some (a, mid)) f h = (a, mid, refl, h)

pub >>=-eq-some {ℓ κ} :
    {A : Type ℓ} {B : Type κ} (m : Reader A) (f : A → Reader B) (bytes : List ℕ) {b : B}
    {rest : List ℕ}
    → (m >>= f) bytes ≡ some (b, rest)
    → (a : A) × (mid : List ℕ) × (m bytes ≡ some (a, mid)) × (f a mid ≡ some (b, rest))
>>=-eq-some m f bytes h = and_then-eq-some (m bytes) f h

pub or_fail-eq-some {ℓ} :
    {A : Type ℓ} (o : Option A) (bytes : List ℕ) {a : A} {rest : List ℕ}
    → or_fail o bytes ≡ some (a, rest)
    → (o ≡ some a) × (bytes ≡ rest)
or_fail-eq-some none bytes h = cc
or_fail-eq-some (some a) bytes h = (cc, cc)

pub require-eq-some :
    (b : Bool) (bytes : List ℕ) {u : Unit {0}} {rest : List ℕ}
    → require b bytes ≡ some (u, rest)
    → (b ≡ true) × (bytes ≡ rest)
require-eq-some true bytes h = (refl, cc)
require-eq-some false bytes h = cc

Takes-span : (xs : List ℕ) → Takes (read_span (length xs)) xs xs
Takes-span xs rest = rw (
  ltb-false_of_le (length (xs ++ rest)) (length xs) (omega (arith, length-append xs rest)),
  take-append xs rest,
  drop-append xs rest,
)

-- A block of at most `maximum` bytes, where the maximum fits the length field.
pub Takes-block :
    (maximum : ℕ) (xs : List ℕ)
    → length xs ≤ maximum
    → maximum < 2 ^ 32
    → Takes (read_block maximum) xs (write_block xs)
Takes-block maximum xs le lt rest =
    let same : length xs % 2 ^ 32 ≡ length xs = omega arith in
    rw
      (
        same,
        append_assoc,
        read_integer-write_integer 4 (length xs) (xs ++ rest) (omega arith),
        ltb-false_of_le maximum (length xs) le,
      )
      (Takes-span xs rest)

span_inv :
    (maximum count : ℕ) (bytes : List ℕ) {xs rest : List ℕ}
    → (if ltb maximum count then fail else read_span count) bytes ≡ some (xs, rest)
    → (count ≤ maximum) × (length xs ≡ count) × (bytes ≡ xs ++ rest)
span_inv maximum count bytes {xs} {rest} h =
    let (le, within, front, back) = parts in
    (
      le,
      omega (arith, ap length front, length-take count bytes),
      sym (take-append-drop count bytes) ∙ cc,
    )
  where
    parts :
        (count ≤ maximum)
        × (count ≤ length bytes)
        × (take count bytes ≡ xs)
        × (drop count bytes ≡ rest)
    parts = ground arith

pub block_inv :
    (maximum : ℕ) (bytes : List ℕ) {xs rest : List ℕ}
    → All IsByte bytes
    → read_block maximum bytes ≡ some (xs, rest)
    → (bytes ≡ write_block xs ++ rest) × (length xs ≤ maximum) × All IsByte xs × All IsByte rest
block_inv maximum bytes {xs} {rest} lt h =
    let (count, mid, e, h') = >>=-eq-some (read_integer 4) _ bytes h in
    let (front, small, lt') = read_integer-eq-some 4 bytes lt e in
    let (le, len, tail) = span_inv maximum count mid h' in
    let both = subst (All IsByte) tail lt' in
    let field : count ≡ length xs % 2 ^ 32 = omega (arith, len) in
    (
      rw (front, tail, field) (sym (append_assoc (write_integer 4 (length xs % 2 ^ 32)) xs rest)),
      omega (arith, len),
      All-append_left IsByte xs rest both,
      All-append_right IsByte xs rest both,
    )
