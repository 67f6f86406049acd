-- ===== src/Ipc/Reader.antt =====
-- The class Reader of core/src/ipc_protocol.cpp: the part of its span that is not read yet, so
-- `remaining()` is its length, and `finished()` says that it is empty. A step that fails is `none`;
-- the two decoders then return false and drop the reader, so what a failed step consumed is not kept.
pub mod Integers
pub mod Blocks
pub mod Texts
pub mod Steps
use ziliu_ime.Base.{
  ℕ, zero, suc, ◌+◌, ◌*◌, ◌^◌, bit_or, Bool, true, false, Option, none, some, List, [], ◌∷◌, ltb,
  if◌then◌else◌, length, take, drop,
}
use ziliu_ime.Ipc.Types.{maximum_theme_chunk_bytes}
use ziliu_ime.Ipc.Utf.{from_utf8}
use ziliu_ime.Ipc.Writer.{maximum_string_bytes}

abbrev pub Reader {ℓ} : Type ℓ → Type ℓ
Reader A = List ℕ → Option (A × List ℕ)

abbrev pub pure {ℓ} : {A : Type ℓ} → A → Reader A
pure a bytes = some (a, bytes)

abbrev pub fail {ℓ} : {A : Type ℓ} → Reader A
fail bytes = none

abbrev pub and_then {ℓ κ} :
    {A : Type ℓ} {B : Type κ} → Option (A × List ℕ) → (A → Reader B) → Option (B × List ℕ)
and_then none f = none
and_then (some (a, rest)) f = f a rest

infixl 5 ◌>>=◌ ◌>>◌
abbrev pub ◌>>=◌ {ℓ κ} : {A : Type ℓ} {B : Type κ} → Reader A → (A → Reader B) → Reader B
◌>>=◌ m f bytes = and_then (m bytes) f

abbrev pub ◌>>◌ {ℓ κ} : {A : Type ℓ} {B : Type κ} → Reader A → Reader B → Reader B
m >> k = m >>= λ _. k

-- The result of a conversion, or its failure.
abbrev pub or_fail {ℓ} : {A : Type ℓ} → Option A → Reader A
or_fail none bytes = none
or_fail (some a) bytes = some (a, bytes)

-- A test of the decoder: on false it returns.
abbrev pub require : Bool → Reader (Unit {0})
require true bytes = some (tt, bytes)
require false bytes = none

-- The loop of Reader::Integer, which ors in byte `index` at bit `8 * index`.
unfoldable pub read_integer_loop : ℕ → ℕ → ℕ → Reader ℕ
read_integer_loop zero index decoded bytes = some (decoded, bytes)
read_integer_loop (suc n) index decoded [] = none
read_integer_loop (suc n) index decoded (b ∷ bytes) =
    read_integer_loop n (index + 1) (bit_or decoded (b * 2 ^ (index * 8))) bytes

-- Reader::Integer of a value with `size` bytes.
unfoldable pub read_integer : ℕ → Reader ℕ
read_integer size bytes = if ltb (length bytes) size then none else read_integer_loop size 0 0 bytes

-- The next `count` bytes.
abbrev pub read_span : ℕ → Reader (List ℕ)
read_span count bytes =
    if ltb (length bytes) count then none else some (take count bytes, drop count bytes)

abbrev pub read_block : ℕ → Reader (List ℕ)
read_block maximum = do count ← read_integer 4; if ltb maximum count then fail else read_span count

-- Reader::String.
unfoldable pub read_string : Reader (List ℕ)
read_string = do bytes ← read_block maximum_string_bytes; or_fail (from_utf8 bytes)

-- Reader::Utf8String, which validates the bytes and keeps them.
unfoldable pub read_utf8_string : Reader (List ℕ)
read_utf8_string = do bytes ← read_block maximum_string_bytes; or_fail (from_utf8 bytes); pure bytes

-- Reader::Bytes.
unfoldable pub read_bytes : Reader (List ℕ)
read_bytes = read_block maximum_theme_chunk_bytes

-- Reader::finished.
unfoldable pub finished : Reader (Unit {0})
finished [] = some (tt, [])
finished (b ∷ bytes) = none
