-- ===== src/Ipc/Reader/Steps.antt =====
-- One step of a successful read, split off its front: what the step has read, and the rest of the read.
use ziliu_ime.Base.{ℕ, ◌*◌, ◌^◌, ◌<◌, ◌≡◌, refl, Bool, true, false, some, List, [], ◌∷◌, ◌++◌, All}
use ziliu_ime.Ipc.Utf.{IsByte, IsUnit}
use ziliu_ime.Ipc.Writer.{write_integer, write_string, write_utf8_string, write_bytes}
use ziliu_ime.Ipc.Reader.{
  Reader, ◌>>=◌, require, read_integer, read_string, read_utf8_string, read_bytes, finished,
}
use ziliu_ime.Ipc.Reader.Integers.{read_integer-eq-some}
use ziliu_ime.Ipc.Reader.Blocks.{>>=-eq-some}
use ziliu_ime.Ipc.Reader.Texts.{
  IsUtf8, read_utf8_string-eq-some, read_string-eq-some, read_bytes-eq-some,
}

module _ {ℓ} {B : Type ℓ} {P : Type ℓ} (bytes : List ℕ) {b : B} {rest : List ℕ} where
  pub integer_step :
      (size : ℕ) (f : ℕ → Reader B)
      → All IsByte bytes
      → (read_integer size >>= f) bytes ≡ some (b, rest)
      → ((value : ℕ) (mid : List ℕ)
          → bytes ≡ write_integer size value ++ mid
          → value < 2 ^ (size * 8)
          → All IsByte mid
          → f value mid ≡ some (b, rest)
          → P)
      → P
  integer_step size f lt h k =
      let (value, mid, e, h') = >>=-eq-some (read_integer size) f bytes h in
      let (split, small, lt') = read_integer-eq-some size bytes lt e in
      k value mid split small lt' h'

  pub utf8_step :
      (f : List ℕ → Reader B)
      → All IsByte bytes
      → (read_utf8_string >>= f) bytes ≡ some (b, rest)
      → ((text front mid : List ℕ)
          → write_utf8_string text ≡ some front
          → bytes ≡ front ++ mid
          → IsUtf8 text
          → All IsByte mid
          → f text mid ≡ some (b, rest)
          → P)
      → P
  utf8_step f lt h k =
      let (text, mid, e, h') = >>=-eq-some read_utf8_string f bytes h in
      let (front, written, split, valid, _, lt') = read_utf8_string-eq-some bytes lt e in
      k text front mid written split valid lt' h'

  pub string_step :
      (f : List ℕ → Reader B)
      → All IsByte bytes
      → (read_string >>= f) bytes ≡ some (b, rest)
      → ((text front mid : List ℕ)
          → write_string text ≡ some front
          → bytes ≡ front ++ mid
          → All IsUnit text
          → All IsByte mid
          → f text mid ≡ some (b, rest)
          → P)
      → P
  string_step f lt h k =
      let (text, mid, e, h') = >>=-eq-some read_string f bytes h in
      let (front, written, split, units, lt') = read_string-eq-some bytes lt e in
      k text front mid written split units lt' h'

  pub bytes_step :
      (f : List ℕ → Reader B)
      → All IsByte bytes
      → (read_bytes >>= f) bytes ≡ some (b, rest)
      → ((chunk front mid : List ℕ)
          → write_bytes chunk ≡ some front
          → bytes ≡ front ++ mid
          → All IsByte chunk
          → All IsByte mid
          → f chunk mid ≡ some (b, rest)
          → P)
      → P
  bytes_step f lt h k =
      let (chunk, mid, e, h') = >>=-eq-some read_bytes f bytes h in
      let (front, written, split, all, lt') = read_bytes-eq-some bytes lt e in
      k chunk front mid written split all lt' h'

  -- Any other step, of which only its equation is kept.
  pub any_step :
      {A : Type ℓ} (m : Reader A) (f : A → Reader B)
      → (m >>= f) bytes ≡ some (b, rest)
      → ((a : A) (mid : List ℕ) → m bytes ≡ some (a, mid) → f a mid ≡ some (b, rest) → P)
      → P
  any_step m f h k = let (a, mid, e, h') = >>=-eq-some m f bytes h in k a mid e h'

require_front {ℓ} :
    {B : Type ℓ} (t : Bool) (f : Unit {0} → Reader B) (bytes : List ℕ) {b : B} {rest : List ℕ}
    → (require t >>= f) bytes ≡ some (b, rest)
    → (t ≡ true) × (f tt bytes ≡ some (b, rest))
require_front true f bytes h = (refl, h)
require_front false f bytes h = cc

-- A test that passed.
pub require_step {ℓ} :
    {B : Type ℓ} {P : Type ℓ} (t : Bool) (f : Unit {0} → Reader B) (bytes : List ℕ) {b : B}
    {rest : List ℕ}
    → (require t >>= f) bytes ≡ some (b, rest)
    → (t ≡ true → f tt bytes ≡ some (b, rest) → P)
    → P
require_step t f bytes h k = let (e, h') = require_front t f bytes h in k e h'

finished_front {ℓ} :
    {B : Type ℓ} (f : Unit {0} → Reader B) (bytes : List ℕ) {b : B} {rest : List ℕ}
    → (finished >>= f) bytes ≡ some (b, rest)
    → (bytes ≡ []) × (f tt [] ≡ some (b, rest))
unfolding finished
finished_front f [] h = (refl, h)
finished_front f (x ∷ bytes) h = cc

-- The end of the input.
pub finished_step {ℓ} :
    {B : Type ℓ} {P : Type ℓ} (f : Unit {0} → Reader B) (bytes : List ℕ) {b : B} {rest : List ℕ}
    → (finished >>= f) bytes ≡ some (b, rest)
    → (bytes ≡ [] → f tt [] ≡ some (b, rest) → P)
    → P
finished_step f bytes h k = let (e, h') = finished_front f bytes h in k e h'
