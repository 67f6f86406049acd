-- ===== src/Ipc/Reader/Texts.antt =====
-- Strings and chunks: Writer::String, Utf8String and Bytes against Reader::String, Utf8String and Bytes.
use ziliu_ime.Base.{ℕ, ◌≤◌, ◌≡◌, some, List, ◌++◌, subst, arith, All, length, ltb-false_of_le}
use ziliu_ime.Base.{>>=-eq-some as bind-eq-some}
use ziliu_ime.Ipc.Types.{maximum_theme_chunk_bytes}
use ziliu_ime.Ipc.Utf.{IsByte, IsUnit, to_utf8, from_utf8}
use ziliu_ime.Ipc.Utf.RoundTrip.{from_utf8-to_utf8, to_utf8-from_utf8}
use ziliu_ime.Ipc.Writer.{
  write_block, write_string, write_utf8_string, write_bytes, maximum_string_bytes,
}
use ziliu_ime.Ipc.Reader.{read_block, read_string, read_utf8_string, read_bytes, or_fail}
use ziliu_ime.Ipc.Reader.Blocks.{Takes, Takes-block, >>=-eq-some, or_fail-eq-some, block_inv}

-- `text` is a byte string that Reader::FromUtf8 accepts.
abbrev pub IsUtf8 : List ℕ → Type 0
IsUtf8 bytes = (text : List ℕ) × (from_utf8 bytes ≡ some text)

write_utf8_string-eq-some :
    (xs : List ℕ) {bytes : List ℕ}
    → write_utf8_string xs ≡ some bytes
    → (length xs ≤ maximum_string_bytes) × (bytes ≡ write_block xs)
unfolding write_utf8_string
write_utf8_string-eq-some xs h = ground arith

pub Takes-utf8_string :
    (xs bytes : List ℕ)
    → IsUtf8 xs
    → write_utf8_string xs ≡ some bytes
    → Takes read_utf8_string xs bytes
unfolding read_utf8_string
Takes-utf8_string xs bytes (text, valid) h rest =
    let (le, e) = write_utf8_string-eq-some xs h in
    rw (e, Takes-block maximum_string_bytes xs le (omega arith) rest, valid)

pub Takes-string :
    (text bytes : List ℕ)
    → All IsUnit text
    → write_string text ≡ some bytes
    → Takes read_string text bytes
unfolding read_string write_string
Takes-string text bytes lt h rest =
    let (utf8, e, h') = bind-eq-some (to_utf8 text) _ h in
    let (le, e') = write_utf8_string-eq-some utf8 h' in
    rw (
      e',
      Takes-block maximum_string_bytes utf8 le (omega arith) rest,
      from_utf8-to_utf8 text utf8 lt e,
    )

pub Takes-bytes : (xs bytes : List ℕ) → write_bytes xs ≡ some bytes → Takes read_bytes xs bytes
unfolding read_bytes write_bytes
Takes-bytes xs bytes h rest =
    let (le, e) = parts in rw e (Takes-block maximum_theme_chunk_bytes xs le (omega arith) rest)
  where
    parts : (length xs ≤ maximum_theme_chunk_bytes) × (bytes ≡ write_block xs)
    parts = ground arith

-- What a successful read of each kind has read.
pub read_utf8_string-eq-some :
    (bytes : List ℕ) {xs rest : List ℕ}
    → All IsByte bytes
    → read_utf8_string bytes ≡ some (xs, rest)
    → (front : List ℕ) × (write_utf8_string xs ≡ some front)
      × (bytes ≡ front ++ rest)
      × IsUtf8 xs
      × All IsByte xs
      × All IsByte rest
unfolding read_utf8_string write_utf8_string
read_utf8_string-eq-some bytes {xs} {rest} lt h =
    let (ys, mid, e, h') = >>=-eq-some (read_block maximum_string_bytes) _ bytes h in
    let (text, mid', e', h'') = >>=-eq-some (or_fail (from_utf8 ys)) _ mid h' in
    let (valid, same) = or_fail-eq-some (from_utf8 ys) mid e' in
    let block : read_block maximum_string_bytes bytes ≡ some (xs, rest) = cc in
    let valid' : from_utf8 xs ≡ some text = cc in
    let (e'', le, all, all') = block_inv maximum_string_bytes bytes lt block in
    (write_block xs, rw (ltb-false_of_le _ _ le), e'', (text, valid'), all, all')

pub read_string-eq-some :
    (bytes : List ℕ) {text rest : List ℕ}
    → All IsByte bytes
    → read_string bytes ≡ some (text, rest)
    → (front : List ℕ) × (write_string text ≡ some front)
      × (bytes ≡ front ++ rest)
      × All IsUnit text
      × All IsByte rest
unfolding read_string write_string write_utf8_string
read_string-eq-some bytes {text} {rest} lt h =
    let (ys, mid, e, h') = >>=-eq-some (read_block maximum_string_bytes) _ bytes h in
    let (valid, same) = or_fail-eq-some (from_utf8 ys) mid h' in
    let (e', le, all, all') = block_inv maximum_string_bytes bytes lt e in
    let (back, units) = to_utf8-from_utf8 ys text all valid in
    (
      write_block ys,
      rw (back, ltb-false_of_le _ _ le),
      rw (← same) e',
      units,
      subst (All IsByte) same all',
    )

pub read_bytes-eq-some :
    (bytes : List ℕ) {xs rest : List ℕ}
    → All IsByte bytes
    → read_bytes bytes ≡ some (xs, rest)
    → (front : List ℕ) × (write_bytes xs ≡ some front)
      × (bytes ≡ front ++ rest)
      × All IsByte xs
      × All IsByte rest
unfolding read_bytes write_bytes
read_bytes-eq-some bytes {xs} {rest} lt h =
    let (e, le, all, all') = block_inv maximum_theme_chunk_bytes bytes lt h in
    (write_block xs, rw (ltb-false_of_le _ _ le), e, all, all')
