-- ===== src/Ipc/Writer.antt =====
-- The class Writer of core/src/ipc_protocol.cpp. A step is the list of the bytes that it appends,
-- or `none` where it returns false.
use ziliu_ime.Base.{
  ℕ, zero, suc, ◌*◌, ◌/◌, ◌%◌, ◌^◌, Option, none, some, List, [], ◌∷◌, ◌++◌, ltb, if◌then◌else◌,
  length, ◌>>=◌,
}
use ziliu_ime.Ipc.Types.{maximum_theme_chunk_bytes}
use ziliu_ime.Ipc.Utf.{to_utf8}

abbrev pub maximum_string_bytes : ℕ
maximum_string_bytes = 16 * 1024

-- Writer::Integer of a value with `size` bytes: the lowest byte first.
unfoldable pub write_integer : ℕ → ℕ → List ℕ
write_integer zero value = []
write_integer (suc size) value = value % 256 ∷ write_integer size (value / 2 ^ 8)

-- The length in four bytes, and the bytes.
abbrev pub write_block : List ℕ → List ℕ
write_block bytes = write_integer 4 (length bytes % 2 ^ 32) ++ bytes

-- Writer::Utf8String and Writer::Bytes.
unfoldable pub write_utf8_string : List ℕ → Option (List ℕ)
write_utf8_string bytes =
    if ltb maximum_string_bytes (length bytes) then none else some (write_block bytes)

unfoldable pub write_bytes : List ℕ → Option (List ℕ)
write_bytes bytes =
    if ltb maximum_theme_chunk_bytes (length bytes) then none else some (write_block bytes)

-- Writer::String. A string of at most 16 KiB cannot exceed the range of the length field.
unfoldable pub write_string : List ℕ → Option (List ℕ)
unfolding write_utf8_string
write_string text = do utf8 ← to_utf8 text; write_utf8_string utf8
