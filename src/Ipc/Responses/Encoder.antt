-- ===== src/Ipc/Responses/Encoder.antt =====
-- EncodeResponse of core/src/ipc_protocol.cpp, with the protocol version as an argument. The result is
-- `none` where the function returns false; the null check of the pointer has no counterpart.
use ziliu_ime.Base.{
  ℕ, ◌%◌, ◌^◌, Bool, not, ◌||◌, Option, none, some, List, [], ◌∷◌, ◌++◌, ltb, leb, if◌then◌else◌,
  length, ◌>>=◌,
}
use ziliu_ime.Ipc.Types.{
  Candidate, CompositionSnapshot, Response, status_code, is_known_status, maximum_candidates,
}
use ziliu_ime.Ipc.Versions.{response_magic, is_supported_protocol_version, bounded}
use ziliu_ime.Ipc.Writer.{write_integer, write_string, write_utf8_string, write_bytes}

-- The early returns.
unfoldable pub response_refused : Response → ℕ → Bool
response_refused r version =
    not (is_known_status r.status)
    || ltb maximum_candidates (length r.snapshot.candidates)
    || not (is_supported_protocol_version version)

-- static_cast<std::uint8_t>(flag ? 1U : 0U).
abbrev pub flag_byte : Bool → ℕ
flag_byte flag = if flag then 1 else 0

unfoldable pub write_page_flags : CompositionSnapshot → ℕ → List ℕ
write_page_flags s version =
    if leb 5 version
    then write_integer 1 (flag_byte s.has_previous_page)
      ++ write_integer 1 (flag_byte s.has_next_page)
    else []

unfoldable pub write_candidate : Candidate → Option (List ℕ)
write_candidate c = do
  text ← write_string c.text
  annotation ← write_string c.annotation
  some (text ++ (annotation ++ write_integer 8 c.score))

unfoldable pub write_candidates : List Candidate → Option (List ℕ)
write_candidates [] = some []
write_candidates (c ∷ cs) = do
  first ← write_candidate c
  others ← write_candidates cs
  some (first ++ others)

unfoldable pub write_settings_text : Response → ℕ → Option (List ℕ)
write_settings_text r version = if leb 6 version then write_utf8_string r.settings_text else some []

unfoldable pub write_theme_chunk : Response → ℕ → Option (List ℕ)
write_theme_chunk r version = if leb 8 version then write_bytes r.theme_chunk else some []

-- The message, from its parts of varying length. The highlighted index is a std::size_t, and is
-- cut to 32 bits.
unfoldable pub write_response : Response → ℕ → List ℕ → List ℕ → List ℕ → List ℕ → List ℕ → List ℕ
write_response r version commit preedit candidates settings chunk =
    write_integer 4 response_magic
    ++ (write_integer 2 version
        ++ (write_integer 2 (status_code r.status)
            ++ (write_integer 8 r.request_id
                ++ (write_integer 8 r.session_id
                    ++ (write_integer 1 (flag_byte r.consumed)
                        ++ (commit
                            ++ (preedit
                                ++ (write_integer 4 (r.snapshot.highlighted_index % 2 ^ 32)
                                    ++ (write_page_flags r.snapshot version
                                        ++ (write_integer 4 (length r.snapshot.candidates % 2 ^ 32)
                                            ++ (candidates ++ (settings ++ chunk))))))))))))

unfoldable pub encode_response : Response → ℕ → Option (List ℕ)
unfolding response_refused write_candidates write_settings_text write_theme_chunk write_response
encode_response r version = if response_refused r version then none else (do
  commit ← write_string r.commit
  preedit ← write_string r.snapshot.preedit
  candidates ← write_candidates r.snapshot.candidates
  settings ← write_settings_text r version
  chunk ← write_theme_chunk r version
  bounded (write_response r version commit preedit candidates settings chunk))
