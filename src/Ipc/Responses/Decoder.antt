-- ===== src/Ipc/Responses/Decoder.antt =====
-- DecodeResponse of core/src/ipc_protocol.cpp: the response and its protocol version, or `none` where
-- the function returns false.
use ziliu_ime.Base.{
  ℕ, zero, suc, Bool, false, not, ◌||◌, Option, none, List, [], ◌∷◌, ltb, leb, ◌==◌, if◌then◌else◌,
  length,
}
use ziliu_ime.Ipc.Types.{
  Candidate, Response, status_of, is_known_status, maximum_candidates, maximum_message_bytes,
}
use ziliu_ime.Ipc.Versions.{response_magic, is_supported_protocol_version, result_of}
use ziliu_ime.Ipc.Reader.{
  Reader, ◌>>=◌, ◌>>◌, pure, require, read_integer, read_string, read_utf8_string, read_bytes,
  finished,
}

-- A byte that must be 0 or 1, as a Boolean.
abbrev pub read_flag : Reader Bool
read_flag = do byte ← read_integer 1; require (leb byte 1); pure (not (byte == 0))

pub record PageFlags : Type 0 where
  pub has_previous_page : Bool
  pub has_next_page : Bool

abbrev pub read_present_flags : Reader PageFlags
read_present_flags = do
  previous ← read_flag
  next ← read_flag
  pure (record { has_previous_page = previous; has_next_page = next })

abbrev pub no_flags : PageFlags
no_flags = record { has_previous_page = false; has_next_page = false }

unfoldable pub read_page_flags : ℕ → Reader PageFlags
read_page_flags version = if leb 5 version then read_present_flags else pure no_flags

abbrev pub read_candidate : Reader Candidate
read_candidate = do
  text ← read_string
  annotation ← read_string
  score ← read_integer 8
  pure (record { text = text; annotation = annotation; score = score })

-- The loop over the candidates, with the number that is left.
unfoldable pub read_candidates : ℕ → Reader (List Candidate)
read_candidates zero = pure []
read_candidates (suc n) = do
  first ← read_candidate
  others ← read_candidates n
  pure (first ∷ others)

unfoldable pub read_settings_text : ℕ → Reader (List ℕ)
read_settings_text version = if leb 6 version then read_utf8_string else pure []

unfoldable pub read_theme_chunk : ℕ → Reader (List ℕ)
read_theme_chunk version = if leb 8 version then read_bytes else pure []

-- The last test: a highlighted index must be that of a candidate, if there are any.
abbrev pub is_index_valid : List Candidate → ℕ → Bool
is_index_valid candidates highlighted =
    length candidates == 0 || ltb highlighted (length candidates)

-- What follows the number of candidates.
unfoldable pub read_response_tail :
    ℕ → ℕ → ℕ → (List Candidate → List ℕ → List ℕ → Response) → Reader (Response × ℕ)
read_response_tail version count highlighted build = do
  candidates ← read_candidates count
  settings ← read_settings_text version
  chunk ← read_theme_chunk version
  finished
  require (is_index_valid candidates highlighted)
  pure (build candidates settings chunk, version)

-- The response of the values that were read.
abbrev pub response_of :
    ℕ → ℕ → ℕ → Bool → List ℕ → List ℕ → ℕ → PageFlags → List Candidate → List ℕ → List ℕ → Response
response_of status request_id session_id consumed commit preedit highlighted flags candidates
      settings chunk =
    record {
      request_id = request_id;
      session_id = session_id;
      status = status_of status;
      consumed = consumed;
      commit = commit;
      snapshot = record {
        preedit = preedit;
        candidates = candidates;
        highlighted_index = highlighted;
        has_previous_page = flags.has_previous_page;
        has_next_page = flags.has_next_page;
      };
      settings_text = settings;
      theme_chunk = chunk;
    }

unfoldable pub read_response : Reader (Response × ℕ)
unfolding read_page_flags read_candidates read_settings_text read_theme_chunk read_response_tail
read_response = do
  magic ← read_integer 4
  version ← read_integer 2
  require (is_supported_protocol_version version)
  status ← read_integer 2
  request_id ← read_integer 8
  session_id ← read_integer 8
  consumed ← read_flag
  commit ← read_string
  preedit ← read_string
  highlighted ← read_integer 4
  flags ← read_page_flags version
  count ← read_integer 4
  require (magic == response_magic)
  require (leb count maximum_candidates)
  require (is_known_status (status_of status))
  read_response_tail version count highlighted
      (response_of status request_id session_id consumed commit preedit highlighted flags)

unfoldable pub decode_response : List ℕ → Option (Response × ℕ)
unfolding read_response
decode_response bytes =
    if ltb maximum_message_bytes (length bytes) then none else result_of (read_response bytes)
