-- ===== src/Ipc/Responses/Valid.antt =====
-- The responses that can be sent and read back, and what an older protocol version keeps of them.
use ziliu_ime.Base.{ℕ, ◌^◌, ◌<◌, ◌≡◌, true, ◌&&◌, List, [], All, leb, if◌then◌else◌}
use ziliu_ime.Ipc.Types.{Candidate, Response}
use ziliu_ime.Ipc.Utf.{IsUnit}
use ziliu_ime.Ipc.Reader.Texts.{IsUtf8}
use ziliu_ime.Ipc.Responses.Decoder.{is_index_valid, PageFlags}

-- The texts hold UTF-16 code units, and the score is a 64-bit pattern.
pub record IsCandidate (c : Candidate) : Type 0 where
  pub text_units : All IsUnit c.text
  pub annotation_units : All IsUnit c.annotation
  pub score_width : c.score < 2 ^ 64

-- The ids are 64-bit, the texts hold UTF-16 code units, and the settings text is UTF-8. The highlighted
-- index, a size_t of which the message carries the low 32 bits, is below 2^32, and it is that of a
-- candidate, if there are any.
pub record IsResponse (r : Response) : Type 0 where
  pub request_id_width : r.request_id < 2 ^ 64
  pub session_id_width : r.session_id < 2 ^ 64
  pub commit_units : All IsUnit r.commit
  pub preedit_units : All IsUnit r.snapshot.preedit
  pub highlighted_width : r.snapshot.highlighted_index < 2 ^ 32
  pub highlighted_valid : is_index_valid r.snapshot.candidates r.snapshot.highlighted_index ≡ true
  pub candidates_valid : All IsCandidate r.snapshot.candidates
  pub settings_utf8 : IsUtf8 r.settings_text

-- What the fields that came with later versions are in a message of `version`.
abbrev pub flags_at : ℕ → Response → PageFlags
flags_at version r = record {
  has_previous_page = leb 5 version && r.snapshot.has_previous_page;
  has_next_page = leb 5 version && r.snapshot.has_next_page;
}

abbrev pub settings_at : ℕ → Response → List ℕ
settings_at version r = if leb 6 version then r.settings_text else []

abbrev pub chunk_at : ℕ → Response → List ℕ
chunk_at version r = if leb 8 version then r.theme_chunk else []

-- The response with what the version does not carry reset.
unfoldable pub at_version : ℕ → Response → Response
at_version version r = record {
  request_id = r.request_id;
  session_id = r.session_id;
  status = r.status;
  consumed = r.consumed;
  commit = r.commit;
  snapshot = record {
    preedit = r.snapshot.preedit;
    candidates = r.snapshot.candidates;
    highlighted_index = r.snapshot.highlighted_index;
    has_previous_page = leb 5 version && r.snapshot.has_previous_page;
    has_next_page = leb 5 version && r.snapshot.has_next_page;
  };
  settings_text = settings_at version r;
  theme_chunk = chunk_at version r;
}
