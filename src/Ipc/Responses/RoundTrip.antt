-- ===== src/Ipc/Responses/RoundTrip.antt =====
-- DecodeResponse on what EncodeResponse sends.
use ziliu_ime.Base.{
  ℕ, ◌%◌, ◌^◌, ◌<◌, ◌≤◌, ◌≡◌, Bool, true, false, some, List, [], ◌∷◌, ◌++◌, append-nil,
  append_assoc, arith, All, length, leb, Bool-cases, inl, inr, le→leb,
}
use ziliu_ime.Base.{>>=-eq-some as bind-eq-some}
use mathlib.Core.Option.{some-injective}
use ziliu_ime.Ipc.Types.{
  Candidate, Response, status_code, is_known_status, maximum_candidates, status_of-status_code,
  status_code-lt,
}
use ziliu_ime.Ipc.Versions.{response_magic, is_supported_protocol_version, bounded-eq-some}
use ziliu_ime.Ipc.Writer.{write_integer, write_string}
use ziliu_ime.Ipc.Reader.{finished}
use ziliu_ime.Ipc.Reader.Blocks.{Takes, Takes-integer, Takes-pure}
use ziliu_ime.Ipc.Reader.Texts.{Takes-utf8_string, Takes-string, Takes-bytes}
use ziliu_ime.Ipc.Responses.Encoder.{
  response_refused, flag_byte, write_page_flags, write_candidate, write_candidates,
  write_settings_text, write_theme_chunk, write_response, encode_response,
}
use ziliu_ime.Ipc.Responses.Decoder.{
  read_flag, read_page_flags, read_candidate, read_candidates, read_settings_text, read_theme_chunk,
  read_response_tail, read_response, decode_response,
}
use ziliu_ime.Ipc.Responses.Valid.{
  IsCandidate, IsResponse, flags_at, settings_at, chunk_at, at_version,
}

Takes-flag : (b : Bool) → Takes read_flag b (write_integer 1 (flag_byte b))
Takes-flag true rest = rw (Takes-integer 1 1 (omega arith) rest)
Takes-flag false rest = rw (Takes-integer 1 0 (omega arith) rest)

Takes-page_flags :
    (r : Response) (version : ℕ)
    → Takes (read_page_flags version) (flags_at version r) (write_page_flags r.snapshot version)
unfolding read_page_flags write_page_flags
Takes-page_flags r version rest = elim (Bool-cases (leb 5 version)) [
  | inl new ↦
      let second = write_integer 1 (flag_byte r.snapshot.has_next_page) in
      rw new (
        simp append_assoc (
          rw (
            Takes-flag r.snapshot.has_previous_page (second ++ rest),
            Takes-flag r.snapshot.has_next_page rest,
          )))
  | inr old ↦ rw old
]

Takes-candidate :
    (c : Candidate) (bytes : List ℕ)
    → IsCandidate c
    → write_candidate c ≡ some bytes
    → Takes read_candidate c bytes
unfolding write_candidate
Takes-candidate c bytes v h rest =
    let (text, e, h') = bind-eq-some (write_string c.text) _ h in
    let (annotation, e', h'') = bind-eq-some (write_string c.annotation) _ h' in
    let score = write_integer 8 c.score in
    rw (← some-injective _ _ h'') (
      simp append_assoc (
        rw (
          Takes-string c.text text v.text_units e (annotation ++ (score ++ rest)),
          Takes-string c.annotation annotation v.annotation_units e' (score ++ rest),
          Takes-integer 8 c.score v.score_width rest,
        )))

Takes-candidates :
    (cs : List Candidate) (bytes : List ℕ)
    → All IsCandidate cs
    → write_candidates cs ≡ some bytes
    → Takes (read_candidates (length cs)) cs bytes
unfolding write_candidates read_candidates
Takes-candidates [] bytes v h rest = rw (← some-injective _ _ h)
Takes-candidates (c ∷ cs) bytes v h rest =
    let (first, e, h') = bind-eq-some (write_candidate c) _ h in
    let (others, e', h'') = bind-eq-some (write_candidates cs) _ h' in
    rw (← some-injective _ _ h'') (
      simp append_assoc (
        rw
          (Takes-candidate c first v.0 e (others ++ rest), Takes-candidates cs others v.1 e' rest)))

Takes-settings_text :
    (r : Response) (version : ℕ) (bytes : List ℕ)
    → IsResponse r
    → write_settings_text r version ≡ some bytes
    → Takes (read_settings_text version) (settings_at version r) bytes
unfolding write_settings_text read_settings_text
Takes-settings_text r version bytes v h = elim (Bool-cases (leb 6 version)) [
  | inl new ↦ rw new (Takes-utf8_string r.settings_text bytes v.settings_utf8 (rw new at h))
  | inr old ↦ rw (old, ← some-injective _ _ (rw old at h)) (Takes-pure [])
]

Takes-theme_chunk :
    (r : Response) (version : ℕ) (bytes : List ℕ)
    → write_theme_chunk r version ≡ some bytes
    → Takes (read_theme_chunk version) (chunk_at version r) bytes
unfolding write_theme_chunk read_theme_chunk
Takes-theme_chunk r version bytes h = elim (Bool-cases (leb 8 version)) [
  | inl new ↦ rw new (Takes-bytes r.theme_chunk bytes (rw new at h))
  | inr old ↦ rw (old, ← some-injective _ _ (rw old at h)) (Takes-pure [])
]

-- What a response that is not refused satisfies.
record Accepted (r : Response) (version : ℕ) : Type 0 where
  known : is_known_status r.status ≡ true
  few : length r.snapshot.candidates ≤ maximum_candidates
  supported : is_supported_protocol_version version ≡ true

accepted : (r : Response) (version : ℕ) → response_refused r version ≡ false → Accepted r version
unfolding response_refused
accepted r version h = record { known = ground arith; few = ground arith; supported = ground arith }

-- The part after the number of candidates.
tail_read :
    (r : Response) (version : ℕ) (candidates settings chunk : List ℕ)
    (build : List Candidate → List ℕ → List ℕ → Response)
    → IsResponse r
    → write_candidates r.snapshot.candidates ≡ some candidates
    → write_settings_text r version ≡ some settings
    → write_theme_chunk r version ≡ some chunk
    → read_response_tail version
        (length r.snapshot.candidates)
        r.snapshot.highlighted_index
        build
        (candidates ++ (settings ++ chunk))
      ≡ some
          ((build r.snapshot.candidates (settings_at version r) (chunk_at version r), version), [])
unfolding read_response_tail finished
tail_read r version candidates settings chunk build v ec es eh = rw (
  Takes-candidates r.snapshot.candidates candidates v.candidates_valid ec (settings ++ chunk),
  Takes-settings_text r version settings v es chunk,
  rw append-nil at (Takes-theme_chunk r version chunk eh []),
  v.highlighted_valid,
)

-- The whole response, read by the decoder.
read_response-write_response :
    (r : Response) (version : ℕ) (commit preedit candidates settings chunk : List ℕ)
    → IsResponse r
    → Accepted r version
    → write_string r.commit ≡ some commit
    → write_string r.snapshot.preedit ≡ some preedit
    → write_candidates r.snapshot.candidates ≡ some candidates
    → write_settings_text r version ≡ some settings
    → write_theme_chunk r version ≡ some chunk
    → read_response (write_response r version commit preedit candidates settings chunk)
      ≡ some ((at_version version r, version), [])
unfolding read_response write_response at_version
read_response-write_response r version commit preedit candidates settings chunk v a em ep ec es eh =
    let small : version < 2 ^ 16 = ground (arith, a.supported) in
    let cut : r.snapshot.highlighted_index % 2 ^ 32 ≡ r.snapshot.highlighted_index =
      omega (arith, v.highlighted_width) in
    let count : length r.snapshot.candidates % 2 ^ 32 ≡ length r.snapshot.candidates =
      omega (arith, a.few) in
    let few : leb (length r.snapshot.candidates) maximum_candidates ≡ true =
      le→leb (length r.snapshot.candidates) maximum_candidates a.few in
    let c11 = candidates ++ (settings ++ chunk) in
    let c10 = write_integer 4 (length r.snapshot.candidates) ++ c11 in
    let c9 = write_page_flags r.snapshot version ++ c10 in
    let c8 = write_integer 4 r.snapshot.highlighted_index ++ c9 in
    let c7 = preedit ++ c8 in
    let c6 = commit ++ c7 in
    let c5 = write_integer 1 (flag_byte r.consumed) ++ c6 in
    let c4 = write_integer 8 r.session_id ++ c5 in
    let c3 = write_integer 8 r.request_id ++ c4 in
    let c2 = write_integer 2 (status_code r.status) ++ c3 in
    rw (cut, count)
      (rw
        (
          Takes-integer 4 response_magic (omega arith) (write_integer 2 version ++ c2),
          Takes-integer 2 version small c2,
          a.supported,
          Takes-integer 2 (status_code r.status) (status_code-lt r.status a.known) c3,
          Takes-integer 8 r.request_id v.request_id_width c4,
          Takes-integer 8 r.session_id v.session_id_width c5,
          Takes-flag r.consumed c6,
          Takes-string r.commit commit v.commit_units em c7,
          Takes-string r.snapshot.preedit preedit v.preedit_units ep c8,
          Takes-integer 4 r.snapshot.highlighted_index v.highlighted_width c9,
          Takes-page_flags r version c10,
          Takes-integer 4 (length r.snapshot.candidates) (omega (arith, a.few)) c11,
          few,
          status_of-status_code r.status a.known,
          a.known,
        )
        (tail_read r version candidates settings chunk _ v ec es eh))

-- Whatever EncodeResponse sends, DecodeResponse reads back: the version, and the response with the
-- fields that the version does not carry reset (the page flags before 5, the settings before 6, the
-- theme chunk before 8). The ids and the scores of the response are 64-bit, its texts hold UTF-16 code
-- units, its settings text is UTF-8, and its highlighted index is that of a candidate, if there are
-- any. That index is also below 2^32, which is more than its type size_t asks: EncodeResponse writes
-- its low 32 bits, so that without candidates a greater index would be read back reduced.
pub decode_response-encode_response :
    (r : Response) (version : ℕ) (bytes : List ℕ)
    → IsResponse r
    → encode_response r version ≡ some bytes
    → decode_response bytes ≡ some (at_version version r, version)
unfolding encode_response decode_response
decode_response-encode_response r version bytes v h =
    elim (Bool-cases (response_refused r version)) [
      | inl refused ↦ absurd (cc (rw refused at h))
      | inr sent ↦
          let (commit, em, h1) = bind-eq-some (write_string r.commit) _ (rw sent at h) in
          let (preedit, ep, h2) = bind-eq-some (write_string r.snapshot.preedit) _ h1 in
          let (candidates, ec, h3) = bind-eq-some (write_candidates r.snapshot.candidates) _ h2 in
          let (settings, es, h4) = bind-eq-some (write_settings_text r version) _ h3 in
          let (chunk, eh, h5) = bind-eq-some (write_theme_chunk r version) _ h4 in
          let (le, same) =
            bounded-eq-some (write_response r version commit preedit candidates settings chunk)
              h5 in
          rw (
            same,
            le,
            read_response-write_response r version commit preedit candidates settings chunk v
                (accepted r version sent) em ep ec es eh,
          )
    ]
