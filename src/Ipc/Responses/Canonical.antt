-- ===== src/Ipc/Responses/Canonical.antt =====
-- EncodeResponse against DecodeResponse: a message that is accepted is the one that is sent for its result.
use ziliu_ime.Base.{
  ℕ, ◌%◌, ◌^◌, ◌≤◌, ◌≡◌, refl, sym, ap, subst, true, false, some, List, [], arith, All, length, leb,
  ◌==◌, ==→eq, leb→le, le→leb,
}
use ziliu_ime.Ipc.Types.{
  Response, status_of, is_known_status, maximum_candidates, maximum_message_bytes,
  status_code-status_of,
}
use ziliu_ime.Ipc.Versions.{
  response_magic, is_supported_protocol_version, result_of, result_of-eq-some,
}
use ziliu_ime.Ipc.Utf.{IsByte}
use ziliu_ime.Ipc.Writer.{write_string}
use ziliu_ime.Ipc.Reader.Steps.{integer_step, string_step, any_step, require_step}
use ziliu_ime.Ipc.Responses.Encoder.{
  response_refused, write_page_flags, write_candidates, write_settings_text, write_theme_chunk,
  write_response, encode_response,
}
use ziliu_ime.Ipc.Responses.Decoder.{
  PageFlags, read_flag, read_page_flags, response_of, read_response, decode_response,
}
use ziliu_ime.Ipc.Responses.Valid.{IsResponse, flags_at, settings_at, chunk_at, at_version}
use ziliu_ime.Ipc.Responses.Parts.{flag_read, flags_read}
use ziliu_ime.Ipc.Responses.Tail.{tail_read}

-- The response that the encoder would send for what was read.
record ResponseRead (r : Response) (version : ℕ) (bytes : List ℕ) : Type 0 where
  commit : List ℕ
  preedit : List ℕ
  candidates : List ℕ
  settings : List ℕ
  chunk : List ℕ
  commit_written : write_string r.commit ≡ some commit
  preedit_written : write_string r.snapshot.preedit ≡ some preedit
  candidates_written : write_candidates r.snapshot.candidates ≡ some candidates
  settings_written : write_settings_text r version ≡ some settings
  chunk_written : write_theme_chunk r version ≡ some chunk
  whole : bytes ≡ write_response r version commit preedit candidates settings chunk
  sent : response_refused r version ≡ false
  valid : IsResponse r
  kept : at_version version r ≡ r

not_refused :
    (r : Response) (version : ℕ)
    → is_supported_protocol_version version ≡ true
    → is_known_status r.status ≡ true
    → length r.snapshot.candidates ≤ maximum_candidates
    → response_refused r version ≡ false
unfolding response_refused
not_refused r version supported known few = ground arith

few_candidates :
    (r : Response) (version : ℕ)
    → response_refused r version ≡ false
    → length r.snapshot.candidates ≤ maximum_candidates
unfolding response_refused
few_candidates r version h = ground arith

-- Where the version carries every field that is set, `at_version` changes nothing.
at_version_kept :
    (r : Response) (version : ℕ)
    → flags_at version r ≡ record {
      has_previous_page = r.snapshot.has_previous_page;
      has_next_page = r.snapshot.has_next_page;
    }
    → settings_at version r ≡ r.settings_text
    → chunk_at version r ≡ r.theme_chunk
    → at_version version r ≡ r
unfolding at_version
at_version_kept r version f s c =
    rw (
      ap (λ (p : PageFlags). p.has_previous_page) f,
      ap (λ (p : PageFlags). p.has_next_page) f,
      s,
      c,
    )

-- The reads, one after the other.
response_read :
    (bytes : List ℕ) (r : Response) (version : ℕ) (rest : List ℕ)
    → All IsByte bytes
    → read_response bytes ≡ some ((r, version), rest)
    → ResponseRead r version bytes
unfolding read_response write_response write_page_flags at_version
response_read bytes r version rest lt h = integer_step bytes 4 _ lt h λ magic m1 s1 _ lt1 h1.
    integer_step m1 2 _ lt1 h1 λ v m2 s2 _ lt2 h2.
      require_step (is_supported_protocol_version v) _ m2 h2 λ supported h3.
        integer_step m2 2 _ lt2 h3 λ status m4 s4 _ lt4 h4.
          integer_step m4 8 _ lt4 h4 λ request_id m5 s5 b5 lt5 h5.
            integer_step m5 8 _ lt5 h5 λ session_id m6 s6 b6 lt6 h6.
              any_step m6 read_flag _ h6 λ consumed m7 e7 h7.
                let (s7, lt7) = flag_read m6 consumed m7 lt6 e7 in
                string_step m7 _ lt7 h7 λ commit fc m8 wc s8 uc lt8 h8.
                  string_step m8 _ lt8 h8 λ preedit fp m9 wp s9 up lt9 h9.
                    integer_step m9 4 _ lt9 h9 λ highlighted m10 s10 b10 lt10 h10.
                      any_step m10 (read_page_flags v) _ h10 λ flags m11 e11 h11.
                        let q =
                          response_of status request_id session_id consumed commit preedit
                            highlighted flags in
                        let ((s11, lt11), kf) =
                          flags_read v m10 flags m11 (q [] [] []) lt10 refl refl e11 in
                        integer_step m11 4 _ lt11 h11 λ count m12 s12 _ lt12 h12.
                          require_step (magic == response_magic) _ m12 h12 λ right h13.
                            require_step (leb count maximum_candidates) _ m12 h13 λ few h14.
                              require_step (is_known_status (status_of status)) _ m12 h14
                                λ known h15.
                                  let (cs, settings, chunk, t, er, ev) =
                                    tail_read status request_id session_id consumed commit preedit
                                      highlighted flags v count m12 r version rest lt12 h15 in
                                  let few' : length cs ≤ maximum_candidates =
                                    subst (λ n. n ≤ maximum_candidates) (sym t.number)
                                      (leb→le count maximum_candidates few) in
                                  let cut : highlighted % 2 ^ 32 ≡ highlighted =
                                    omega (arith, b10) in
                                  let field : length cs % 2 ^ 32 ≡ count =
                                    omega (arith, t.number, few') in
                                  let found : ResponseRead (q cs settings chunk) v bytes = record {
                                    commit = fc;
                                    preedit = fp;
                                    candidates = t.candidates;
                                    settings = t.settings;
                                    chunk = t.chunk;
                                    commit_written = wc;
                                    preedit_written = wp;
                                    candidates_written = t.candidates_written;
                                    settings_written = t.settings_written;
                                    chunk_written = t.chunk_written;
                                    whole = rw (
                                      s1,
                                      ==→eq magic response_magic right,
                                      s2,
                                      s4,
                                      status_code-status_of status,
                                      s5,
                                      s6,
                                      s7,
                                      s8,
                                      s9,
                                      s10,
                                      cut,
                                      s11,
                                      s12,
                                      field,
                                      t.split,
                                    );
                                    sent = not_refused (q cs settings chunk) v supported known few';
                                    valid = record {
                                      request_id_width = b5;
                                      session_id_width = b6;
                                      commit_units = uc;
                                      preedit_units = up;
                                      highlighted_width = b10;
                                      highlighted_valid = t.index;
                                      candidates_valid = t.candidates_valid;
                                      settings_utf8 = t.settings_utf8;
                                    };
                                    kept =
                                        at_version_kept (q cs settings chunk) v (sym kf)
                                          t.settings_kept t.chunk_kept;
                                  } in
                                  subst (λ w. ResponseRead r w bytes) ev
                                    (subst (λ p. ResponseRead p v bytes) er found)

resent :
    (bytes : List ℕ) (r : Response) (version : ℕ)
    → length bytes ≤ maximum_message_bytes
    → ResponseRead r version bytes
    → encode_response r version ≡ some bytes
unfolding encode_response
resent bytes r version small found =
    let sent =
      write_response r version found.commit found.preedit found.candidates found.settings
        found.chunk in
    let le : length sent ≤ maximum_message_bytes =
      subst (λ xs. length xs ≤ maximum_message_bytes) found.whole small in
    rw
      (
        found.sent,
        found.commit_written,
        found.preedit_written,
        found.candidates_written,
        found.settings_written,
        found.chunk_written,
        le→leb (length sent) maximum_message_bytes le,
      )
      (ap some (sym found.whole))

-- A message that DecodeResponse accepts is, byte for byte, the one that EncodeResponse makes of its
-- result at the version that it gives. The result has the widths of its types, at most as many
-- candidates as the protocol allows, a valid highlighted index, and nothing that the version does not
-- carry.
pub encode_response-decode_response :
    (bytes : List ℕ) (r : Response) (version : ℕ)
    → All IsByte bytes
    → decode_response bytes ≡ some (r, version)
    → (encode_response r version ≡ some bytes)
      × IsResponse r
      × (length r.snapshot.candidates ≤ maximum_candidates)
      × (at_version version r ≡ r)
unfolding decode_response
encode_response-decode_response bytes r version lt h =
    let (small, h') = parts in
    let (rest, e) = result_of-eq-some (read_response bytes) h' in
    let found = response_read bytes r version rest lt e in
    (
      resent bytes r version small found,
      found.valid,
      few_candidates r version found.sent,
      found.kept,
    )
  where
    parts :
        (length bytes ≤ maximum_message_bytes)
        × (result_of (read_response bytes) ≡ some (r, version))
    parts = ground arith
