-- ===== src/Ipc/Responses/Tail.antt =====
-- DecodeResponse behind the number of candidates: what was read is what EncodeResponse writes.
use ziliu_ime.Base.{ℕ, ◌≡◌, ap, Bool, true, some, List, [], ◌++◌, append-nil, All, length}
use ziliu_ime.Ipc.Types.{Candidate, Response}
use ziliu_ime.Ipc.Utf.{IsByte}
use ziliu_ime.Ipc.Reader.Blocks.{pure_value}
use ziliu_ime.Ipc.Reader.Texts.{IsUtf8}
use ziliu_ime.Ipc.Reader.Steps.{any_step, require_step, finished_step}
use ziliu_ime.Ipc.Responses.Encoder.{write_candidates, write_settings_text, write_theme_chunk}
use ziliu_ime.Ipc.Responses.Decoder.{
  PageFlags, read_candidates, read_settings_text, read_theme_chunk, is_index_valid,
  read_response_tail, response_of,
}
use ziliu_ime.Ipc.Responses.Valid.{IsCandidate, settings_at, chunk_at}
use ziliu_ime.Ipc.Responses.Parts.{candidates_read, settings_read, chunk_read}

-- What the decoder has read behind the number of candidates, for a response with these values.
pub record TailRead (r : Response) (version count : ℕ) (bytes : List ℕ) : Type 0 where
  pub candidates : List ℕ
  pub settings : List ℕ
  pub chunk : List ℕ
  pub candidates_written : write_candidates r.snapshot.candidates ≡ some candidates
  pub settings_written : write_settings_text r version ≡ some settings
  pub chunk_written : write_theme_chunk r version ≡ some chunk
  pub split : bytes ≡ candidates ++ (settings ++ chunk)
  pub number : length r.snapshot.candidates ≡ count
  pub index : is_index_valid r.snapshot.candidates r.snapshot.highlighted_index ≡ true
  pub candidates_valid : All IsCandidate r.snapshot.candidates
  pub settings_utf8 : IsUtf8 r.settings_text
  pub settings_kept : settings_at version r ≡ r.settings_text
  pub chunk_kept : chunk_at version r ≡ r.theme_chunk

module _ (status request_id session_id : ℕ) (consumed : Bool) (commit preedit : List ℕ)
    (highlighted : ℕ) (flags : PageFlags) where
  abbrev pub build : List Candidate → List ℕ → List ℕ → Response
  build = response_of status request_id session_id consumed commit preedit highlighted flags

  pub tail_read :
      (v count : ℕ) (bytes : List ℕ) (r : Response) (version : ℕ) (rest : List ℕ)
      → All IsByte bytes
      → read_response_tail v count highlighted build bytes ≡ some ((r, version), rest)
      → (cs : List Candidate) × (settings : List ℕ) × (chunk : List ℕ) × TailRead
          (build cs settings chunk)
          v
          count
          bytes
        × (build cs settings chunk ≡ r)
        × (v ≡ version)
  unfolding read_response_tail
  tail_read v count bytes r version rest lt h =
      any_step bytes (read_candidates count) _ h λ cs m1 e1 h1.
        any_step m1 (read_settings_text v) _ h1 λ settings m2 e2 h2.
          any_step m2 (read_theme_chunk v) _ h2 λ chunk m3 e3 h3. finished_step _ m3 h3 λ done h4.
            require_step (is_index_valid cs highlighted) _ [] h4 λ index h5.
              let q = build cs settings chunk in
              let (fc, wc, (sc, lt1), vc, len) = candidates_read count bytes cs m1 lt e1 in
              let (fs, ws, (ss, lt2), us, ks) = settings_read v m1 q m2 lt1 e2 in
              let (fh, wh, (sh, _), kh) = chunk_read v m2 q m3 lt2 e3 in
              (
                cs,
                settings,
                chunk,
                record {
                  candidates = fc;
                  settings = fs;
                  chunk = fh;
                  candidates_written = wc;
                  settings_written = ws;
                  chunk_written = wh;
                  split = rw (sc, ss, sh, done) (simp append-nil);
                  number = len;
                  index = index;
                  candidates_valid = vc;
                  settings_utf8 = us;
                  settings_kept = ks;
                  chunk_kept = kh;
                },
                ap (λ (p : Response × ℕ). p.0) (pure_value h5),
                ap (λ (p : Response × ℕ). p.1) (pure_value h5),
              )
