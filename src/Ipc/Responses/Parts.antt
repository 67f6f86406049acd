-- ===== src/Ipc/Responses/Parts.antt =====
-- The parts of a response: what the decoder has read of each is what the encoder writes for it.
use ziliu_ime.Base.{
  ℕ, zero, suc, ◌≡◌, refl, sym, ap, ◌∙◌, subst, Bool, true, false, not, some, List, [], ◌++◌,
  append_assoc, arith, All, length, leb, ◌==◌, Bool-cases, inl, inr,
}
use ziliu_ime.Ipc.Types.{Candidate, Response}
use ziliu_ime.Ipc.Utf.{IsByte, from_utf8, from_utf8_loop}
use ziliu_ime.Ipc.Writer.{write_integer}
use ziliu_ime.Ipc.Reader.{pure}
use ziliu_ime.Ipc.Reader.Blocks.{pure_value, pure_rest}
use ziliu_ime.Ipc.Reader.Texts.{IsUtf8, read_utf8_string-eq-some, read_bytes-eq-some}
use ziliu_ime.Ipc.Reader.Steps.{integer_step, string_step, any_step, require_step}
use ziliu_ime.Ipc.Responses.Encoder.{
  flag_byte, write_page_flags, write_candidate, write_candidates, write_settings_text,
  write_theme_chunk,
}
use ziliu_ime.Ipc.Responses.Decoder.{
  PageFlags, read_flag, read_present_flags, no_flags, read_page_flags, read_candidate,
  read_candidates, read_settings_text, read_theme_chunk,
}
use ziliu_ime.Ipc.Responses.Valid.{IsCandidate, flags_at, settings_at, chunk_at}

-- `front` is what was read, and `rest` is left.
abbrev pub Split : List ℕ → List ℕ → List ℕ → Type 0
Split bytes front rest = (bytes ≡ front ++ rest) × All IsByte rest

flag_of_byte : (n : ℕ) → leb n 1 ≡ true → flag_byte (not (n == 0)) ≡ n
flag_of_byte n h = ground arith

pub flag_read :
    (bytes : List ℕ) (b : Bool) (rest : List ℕ)
    → All IsByte bytes
    → read_flag bytes ≡ some (b, rest)
    → Split bytes (write_integer 1 (flag_byte b)) rest
flag_read bytes b rest lt h = integer_step bytes 1 _ lt h λ n m1 s1 _ lt1 h1.
    require_step (leb n 1) _ m1 h1 λ le h2.
      let same : flag_byte b ≡ n = ap flag_byte (sym (pure_value h2)) ∙ flag_of_byte n le in
      (rw (s1, same, pure_rest h2), subst (All IsByte) (pure_rest h2) lt1)

-- The page flags, present or not, of any response that has them.
pub flags_read :
    (version : ℕ) (bytes : List ℕ) (f : PageFlags) (rest : List ℕ) (r : Response)
    → All IsByte bytes
    → f.has_previous_page ≡ r.snapshot.has_previous_page
    → f.has_next_page ≡ r.snapshot.has_next_page
    → read_page_flags version bytes ≡ some (f, rest)
    → Split bytes (write_page_flags r.snapshot version) rest × (f ≡ flags_at version r)
unfolding read_page_flags write_page_flags
flags_read version bytes f rest r lt p n h = elim (Bool-cases (leb 5 version)) [
  | inl new ↦ present new (rw new at h)
  | inr old ↦ absent old (rw old at h)
]
  where
    present :
        leb 5 version ≡ true
        → read_present_flags bytes ≡ some (f, rest)
        → Split bytes (write_page_flags r.snapshot version) rest × (f ≡ flags_at version r)
    present new h' = any_step bytes read_flag _ h' λ a m1 e1 h1.
        any_step m1 read_flag _ h1 λ b m2 e2 h2.
          let (s1, lt1) = flag_read bytes a m1 lt e1 in
          let (s2, lt2) = flag_read m1 b m2 lt1 e2 in
          let ea : a ≡ r.snapshot.has_previous_page =
            ap (λ (q : PageFlags). q.has_previous_page) (pure_value h2) ∙ p in
          let eb : b ≡ r.snapshot.has_next_page =
            ap (λ (q : PageFlags). q.has_next_page) (pure_value h2) ∙ n in
          (
            (
              rw (new, s1, s2, ea, eb, pure_rest h2) (simp append_assoc),
              subst (All IsByte) (pure_rest h2) lt2,
            ),
            rw (new, ← p, ← n),
          )

    absent :
        leb 5 version ≡ false
        → pure no_flags bytes ≡ some (f, rest)
        → Split bytes (write_page_flags r.snapshot version) rest × (f ≡ flags_at version r)
    absent old h' = (
      (rw old (pure_rest h'), subst (All IsByte) (pure_rest h') lt),
      rw old (sym (pure_value h')),
    )

candidate_read :
    (bytes : List ℕ) (c : Candidate) (rest : List ℕ)
    → All IsByte bytes
    → read_candidate bytes ≡ some (c, rest)
    → (front : List ℕ) × (write_candidate c ≡ some front) × Split bytes front rest × IsCandidate c
unfolding write_candidate
candidate_read bytes c rest lt h = string_step bytes _ lt h λ text ft m1 wt st ut lt1 h1.
    string_step m1 _ lt1 h1 λ annotation fa m2 wa sa ua lt2 h2.
      integer_step m2 8 _ lt2 h2 λ score m3 s3 b3 lt3 h3.
        let found : Candidate = record { text = text; annotation = annotation; score = score } in
        let same : found ≡ c = pure_value h3 in
        subst
          (λ q.
            (front : List ℕ) × (write_candidate q ≡ some front)
            × Split bytes front rest
            × IsCandidate q)
          same
          (
            ft ++ (fa ++ write_integer 8 score),
            rw (wt, wa),
            (
              rw (st, sa, s3, pure_rest h3) (simp append_assoc),
              subst (All IsByte) (pure_rest h3) lt3,
            ),
            record { text_units = ut; annotation_units = ua; score_width = b3 },
          )

pub candidates_read :
    (n : ℕ) (bytes : List ℕ) (cs : List Candidate) (rest : List ℕ)
    → All IsByte bytes
    → read_candidates n bytes ≡ some (cs, rest)
    → (front : List ℕ) × (write_candidates cs ≡ some front)
      × Split bytes front rest
      × All IsCandidate cs
      × (length cs ≡ n)
unfolding read_candidates write_candidates
candidates_read zero bytes cs rest lt h =
    subst
      (λ q.
        (front : List ℕ) × (write_candidates q ≡ some front)
        × Split bytes front rest
        × All IsCandidate q
        × (length q ≡ 0))
      (pure_value h) ([], refl, (pure_rest h, subst (All IsByte) (pure_rest h) lt), tt, refl)
candidates_read (suc n) bytes cs rest lt h = any_step bytes read_candidate _ h λ c m1 e1 h1.
    let (f1, w1, (s1, lt1), v1) = candidate_read bytes c m1 lt e1 in
    any_step m1 (read_candidates n) _ h1 λ others m2 e2 h2.
      let (f2, w2, (s2, lt2), v2, len) = candidates_read n m1 others m2 lt1 e2 in
      subst
        (λ q.
          (front : List ℕ) × (write_candidates q ≡ some front)
          × Split bytes front rest
          × All IsCandidate q
          × (length q ≡ suc n))
        (pure_value h2)
        (
          f1 ++ f2,
          rw (w1, w2),
          (rw (s1, s2, pure_rest h2) (simp append_assoc), subst (All IsByte) (pure_rest h2) lt2),
          (v1, v2),
          ap suc len,
        )

pub settings_read :
    (version : ℕ) (bytes : List ℕ) (r : Response) (rest : List ℕ)
    → All IsByte bytes
    → read_settings_text version bytes ≡ some (r.settings_text, rest)
    → (front : List ℕ) × (write_settings_text r version ≡ some front)
      × Split bytes front rest
      × IsUtf8 r.settings_text
      × (settings_at version r ≡ r.settings_text)
unfolding read_settings_text write_settings_text
settings_read version bytes r rest lt h = elim (Bool-cases (leb 6 version)) [
  | inl new ↦
      let (front, w, s, valid, _, lt') = read_utf8_string-eq-some bytes lt (rw new at h) in
      (front, rw new w, (s, lt'), valid, rw new)
  | inr old ↦
      let h' : pure [] bytes ≡ some (r.settings_text, rest) = rw old at h in
      let nothing : [] ≡ r.settings_text = pure_value h' in
      (
        [],
        rw old,
        (pure_rest h', subst (All IsByte) (pure_rest h') lt),
        subst IsUtf8 nothing ([], unfold from_utf8 from_utf8_loop in refl),
        rw old nothing,
      )
]

pub chunk_read :
    (version : ℕ) (bytes : List ℕ) (r : Response) (rest : List ℕ)
    → All IsByte bytes
    → read_theme_chunk version bytes ≡ some (r.theme_chunk, rest)
    → (front : List ℕ) × (write_theme_chunk r version ≡ some front)
      × Split bytes front rest
      × (chunk_at version r ≡ r.theme_chunk)
unfolding read_theme_chunk write_theme_chunk
chunk_read version bytes r rest lt h = elim (Bool-cases (leb 8 version)) [
  | inl new ↦
      let (front, w, s, _, lt') = read_bytes-eq-some bytes lt (rw new at h) in
      (front, rw new w, (s, lt'), rw new)
  | inr old ↦
      let h' : pure [] bytes ≡ some (r.theme_chunk, rest) = rw old at h in
      ([], rw old, (pure_rest h', subst (All IsByte) (pure_rest h') lt), rw old (pure_value h'))
]
