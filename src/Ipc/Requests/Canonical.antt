-- ===== src/Ipc/Requests/Canonical.antt =====
-- EncodeRequest against DecodeRequest: a message that is accepted is the one that is sent for its result.
use ziliu_ime.Base.{
  ℕ, ◌^◌, ◌<◌, ◌≤◌, ◌≡◌, refl, sym, ap, subst, Bool, true, false, not, some, List, [], ◌++◌,
  append-nil, append_assoc, arith, All, length, ltb, leb, ◌==◌, Bool-cases, inl, inr, ==→eq, le→leb,
}
use ziliu_ime.Ipc.Types.{Request, is_known_command, maximum_message_bytes, command_code-command_of}
use ziliu_ime.Ipc.Versions.{
  request_magic, is_supported_protocol_version, needs_newer_version, result_of, result_of-eq-some,
}
use ziliu_ime.Ipc.Utf.{IsByte, from_utf8, from_utf8_loop}
use ziliu_ime.Ipc.Writer.{write_integer}
use ziliu_ime.Ipc.Reader.{pure}
use ziliu_ime.Ipc.Reader.Blocks.{pure_value, pure_rest}
use ziliu_ime.Ipc.Reader.Texts.{IsUtf8}
use ziliu_ime.Ipc.Reader.Steps.{integer_step, utf8_step, any_step, require_step, finished_step}
use ziliu_ime.Ipc.Requests.Encoder.{
  request_refused, write_theme_fields, write_request, encode_request,
}
use ziliu_ime.Ipc.Requests.Decoder.{
  ThemeFields, read_theme_fields, read_present_theme_fields, no_theme_fields, request_of,
  check_request, read_request, decode_request,
}
use ziliu_ime.Ipc.Requests.RoundTrip.{IsRequest, theme_fields}

-- What the version 8 part of a message was, and what its fields satisfy.
record FieldsRead (r : Request) (version : ℕ) (bytes rest : List ℕ) : Type 0 where
  front : List ℕ
  written : write_theme_fields r version ≡ some front
  split : bytes ≡ front ++ rest
  plain : ltb version 8 ≡ true → theme_fields r ≡ no_theme_fields
  theme_id_utf8 : IsUtf8 r.theme_id
  resource_utf8 : IsUtf8 r.resource
  point_x_width : r.point_x < 2 ^ 32
  point_y_width : r.point_y < 2 ^ 32

present-FieldsRead :
    (r : Request) (version : ℕ) (bytes rest : List ℕ)
    → leb 8 version ≡ true
    → All IsByte bytes
    → read_present_theme_fields bytes ≡ some (theme_fields r, rest)
    → FieldsRead r version bytes rest
unfolding write_theme_fields
present-FieldsRead r version bytes rest new lt h = utf8_step bytes _ lt h λ t ft m1 wt st ut lt1 h1.
    utf8_step m1 _ lt1 h1 λ s fs m2 ws ss us lt2 h2. integer_step m2 4 _ lt2 h2 λ x m3 sx bx lt3 h3.
      integer_step m3 4 _ lt3 h3 λ y m4 sy by lt4 h4.
        let et : t ≡ r.theme_id = ap (λ (f : ThemeFields). f.theme_id) (pure_value h4) in
        let es : s ≡ r.resource = ap (λ (f : ThemeFields). f.resource) (pure_value h4) in
        let ex : x ≡ r.point_x = ap (λ (f : ThemeFields). f.point_x) (pure_value h4) in
        let ey : y ≡ r.point_y = ap (λ (f : ThemeFields). f.point_y) (pure_value h4) in
        record {
          front = ft ++ (fs ++ (write_integer 4 r.point_x ++ write_integer 4 r.point_y));
          written = rw (new, ← et, wt, ← es, ws);
          split = rw (st, ss, sx, sy, ex, ey, pure_rest h4) (simp append_assoc);
          plain = λ old. absurd (ground arith);
          theme_id_utf8 = subst IsUtf8 et ut;
          resource_utf8 = subst IsUtf8 es us;
          point_x_width = subst (λ n. n < 2 ^ 32) ex bx;
          point_y_width = subst (λ n. n < 2 ^ 32) ey by;
        }

absent-FieldsRead :
    (r : Request) (version : ℕ) (bytes rest : List ℕ)
    → leb 8 version ≡ false
    → pure no_theme_fields bytes ≡ some (theme_fields r, rest)
    → FieldsRead r version bytes rest
unfolding write_theme_fields
absent-FieldsRead r version bytes rest old h =
    let et : [] ≡ r.theme_id = cc in
    let es : [] ≡ r.resource = cc in
    let ex : 0 ≡ r.point_x = cc in
    let ey : 0 ≡ r.point_y = cc in
    record {
      front = [];
      written = rw old;
      split = cc;
      plain = λ _. cc;
      theme_id_utf8 = subst IsUtf8 et ([], unfold from_utf8 from_utf8_loop in refl);
      resource_utf8 = subst IsUtf8 es ([], unfold from_utf8 from_utf8_loop in refl);
      point_x_width = omega (arith, ex);
      point_y_width = omega (arith, ey);
    }

fields_read :
    (r : Request) (version : ℕ) (bytes rest : List ℕ)
    → All IsByte bytes
    → read_theme_fields version bytes ≡ some (theme_fields r, rest)
    → FieldsRead r version bytes rest
unfolding read_theme_fields
fields_read r version bytes rest lt h = elim (Bool-cases (leb 8 version)) [
  | inl new ↦ present-FieldsRead r version bytes rest new lt (rw new at h)
  | inr old ↦ absent-FieldsRead r version bytes rest old (rw old at h)
]

not-eq-true : (b : Bool) → not b ≡ true → b ≡ false
not-eq-true true h = cc
not-eq-true false h = refl

-- The request that the encoder would send for what was read.
record RequestRead (r : Request) (version : ℕ) (bytes : List ℕ) : Type 0 where
  fields : List ℕ
  written : write_theme_fields r version ≡ some fields
  whole : bytes ≡ write_request r version fields
  sent : request_refused r version ≡ false
  valid : IsRequest r

-- What the checks after the reads leave.
request_checked :
    (magic version : ℕ) (r : Request) (bytes : List ℕ) {r' : Request} {v : ℕ} {rest : List ℕ}
    → check_request magic version r bytes ≡ some ((r', v), rest)
    → (bytes ≡ [])
      × (magic ≡ request_magic)
      × (is_supported_protocol_version version ≡ true)
      × (is_known_command r.command ≡ true)
      × (needs_newer_version version r.command r.value ≡ false)
      × (r ≡ r')
      × (version ≡ v)
      × (rest ≡ [])
request_checked magic version r bytes h = finished_step _ bytes h λ none_left h1.
    require_step (magic == request_magic) _ [] h1 λ t1 h2.
      require_step (is_supported_protocol_version version) _ [] h2 λ t2 h3.
        require_step (is_known_command r.command) _ [] h3 λ t3 h4.
          require_step (not (needs_newer_version version r.command r.value)) _ [] h4 λ t4 h5. (
            none_left,
            ==→eq magic request_magic t1,
            t2,
            t3,
            not-eq-true _ t4,
            ap (λ (p : Request × ℕ). p.0) (pure_value h5),
            ap (λ (p : Request × ℕ). p.1) (pure_value h5),
            sym (pure_rest h5),
          )

not_refused :
    (r : Request) (version : ℕ)
    → is_supported_protocol_version version ≡ true
    → is_known_command r.command ≡ true
    → needs_newer_version version r.command r.value ≡ false
    → (ltb version 8 ≡ true → theme_fields r ≡ no_theme_fields)
    → request_refused r version ≡ false
unfolding request_refused
not_refused r version supported known recent plain = elim (Bool-cases (ltb version 8)) [
  | inl old ↦
      let same = plain old in
      let et = ap (λ (f : ThemeFields). length f.theme_id) same in
      let es = ap (λ (f : ThemeFields). length f.resource) same in
      let ex = ap (λ (f : ThemeFields). f.point_x) same in
      let ey = ap (λ (f : ThemeFields). f.point_y) same in
      rw (known, supported, recent, et, es, ex, ey, old)
  | inr new ↦ rw (known, supported, recent, new)
]

-- The reads, one after the other.
request_read :
    (bytes : List ℕ) (r : Request) (version : ℕ) (rest : List ℕ)
    → All IsByte bytes
    → read_request bytes ≡ some ((r, version), rest)
    → RequestRead r version bytes
unfolding read_request write_request
request_read bytes r version rest lt h = integer_step bytes 4 _ lt h λ magic m1 s1 _ lt1 h1.
    integer_step m1 2 _ lt1 h1 λ version' m2 s2 _ lt2 h2.
      integer_step m2 2 _ lt2 h2 λ command m3 s3 _ lt3 h3.
        integer_step m3 8 _ lt3 h3 λ request_id m4 s4 b4 lt4 h4.
          integer_step m4 8 _ lt4 h4 λ session_id m5 s5 b5 lt5 h5.
            integer_step m5 4 _ lt5 h5 λ value m6 s6 b6 lt6 h6.
              any_step m6 (read_theme_fields version') _ h6 λ fields m7 e7 h7.
                let r' = request_of command request_id session_id value fields in
                let (done, e1, e2, e3, e4, er, ev, _) = request_checked magic version' r' m7 h7 in
                let fr = fields_read r' version' m6 m7 lt6 e7 in
                let found : RequestRead r' version' bytes = record {
                  fields = fr.front;
                  written = fr.written;
                  whole =
                      rw
                        (
                          s1,
                          s2,
                          s3,
                          s4,
                          s5,
                          s6,
                          fr.split,
                          done,
                          e1,
                          command_code-command_of command,
                        )
                        (simp append-nil);
                  sent = not_refused r' version' e2 e3 e4 fr.plain;
                  valid = record {
                    request_id_width = b4;
                    session_id_width = b5;
                    value_width = b6;
                    point_x_width = fr.point_x_width;
                    point_y_width = fr.point_y_width;
                    theme_id_utf8 = fr.theme_id_utf8;
                    resource_utf8 = fr.resource_utf8;
                  };
                } in
                subst (λ v. RequestRead r v bytes) ev
                  (subst (λ q. RequestRead q version' bytes) er found)

-- A message that DecodeRequest accepts is, byte for byte, the one that EncodeRequest makes of its
-- result at the version that it gives, and the result has the widths of its types and UTF-8 in its
-- two byte strings.
pub encode_request-decode_request :
    (bytes : List ℕ) (r : Request) (version : ℕ)
    → All IsByte bytes
    → decode_request bytes ≡ some (r, version)
    → (encode_request r version ≡ some bytes) × IsRequest r
unfolding decode_request encode_request
encode_request-decode_request bytes r version lt h =
    let (small, h') = parts in
    let (rest, e) = result_of-eq-some (read_request bytes) h' in
    let found = request_read bytes r version rest lt e in
    let le : length (write_request r version found.fields) ≤ maximum_message_bytes =
      subst (λ xs. length xs ≤ maximum_message_bytes) found.whole small in
    (rw (found.sent, found.written, le→leb _ _ le, found.whole), found.valid)
  where
    parts :
        (length bytes ≤ maximum_message_bytes)
        × (result_of (read_request bytes) ≡ some (r, version))
    parts = ground arith
