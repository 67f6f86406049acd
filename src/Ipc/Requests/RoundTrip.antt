-- ===== src/Ipc/Requests/RoundTrip.antt =====
-- DecodeRequest against EncodeRequest, in both directions and at every protocol version.
use ziliu_ime.Base.{
  ℕ, ◌^◌, ◌<◌, ◌≡◌, refl, subst, true, false, some, List, [], ◌∷◌, ◌++◌, append-nil, append_assoc,
  arith, length, ltb, leb, ◌==◌, Bool-cases, inl, inr,
}
use ziliu_ime.Base.{>>=-eq-some as bind-eq-some}
use ziliu_ime.Ipc.Types.{
  Request, command_code, is_known_command, command_of-command_code, command_code-lt,
}
use ziliu_ime.Ipc.Versions.{
  request_magic, is_supported_protocol_version, needs_newer_version, bounded-eq-some,
}
use ziliu_ime.Ipc.Writer.{write_integer, write_utf8_string}
use mathlib.Core.Option.{some-injective}
use ziliu_ime.Ipc.Reader.{finished}
use ziliu_ime.Ipc.Reader.Blocks.{Takes, Takes-integer}
use ziliu_ime.Ipc.Reader.Texts.{IsUtf8, Takes-utf8_string}
use ziliu_ime.Ipc.Requests.Encoder.{
  request_refused, write_theme_fields, write_request, encode_request,
}
use ziliu_ime.Ipc.Requests.Decoder.{
  ThemeFields, read_theme_fields, read_present_theme_fields, read_request, decode_request,
}

-- The fields have the widths of their C++ types, and the two byte strings are UTF-8.
pub record IsRequest (r : Request) : Type 0 where
  pub request_id_width : r.request_id < 2 ^ 64
  pub session_id_width : r.session_id < 2 ^ 64
  pub value_width : r.value < 2 ^ 32
  pub point_x_width : r.point_x < 2 ^ 32
  pub point_y_width : r.point_y < 2 ^ 32
  pub theme_id_utf8 : IsUtf8 r.theme_id
  pub resource_utf8 : IsUtf8 r.resource

-- What a request that is not refused satisfies.
record Accepted (r : Request) (version : ℕ) : Type 0 where
  known : is_known_command r.command ≡ true
  supported : is_supported_protocol_version version ≡ true
  recent : needs_newer_version version r.command r.value ≡ false
  plain :
      ltb version 8 ≡ true
      → (r.theme_id ≡ []) × (r.resource ≡ []) × (r.point_x ≡ 0) × (r.point_y ≡ 0)

length-eq-zero : (xs : List ℕ) → (length xs == 0) ≡ true → xs ≡ []
length-eq-zero [] h = refl
length-eq-zero (x ∷ xs) h = ground arith

accepted : (r : Request) (version : ℕ) → request_refused r version ≡ false → Accepted r version
unfolding request_refused
accepted r version h = record {
  known = ground arith;
  supported = ground arith;
  recent = ground arith;
  plain = λ old. (
    length-eq-zero r.theme_id (ground arith),
    length-eq-zero r.resource (ground arith),
    ground arith,
    ground arith,
  );
}

abbrev pub theme_fields : Request → ThemeFields
theme_fields r = record {
  theme_id = r.theme_id;
  resource = r.resource;
  point_x = r.point_x;
  point_y = r.point_y;
}

Takes-present_fields :
    (r : Request) (theme_id resource : List ℕ)
    → IsRequest r
    → write_utf8_string r.theme_id ≡ some theme_id
    → write_utf8_string r.resource ≡ some resource
    → Takes read_present_theme_fields
        (theme_fields r)
        (theme_id ++ (resource ++ (write_integer 4 r.point_x ++ write_integer 4 r.point_y)))
Takes-present_fields r theme_id resource v e e' rest =
    let y = write_integer 4 r.point_y ++ rest in
    let x = write_integer 4 r.point_x ++ y in
    simp append_assoc (
      rw (
        Takes-utf8_string r.theme_id theme_id v.theme_id_utf8 e (resource ++ x),
        Takes-utf8_string r.resource resource v.resource_utf8 e' x,
        Takes-integer 4 r.point_x v.point_x_width y,
        Takes-integer 4 r.point_y v.point_y_width rest,
      ))

-- The version 8 part, present or not.
Takes-theme_fields :
    (r : Request) (version : ℕ) (bytes : List ℕ)
    → IsRequest r
    → Accepted r version
    → write_theme_fields r version ≡ some bytes
    → Takes (read_theme_fields version) (theme_fields r) bytes
unfolding write_theme_fields read_theme_fields
Takes-theme_fields r version bytes v a h = elim (Bool-cases (leb 8 version)) [
  | inl new ↦
      let (theme_id, e, h') = bind-eq-some (write_utf8_string r.theme_id) _ (rw new at h) in
      let (resource, e', h'') = bind-eq-some (write_utf8_string r.resource) _ h' in
      subst (Takes (read_theme_fields version) (theme_fields r)) (some-injective _ _ h'')
        (rw new (Takes-present_fields r theme_id resource v e e'))
  | inr old ↦
      let (t, s, x, y) = a.plain (ground arith) in
      let none_left : bytes ≡ [] = ground arith in rw (old, none_left) (λ rest. rw (t, s, x, y))
]

-- The whole request, read by the decoder.
read_request-write_request :
    (r : Request) (version : ℕ) (fields : List ℕ)
    → IsRequest r
    → Accepted r version
    → write_theme_fields r version ≡ some fields
    → read_request (write_request r version fields) ≡ some ((r, version), [])
unfolding read_request write_request finished
read_request-write_request r version fields v a h =
    let small : version < 2 ^ 16 = ground (arith, a.supported) in
    let c6 = write_integer 4 r.value ++ fields in
    let c5 = write_integer 8 r.session_id ++ c6 in
    let c4 = write_integer 8 r.request_id ++ c5 in
    let c3 = write_integer 2 (command_code r.command) ++ c4 in
    rw (
      Takes-integer 4 request_magic (omega arith) (write_integer 2 version ++ c3),
      Takes-integer 2 version small c3,
      Takes-integer 2 (command_code r.command) (command_code-lt r.command a.known) c4,
      Takes-integer 8 r.request_id v.request_id_width c5,
      Takes-integer 8 r.session_id v.session_id_width c6,
      Takes-integer 4 r.value v.value_width fields,
      rw append-nil at (Takes-theme_fields r version fields v a h []),
      a.supported,
      command_of-command_code r.command a.known,
      a.known,
      a.recent,
    )

-- Whatever EncodeRequest sends, at any of the versions 4 to 8, DecodeRequest reads back: the same
-- request and the same version. The request's fields have the widths of their types, and its two
-- byte strings are UTF-8.
pub decode_request-encode_request :
    (r : Request) (version : ℕ) (bytes : List ℕ)
    → IsRequest r
    → encode_request r version ≡ some bytes
    → decode_request bytes ≡ some (r, version)
unfolding encode_request decode_request
decode_request-encode_request r version bytes v h = elim (Bool-cases (request_refused r version)) [
  | inl refused ↦ absurd (cc (rw refused at h))
  | inr sent ↦
      let (fields, e, h') = bind-eq-some (write_theme_fields r version) _ (rw sent at h) in
      let (le, same) = bounded-eq-some (write_request r version fields) h' in
      rw (same, le, read_request-write_request r version fields v (accepted r version sent) e)
]
