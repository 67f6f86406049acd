-- ===== src/Server/Clients.antt =====
-- A whole exchange between a client and the server: encoded, decoded, served and encoded again.
use ziliu_ime.Base.{ℕ, ◌≡◌, refl, Bool, true, Option, none, some, List, [], arith}
use ziliu_ime.Ipc.Types.{
  invalid_request, is_known_status, Request, Response, empty_response, protocol_version,
}
use ziliu_ime.Ipc.Requests.Encoder.{encode_request}
use ziliu_ime.Ipc.Requests.RoundTrip.{IsRequest, decode_request-encode_request}
use ziliu_ime.Ipc.Responses.Encoder.{encode_response, write_page_flags}
use ziliu_ime.Ipc.Responses.Decoder.{decode_response}
use ziliu_ime.Ipc.Responses.Valid.{IsResponse, at_version}
use ziliu_ime.Ipc.Responses.RoundTrip.{decode_response-encode_response}
use ziliu_ime.Ipc.Utf.{to_utf8, from_utf8, from_utf8_loop}
use ziliu_ime.Ipc.Writer.{write_string, write_bytes, write_integer}
use ziliu_ime.Engine.Interface.{Engine}
use ziliu_ime.Session.{SessionHost}
use ziliu_ime.Server.{Providers, dispatch, answer, serve_client, decoded}

abbrev rejection : Response
rejection = record empty_response { status = invalid_request }

rejection-IsResponse : IsResponse rejection
unfolding from_utf8 from_utf8_loop
rejection-IsResponse = record {
  request_id_width = omega arith;
  session_id_width = omega arith;
  commit_units = tt;
  preedit_units = tt;
  highlighted_width = omega arith;
  highlighted_valid = refl;
  candidates_valid = tt;
  settings_utf8 = ([], refl);
}

rejection_sent : (bytes : List ℕ) × (encode_response rejection protocol_version ≡ some bytes)
unfolding encode_response is_known_status write_string to_utf8 write_bytes write_integer
    write_page_flags
rejection_sent = (_, refl)

module _ (engine : Engine) (factory : Bool → Option engine.State) (is_alpha : ℕ → Bool)
    (providers : Providers) where
  -- An exchange over the pipe, from a client of the same user and session, whose request has fields of the
  -- widths of their types and a theme id and a resource in UTF-8, and is encoded by EncodeRequest. Where
  -- the response of the dispatch has 64-bit ids and scores, texts of UTF-16 code units, settings in
  -- UTF-8, and a highlighted index that is below 2^32 and that of a candidate, if there are any, and
  -- where bytes are sent back, the host is as the dispatch of the request leaves it, and DecodeResponse
  -- reads from the bytes the response of the dispatch, less what the protocol version of the request
  -- does not carry.
  pub serve_client-encode_request :
      (r : Request) (version : ℕ) (bytes sent : List ℕ) (host : SessionHost engine.State)
      → IsRequest r
      → encode_request r version ≡ some bytes
      → IsResponse (dispatch engine factory is_alpha providers r host).1
      → (serve_client engine factory is_alpha providers true (some bytes) host).1 ≡ some sent
      → ((serve_client engine factory is_alpha providers true (some bytes) host).0
          ≡ (dispatch engine factory is_alpha providers r host).0)
        × (decode_response sent
            ≡ some
                (at_version version (dispatch engine factory is_alpha providers r host).1, version))
  unfolding serve_client answer
  serve_client-encode_request r version bytes sent host v e valid h =
      let read = decode_request-encode_request r version bytes v e in
      let response = (dispatch engine factory is_alpha providers r host).1 in
      (rw read refl, decode_response-encode_response response version sent valid (rw read at h))

  -- A client is answered even where its message cannot be read or decoded: the sessions stay as they
  -- are, and the client decodes a response with the status for an invalid request.
  pub serve_client-invalid :
      (same_user : Bool) (read : Option (List ℕ)) (host : SessionHost engine.State)
      → decoded engine factory is_alpha providers read ≡ none
      → ((serve_client engine factory is_alpha providers same_user read host).0 ≡ host)
        × ((sent : List ℕ) × ((serve_client engine factory is_alpha providers same_user read host).1
              ≡ some sent)
            × (decode_response sent
                ≡ some (record empty_response { status = invalid_request }, protocol_version)))
  unfolding serve_client answer at_version
  serve_client-invalid same_user read host h =
      let (sent, e) = rejection_sent in
      rw h (
        refl,
        (
          sent,
          e,
          decode_response-encode_response rejection protocol_version sent rejection-IsResponse e,
        ),
      )
