-- ===== src/Examples/Exchanges.antt =====
-- Whole exchanges over the pipe: a letter for the second of two sessions, and a message of one byte.
use ziliu_ime.Base.{ℕ, ◌≡◌, refl, sym, subst, true, false, none, some, List, [], ◌∷◌, arith}
use ziliu_ime.Ipc.Types.{
  Response, invalid_request, empty_response, protocol_version, is_known_status, empty_snapshot,
  command_code, status_code,
}
use ziliu_ime.Ipc.Requests.Decoder.{decode_request, read_request}
use ziliu_ime.Ipc.Reader.{read_integer, read_integer_loop}
use ziliu_ime.Ipc.Responses.Decoder.{decode_response}
use ziliu_ime.Ipc.Responses.Valid.{IsResponse, at_version}
use ziliu_ime.Ipc.Responses.Encoder.{encode_response, write_page_flags}
use ziliu_ime.Ipc.Utf.{to_utf8, from_utf8, from_utf8_loop, code_point_bytes}
use ziliu_ime.Ipc.Writer.{write_string, write_bytes, write_integer}
use ziliu_ime.Engine.Han.{is_chinese_candidate, all_han, is_han_code_point}
use ziliu_ime.Engine.Stub.{
  snapshot, process_letter, refresh_candidates, refreshed, found_candidates, find_candidates,
  lookup_key, raw_candidates,
}
use ziliu_ime.Session.{handle, handle_command, handle_found, find, reply, serve, input}
use ziliu_ime.Server.{dispatch, serve_client, answer, has_foreign_fields}
use ziliu_ime.Server.Clients.{serve_client-encode_request, serve_client-invalid}
use ziliu_ime.Examples.Messages.{
  letter_request, letter_request-IsRequest, letter_bytes, letter_bytes_sent, letter_bytes_read,
}
use ziliu_ime.Examples.Alphabet.{is_alpha}
use ziliu_ime.Examples.Hosts.{engine, factory, two_sessions, providers}

abbrev letter_response : Response
letter_response = record empty_response {
  request_id = 7;
  session_id = 2;
  consumed = true;
  snapshot = record empty_snapshot { preedit = 110 ∷ [] };
}

letter_response_given :
    (dispatch engine factory is_alpha providers letter_request two_sessions).1 ≡ letter_response
unfolding dispatch handle has_foreign_fields command_code handle_command handle_found find reply
    serve snapshot input process_letter refresh_candidates refreshed found_candidates
    find_candidates lookup_key raw_candidates is_chinese_candidate all_han is_han_code_point
letter_response_given = refl

letter_response-IsResponse : IsResponse letter_response
unfolding from_utf8 from_utf8_loop
letter_response-IsResponse = record {
  request_id_width = omega arith;
  session_id_width = omega arith;
  commit_units = tt;
  preedit_units = (omega arith, tt);
  highlighted_width = omega arith;
  highlighted_valid = refl;
  candidates_valid = tt;
  settings_utf8 = ([], refl);
}

abbrev letter_answer : List ℕ
letter_answer =
    90 ∷ 76 ∷ 82 ∷ 49 ∷ 6 ∷ 0 ∷ 0 ∷ 0 ∷ 7 ∷ 0 ∷ 0 ∷ 0 ∷ 0 ∷ 0 ∷ 0 ∷ 0 ∷ 2 ∷ 0 ∷ 0 ∷ 0 ∷ 0 ∷ 0 ∷ 0
    ∷ 0 ∷ 1 ∷ 0 ∷ 0 ∷ 0 ∷ 0 ∷ 1 ∷ 0 ∷ 0 ∷ 0 ∷ 110 ∷ 0 ∷ 0 ∷ 0 ∷ 0 ∷ 0 ∷ 0 ∷ 0 ∷ 0 ∷ 0 ∷ 0 ∷ 0 ∷ 0
    ∷ 0 ∷ 0 ∷ []

letter_answer_sent :
    (serve_client engine factory is_alpha providers true (some letter_bytes) two_sessions).1
    ≡ some letter_answer
unfolding serve_client answer encode_response is_known_status write_string to_utf8 write_bytes
    write_integer write_page_flags code_point_bytes status_code
letter_answer_sent = rw (letter_bytes_read, letter_response_given) refl

serve_client-encode_request_example :
    ((serve_client engine factory is_alpha providers true (some letter_bytes) two_sessions).0
      ≡ (dispatch engine factory is_alpha providers letter_request two_sessions).0)
    × (decode_response letter_answer
        ≡ some (
          at_version 6 (dispatch engine factory is_alpha providers letter_request two_sessions).1,
          6,
        ))
serve_client-encode_request_example =
    serve_client-encode_request engine factory is_alpha providers letter_request 6 letter_bytes
      letter_answer two_sessions letter_request-IsRequest letter_bytes_sent
      (subst IsResponse (sym letter_response_given) letter_response-IsResponse) letter_answer_sent

one_byte : decode_request (90 ∷ []) ≡ none
unfolding decode_request read_request read_integer read_integer_loop
one_byte = refl

serve_client-invalid_example :
    ((serve_client engine factory is_alpha providers false (some (90 ∷ [])) two_sessions).0
      ≡ two_sessions)
    × ((sent : List ℕ) × ((serve_client engine factory is_alpha providers false
            (some (90 ∷ []))
            two_sessions).1
          ≡ some sent)
        × (decode_response sent
            ≡ some (record empty_response { status = invalid_request }, protocol_version)))
serve_client-invalid_example =
    serve_client-invalid engine factory is_alpha providers false (some (90 ∷ [])) two_sessions
      one_byte
