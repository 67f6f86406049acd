-- ===== src/Examples/Messages.antt =====
-- The messages: a request and a response with a candidate, encoded and decoded.
use ziliu_ime.Base.{
  ℕ, ◌≤◌, ◌≡◌, refl, Bool, true, false, ◌&&◌, ltb, some, List, [], ◌∷◌, arith, All, length,
}
use ziliu_ime.Ipc.Types.{
  maximum_candidates, Request, Response, input_letter, empty_response, command_code,
  is_known_command, is_known_status, status_code,
}
use ziliu_ime.Ipc.Utf.{IsByte, IsUnit, to_utf8, from_utf8, from_utf8_loop, code_point_bytes}
use ziliu_ime.Ipc.Utf.RoundTrip.{from_utf8-to_utf8, to_utf8-from_utf8}
use ziliu_ime.Ipc.Writer.{write_integer, write_string, write_bytes}
use ziliu_ime.Ipc.Versions.{needs_newer_version}
use ziliu_ime.Ipc.Requests.Encoder.{
  encode_request, write_theme_fields, write_request, request_refused,
}
use ziliu_ime.Ipc.Requests.Decoder.{decode_request}
use ziliu_ime.Ipc.Requests.RoundTrip.{IsRequest, decode_request-encode_request}
use ziliu_ime.Ipc.Requests.Canonical.{encode_request-decode_request}
use ziliu_ime.Ipc.Responses.Encoder.{encode_response, write_page_flags, write_candidate}
use ziliu_ime.Ipc.Responses.Decoder.{decode_response}
use ziliu_ime.Ipc.Responses.Valid.{IsResponse, at_version}
use ziliu_ime.Ipc.Responses.RoundTrip.{decode_response-encode_response}
use ziliu_ime.Ipc.Responses.Canonical.{encode_response-decode_response}

abbrev pub letter_request : Request
letter_request = record {
  request_id = 7;
  session_id = 2;
  command = input_letter;
  value = 110;
  theme_id = [];
  resource = [];
  point_x = 0;
  point_y = 0;
}

pub letter_request-IsRequest : IsRequest letter_request
unfolding from_utf8 from_utf8_loop
letter_request-IsRequest = record {
  request_id_width = omega arith;
  session_id_width = omega arith;
  value_width = omega arith;
  point_x_width = omega arith;
  point_y_width = omega arith;
  theme_id_utf8 = ([], refl);
  resource_utf8 = ([], refl);
}

abbrev pub letter_bytes : List ℕ
letter_bytes =
    0x5A ∷ 0x4C ∷ 0x51 ∷ 0x31 ∷ 6 ∷ 0 ∷ 5 ∷ 0 ∷ 7 ∷ 0 ∷ 0 ∷ 0 ∷ 0 ∷ 0 ∷ 0 ∷ 0 ∷ 2 ∷ 0 ∷ 0 ∷ 0 ∷ 0
    ∷ 0 ∷ 0 ∷ 0 ∷ 110 ∷ 0 ∷ 0 ∷ 0 ∷ []

pub letter_bytes_sent : encode_request letter_request 6 ≡ some letter_bytes
unfolding encode_request is_known_command command_code write_integer write_theme_fields
    needs_newer_version request_refused write_request
letter_bytes_sent = refl

pub letter_bytes_read : decode_request letter_bytes ≡ some (letter_request, 6)
letter_bytes_read =
    decode_request-encode_request letter_request 6 letter_bytes letter_request-IsRequest
      letter_bytes_sent

decode_request-encode_request_example : decode_request letter_bytes ≡ some (letter_request, 6)
decode_request-encode_request_example =
    decode_request-encode_request letter_request 6 letter_bytes letter_request-IsRequest
      letter_bytes_sent

abbrev are_bytes : List ℕ → Bool
are_bytes [] = true
are_bytes (b ∷ bs) = ltb b 256 && are_bytes bs

are_bytes-All : (bs : List ℕ) → are_bytes bs ≡ true → All IsByte bs
are_bytes-All [] h = tt
are_bytes-All (b ∷ bs) h = (ground arith, are_bytes-All bs (ground arith))

encode_request-decode_request_example :
    (encode_request letter_request 6 ≡ some letter_bytes) × IsRequest letter_request
encode_request-decode_request_example =
    encode_request-decode_request letter_bytes letter_request 6 (are_bytes-All letter_bytes refl)
      letter_bytes_read

abbrev page_response : Response
page_response = record empty_response {
  request_id = 7;
  session_id = 2;
  consumed = true;
  snapshot = record {
    preedit = 110 ∷ 105 ∷ [];
    candidates =
        record { text = 0x4F60 ∷ []; annotation = 110 ∷ 105 ∷ []; score = 0x3FF0000000000000 } ∷ [];
    highlighted_index = 0;
    has_previous_page = false;
    has_next_page = true;
  };
}

page_response-IsResponse : IsResponse page_response
unfolding from_utf8 from_utf8_loop
page_response-IsResponse = record {
  request_id_width = omega arith;
  session_id_width = omega arith;
  commit_units = tt;
  preedit_units = (omega arith, (omega arith, tt));
  highlighted_width = omega arith;
  highlighted_valid = refl;
  candidates_valid = (
    record {
      text_units = (omega arith, tt);
      annotation_units = (omega arith, (omega arith, tt));
      score_width = omega arith;
    },
    tt,
  );
  settings_utf8 = ([], refl);
}

abbrev page_bytes : List ℕ
page_bytes =
    90 ∷ 76 ∷ 82 ∷ 49 ∷ 5 ∷ 0 ∷ 0 ∷ 0 ∷ 7 ∷ 0 ∷ 0 ∷ 0 ∷ 0 ∷ 0 ∷ 0 ∷ 0 ∷ 2 ∷ 0 ∷ 0 ∷ 0 ∷ 0 ∷ 0 ∷ 0
    ∷ 0 ∷ 1 ∷ 0 ∷ 0 ∷ 0 ∷ 0 ∷ 2 ∷ 0 ∷ 0 ∷ 0 ∷ 110 ∷ 105 ∷ 0 ∷ 0 ∷ 0 ∷ 0 ∷ 0 ∷ 1 ∷ 1 ∷ 0 ∷ 0 ∷ 0 ∷ 3
    ∷ 0 ∷ 0 ∷ 0 ∷ 228 ∷ 189 ∷ 160 ∷ 2 ∷ 0 ∷ 0 ∷ 0 ∷ 110 ∷ 105 ∷ 0 ∷ 0 ∷ 0 ∷ 0 ∷ 0 ∷ 0 ∷ 240 ∷ 63
    ∷ []

page_bytes_sent : encode_response page_response 5 ≡ some page_bytes
unfolding encode_response is_known_status write_string to_utf8 write_bytes write_integer
    write_page_flags code_point_bytes write_candidate status_code
page_bytes_sent = refl

decode_response-encode_response_example :
    decode_response page_bytes ≡ some (at_version 5 page_response, 5)
decode_response-encode_response_example =
    decode_response-encode_response page_response 5 page_bytes page_response-IsResponse
      page_bytes_sent

encode_response-decode_response_example :
    (encode_response (at_version 5 page_response) 5 ≡ some page_bytes)
    × IsResponse (at_version 5 page_response)
    × (length (at_version 5 page_response).snapshot.candidates ≤ maximum_candidates)
    × (at_version 5 (at_version 5 page_response) ≡ at_version 5 page_response)
encode_response-decode_response_example =
    encode_response-decode_response page_bytes (at_version 5 page_response) 5
      (are_bytes-All page_bytes refl)
      (decode_response-encode_response page_response 5 page_bytes page_response-IsResponse
        page_bytes_sent)

-- A Chinese character, and an emoji that is a surrogate pair.
abbrev mixed_text : List ℕ
mixed_text = 0x4F60 ∷ 0xD83D ∷ 0xDE00 ∷ []

abbrev mixed_bytes : List ℕ
mixed_bytes = 0xE4 ∷ 0xBD ∷ 0xA0 ∷ 0xF0 ∷ 0x9F ∷ 0x98 ∷ 0x80 ∷ []

mixed_bytes_written : to_utf8 mixed_text ≡ some mixed_bytes
unfolding to_utf8 code_point_bytes
mixed_bytes_written = refl

mixed_units : All IsUnit mixed_text
mixed_units = (omega arith, (omega arith, (omega arith, tt)))

mixed_bytes_read : from_utf8 mixed_bytes ≡ some mixed_text
mixed_bytes_read = from_utf8-to_utf8 mixed_text mixed_bytes mixed_units mixed_bytes_written

from_utf8-to_utf8_example : from_utf8 mixed_bytes ≡ some mixed_text
from_utf8-to_utf8_example = from_utf8-to_utf8 mixed_text mixed_bytes mixed_units mixed_bytes_written

to_utf8-from_utf8_example : (to_utf8 mixed_text ≡ some mixed_bytes) × All IsUnit mixed_text
to_utf8-from_utf8_example =
    to_utf8-from_utf8 mixed_bytes mixed_text (are_bytes-All mixed_bytes refl) mixed_bytes_read
