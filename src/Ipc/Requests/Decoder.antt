-- ===== src/Ipc/Requests/Decoder.antt =====
-- DecodeRequest of core/src/ipc_protocol.cpp: the request and its protocol version, or `none` where the
-- function returns false.
use ziliu_ime.Base.{ℕ, not, Option, none, List, [], ltb, leb, ◌==◌, if◌then◌else◌, length}
use ziliu_ime.Ipc.Types.{command_of, is_known_command, Request, maximum_message_bytes}
use ziliu_ime.Ipc.Versions.{
  request_magic, is_supported_protocol_version, needs_newer_version, result_of,
}
use ziliu_ime.Ipc.Reader.{
  Reader, ◌>>=◌, ◌>>◌, pure, require, read_integer, read_utf8_string, finished,
}

pub record ThemeFields : Type 0 where
  pub theme_id : List ℕ
  pub resource : List ℕ
  pub point_x : ℕ
  pub point_y : ℕ

abbrev pub read_present_theme_fields : Reader ThemeFields
read_present_theme_fields = do
  theme_id ← read_utf8_string
  resource ← read_utf8_string
  point_x ← read_integer 4
  point_y ← read_integer 4
  pure (record { theme_id = theme_id; resource = resource; point_x = point_x; point_y = point_y })

abbrev pub no_theme_fields : ThemeFields
no_theme_fields = record { theme_id = []; resource = []; point_x = 0; point_y = 0 }

unfoldable pub read_theme_fields : ℕ → Reader ThemeFields
read_theme_fields version =
    if leb 8 version then read_present_theme_fields else pure no_theme_fields

-- The request of the values that were read.
abbrev pub request_of : ℕ → ℕ → ℕ → ℕ → ThemeFields → Request
request_of command request_id session_id value fields = record {
  request_id = request_id;
  session_id = session_id;
  command = command_of command;
  value = value;
  theme_id = fields.theme_id;
  resource = fields.resource;
  point_x = fields.point_x;
  point_y = fields.point_y;
}

-- What DecodeRequest tests when it has read everything.
abbrev pub check_request : ℕ → ℕ → Request → Reader (Request × ℕ)
check_request magic version r = do
  finished
  require (magic == request_magic)
  require (is_supported_protocol_version version)
  require (is_known_command r.command)
  require (not (needs_newer_version version r.command r.value))
  pure (r, version)

unfoldable pub read_request : Reader (Request × ℕ)
unfolding read_theme_fields needs_newer_version
read_request = do
  magic ← read_integer 4
  version ← read_integer 2
  command ← read_integer 2
  request_id ← read_integer 8
  session_id ← read_integer 8
  value ← read_integer 4
  fields ← read_theme_fields version
  check_request magic version (request_of command request_id session_id value fields)

unfoldable pub decode_request : List ℕ → Option (Request × ℕ)
unfolding read_request
decode_request bytes =
    if ltb maximum_message_bytes (length bytes) then none else result_of (read_request bytes)
