-- ===== src/Ipc/Requests/Encoder.antt =====
-- EncodeRequest of core/src/ipc_protocol.cpp, with the protocol version as an argument. The result is
-- `none` where the function returns false; the null check of the pointer has no counterpart.
use ziliu_ime.Base.{
  ℕ, Bool, not, ◌&&◌, ◌||◌, Option, none, some, List, [], ◌++◌, ltb, leb, ◌==◌, if◌then◌else◌,
  ◌>>=◌,
}
use ziliu_ime.Ipc.Types.{command_code, is_known_command, Request}
use ziliu_ime.Ipc.Versions.{
  request_magic, is_supported_protocol_version, is_empty, needs_newer_version, bounded,
}
use ziliu_ime.Ipc.Writer.{write_integer, write_utf8_string}

-- The early returns of EncodeRequest.
unfoldable pub request_refused : Request → ℕ → Bool
unfolding needs_newer_version
request_refused r version =
    not (is_known_command r.command)
    || not (is_supported_protocol_version version)
    || needs_newer_version version r.command r.value
    || (ltb version 8
        && (not (is_empty r.theme_id)
            || not (is_empty r.resource)
            || not (r.point_x == 0)
            || not (r.point_y == 0)))

-- The part that protocol version 8 added.
unfoldable pub write_theme_fields : Request → ℕ → Option (List ℕ)
write_theme_fields r version =
    if leb 8 version
    then (do
      theme_id ← write_utf8_string r.theme_id
      resource ← write_utf8_string r.resource
      some (theme_id ++ (resource ++ (write_integer 4 r.point_x ++ write_integer 4 r.point_y))))
    else some []

unfoldable pub write_request : Request → ℕ → List ℕ → List ℕ
write_request r version theme_fields =
    write_integer 4 request_magic
    ++ (write_integer 2 version
        ++ (write_integer 2 (command_code r.command)
            ++ (write_integer 8 r.request_id
                ++ (write_integer 8 r.session_id ++ (write_integer 4 r.value ++ theme_fields)))))

unfoldable pub encode_request : Request → ℕ → Option (List ℕ)
unfolding request_refused write_theme_fields write_request
encode_request r version =
    if request_refused r version
    then none
    else (do fields ← write_theme_fields r version; bounded (write_request r version fields))
