-- ===== src/Server.antt =====
-- One client of the broker's pipe: PipeServer::ServeClient of ipc/src/pipe_server.cpp.
pub mod Routing
pub mod Clients
use ziliu_ime.Base.{
  ℕ, Bool, true, false, not, ◌&&◌, ◌||◌, Option, none, some, List, [], ltb, leb, ◌==◌,
  if◌then◌else◌, length,
}
use ziliu_ime.Ipc.Types.{
  Command, Status, ok, invalid_request, unsupported, internal_error, open_quick_menu,
  run_menu_action, get_theme_resource, get_settings, Request, Response, empty_response,
  protocol_version, maximum_theme_chunk_bytes,
}
use ziliu_ime.Ipc.Versions.{is_command, is_empty}
use ziliu_ime.Ipc.Requests.Decoder.{decode_request}
use ziliu_ime.Ipc.Responses.Encoder.{encode_response}
use ziliu_ime.Engine.Interface.{Engine}
use ziliu_ime.Session.{SessionHost, handle}

-- The callbacks that the broker gives the server; one that is not set is `none`.
pub record Providers : Type 0 where
  pub quick_menu : Option (ℕ → ℕ → Bool)
  pub menu_action : Option (ℕ → Bool)
  pub theme_resource : Option (List ℕ → List ℕ → ℕ → Option (List ℕ))
  pub settings : Option (Option (List ℕ))

abbrev pub answer_to : Request → Status → Response
answer_to request status = record empty_response {
  request_id = request.request_id;
  status = status;
}

abbrev pub done : Bool → Status
done true = ok
done false = internal_error

-- A field is only allowed with the command that uses it.
unfoldable pub has_foreign_fields : Request → Bool
has_foreign_fields r =
    (not (is_command r.command get_theme_resource)
      && (not (is_empty r.theme_id) || not (is_empty r.resource)))
    || (not (is_command r.command open_quick_menu)
        && (not (r.point_x == 0) || not (r.point_y == 0)))

unfoldable pub serve_quick_menu : Request → Option (ℕ → ℕ → Bool) → Response
serve_quick_menu r none = answer_to r unsupported
serve_quick_menu r (some provider) =
    if r.session_id == 0 && r.value == 0
    then answer_to r (done (provider r.point_x r.point_y))
    else answer_to r unsupported

unfoldable pub serve_menu_action : Request → Option (ℕ → Bool) → Response
serve_menu_action r none = answer_to r unsupported
serve_menu_action r (some provider) =
    if r.session_id == 0 && leb 1 r.value && leb r.value 2
    then answer_to r (done (provider r.value))
    else answer_to r unsupported

unfoldable pub theme_answer : Request → Option (List ℕ) → Response
theme_answer r none = answer_to r invalid_request
theme_answer r (some chunk) =
    if leb (length chunk) maximum_theme_chunk_bytes
    then record (answer_to r ok) { theme_chunk = chunk }
    else answer_to r invalid_request

unfoldable pub serve_theme_resource :
    Request → Option (List ℕ → List ℕ → ℕ → Option (List ℕ)) → Response
serve_theme_resource r none = answer_to r unsupported
serve_theme_resource r (some provider) =
    if r.session_id == 0 && not (is_empty r.theme_id)
    then theme_answer r (provider r.theme_id r.resource r.value)
    else answer_to r unsupported

unfoldable pub settings_answer : Request → Option (List ℕ) → Response
settings_answer r none = answer_to r internal_error
settings_answer r (some settings) = record (answer_to r ok) { settings_text = settings }

unfoldable pub serve_settings : Request → Option (Option (List ℕ)) → Response
serve_settings r none = answer_to r unsupported
serve_settings r (some provided) =
    if r.session_id == 0 && r.value == 0
    then settings_answer r provided
    else answer_to r unsupported

module _ (engine : Engine) (factory : Bool → Option engine.State) (is_alpha : ℕ → Bool)
    (providers : Providers) where
  -- The chain of conditions on a request that was decoded.
  unfoldable pub dispatch : Request → SessionHost engine.State → SessionHost engine.State × Response
  dispatch r host =
      if has_foreign_fields r
      then (host, answer_to r invalid_request)
      else if is_command r.command open_quick_menu
      then (host, serve_quick_menu r providers.quick_menu)
      else if is_command r.command run_menu_action
      then (host, serve_menu_action r providers.menu_action)
      else if is_command r.command get_theme_resource
      then (host, serve_theme_resource r providers.theme_resource)
      else if is_command r.command get_settings
      then (host, serve_settings r providers.settings)
      else handle engine factory is_alpha r host

  -- The answer to what ReadFile gave, `none` where it failed, at the protocol version of the request.
  -- The result is `none` where the client is not of the same user and session.
  unfoldable pub answer :
      Bool
      → Option (Request × ℕ)
      → SessionHost engine.State
      → SessionHost engine.State × Option (Response × ℕ)
  answer same_user none host =
      (host, some (record empty_response { status = invalid_request }, protocol_version))
  answer same_user (some (r, version)) host =
      if not same_user
      then (host, none)
      else let (after, response) = dispatch r host in (after, some (response, version))

  abbrev pub decoded : Option (List ℕ) → Option (Request × ℕ)
  decoded none = none
  decoded (some bytes) = decode_request bytes

  abbrev pub encoded : Option (Response × ℕ) → Option (List ℕ)
  encoded none = none
  encoded (some (response, version)) = encode_response response version

  -- The host after one client, and the bytes that are written to it.
  unfoldable pub serve_client :
      Bool → Option (List ℕ) → SessionHost engine.State → SessionHost engine.State × Option (List ℕ)
  serve_client same_user read host =
      let (after, response) = answer same_user (decoded read) host in (after, encoded response)
