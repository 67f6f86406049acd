-- ===== src/Ipc/Types.antt =====
-- The message types of core/include/ziliu/core/ipc_protocol.h and of core/include/ziliu/core/engine.h.
-- An unsigned integer is a native number, an int32_t its 32-bit pattern, a double its 64-bit pattern,
-- a std::string a list of bytes, and a std::wstring a list of UTF-16 code units (wchar_t has two
-- bytes on Windows).
use ziliu_ime.Base.{
  ℕ, ◌*◌, ◌^◌, ◌<◌, ◌≡◌, refl, Bool, true, false, List, [], arith, ◌==◌, if◌then◌else◌,
}

abbrev pub protocol_version : ℕ
protocol_version = 8

abbrev pub oldest_compatible_protocol_version : ℕ
oldest_compatible_protocol_version = 4

abbrev pub maximum_message_bytes : ℕ
maximum_message_bytes = 64 * 1024

abbrev pub maximum_theme_chunk_bytes : ℕ
maximum_theme_chunk_bytes = 60 * 1024

abbrev pub maximum_candidates_per_page : ℕ
maximum_candidates_per_page = 9

abbrev pub maximum_candidate_window_pages : ℕ
maximum_candidate_window_pages = 5

abbrev pub maximum_candidates : ℕ
maximum_candidates = maximum_candidates_per_page * maximum_candidate_window_pages

-- `unknown n` is the value n of the enum's underlying type where no enumerator has it.
pub data Command : Type 0 where
  ping create_session close_session reset input_letter backspace select_candidate : Command
  page_up page_down set_traditional set_candidate_page_size : Command
  set_chinese_candidates_only input_separator set_candidate_window_page_count : Command
  get_settings get_theme_resource open_quick_menu run_menu_action : Command
  unknown : ℕ → Command

pub data Status : Type 0 where
  ok invalid_request session_not_found unsupported internal_error : Status
  unknown : ℕ → Status

-- static_cast<std::uint16_t>(command).
unfoldable pub command_code : Command → ℕ
command_code ping = 1
command_code create_session = 2
command_code close_session = 3
command_code reset = 4
command_code input_letter = 5
command_code backspace = 6
command_code select_candidate = 7
command_code page_up = 8
command_code page_down = 9
command_code set_traditional = 10
command_code set_candidate_page_size = 11
command_code set_chinese_candidates_only = 12
command_code input_separator = 13
command_code set_candidate_window_page_count = 14
command_code get_settings = 15
command_code get_theme_resource = 16
command_code open_quick_menu = 17
command_code run_menu_action = 18
command_code (Command.unknown n) = n

-- static_cast<Command>(code), the enumerators from the last one down.
unfoldable pub command_of : ℕ → Command
command_of n =
    if n == 1
    then ping
    else if n == 2
    then create_session
    else if n == 3
    then close_session
    else if n == 4
    then reset
    else if n == 5
    then input_letter
    else if n == 6
    then backspace
    else if n == 7
    then select_candidate
    else if n == 8
    then page_up
    else if n == 9
    then page_down
    else if n == 10
    then set_traditional
    else if n == 11
    then set_candidate_page_size
    else if n == 12
    then set_chinese_candidates_only
    else if n == 13
    then input_separator
    else if n == 14
    then set_candidate_window_page_count
    else if n == 15
    then get_settings
    else if n == 16
    then get_theme_resource
    else if n == 17
    then open_quick_menu
    else if n == 18
    then run_menu_action
    else Command.unknown n

unfoldable pub is_known_command : Command → Bool
is_known_command (Command.unknown n) = false
is_known_command _ = true

unfoldable pub status_code : Status → ℕ
status_code ok = 0
status_code invalid_request = 1
status_code session_not_found = 2
status_code unsupported = 3
status_code internal_error = 4
status_code (Status.unknown n) = n

unfoldable pub status_of : ℕ → Status
status_of n =
    if n == 0
    then ok
    else if n == 1
    then invalid_request
    else if n == 2
    then session_not_found
    else if n == 3
    then unsupported
    else if n == 4
    then internal_error
    else Status.unknown n

unfoldable pub is_known_status : Status → Bool
is_known_status (Status.unknown n) = false
is_known_status _ = true

pub command_of-command_code :
    (c : Command) → is_known_command c ≡ true → command_of (command_code c) ≡ c
unfolding command_of command_code is_known_command
command_of-command_code ping h = refl
command_of-command_code (Command.unknown n) h = ground arith
command_of-command_code _ h = refl

pub command_code-command_of : (n : ℕ) → command_code (command_of n) ≡ n
unfolding command_of command_code
command_code-command_of n = ground arith

pub status_of-status_code : (s : Status) → is_known_status s ≡ true → status_of (status_code s) ≡ s
unfolding status_of status_code is_known_status
status_of-status_code ok h = refl
status_of-status_code (Status.unknown n) h = ground arith
status_of-status_code _ h = refl

pub status_code-status_of : (n : ℕ) → status_code (status_of n) ≡ n
unfolding status_of status_code
status_code-status_of n = ground arith

pub command_code-lt : (c : Command) → is_known_command c ≡ true → command_code c < 2 ^ 16
unfolding command_code is_known_command
command_code-lt ping h = omega arith
command_code-lt (Command.unknown n) h = ground arith
command_code-lt _ h = omega arith

pub status_code-lt : (s : Status) → is_known_status s ≡ true → status_code s < 2 ^ 16
unfolding status_code is_known_status
status_code-lt ok h = omega arith
status_code-lt (Status.unknown n) h = ground arith
status_code-lt _ h = omega arith

pub record Candidate : Type 0 where
  pub text : List ℕ
  pub annotation : List ℕ
  pub score : ℕ

pub record CompositionSnapshot : Type 0 where
  pub preedit : List ℕ
  pub candidates : List Candidate
  pub highlighted_index : ℕ
  pub has_previous_page : Bool
  pub has_next_page : Bool

abbrev pub empty_snapshot : CompositionSnapshot
empty_snapshot = record {
  preedit = [];
  candidates = [];
  highlighted_index = 0;
  has_previous_page = false;
  has_next_page = false;
}

pub record Request : Type 0 where
  pub request_id : ℕ
  pub session_id : ℕ
  pub command : Command
  pub value : ℕ
  pub theme_id : List ℕ
  pub resource : List ℕ
  pub point_x : ℕ
  pub point_y : ℕ

pub record Response : Type 0 where
  pub request_id : ℕ
  pub session_id : ℕ
  pub status : Status
  pub consumed : Bool
  pub commit : List ℕ
  pub snapshot : CompositionSnapshot
  pub settings_text : List ℕ
  pub theme_chunk : List ℕ

-- A Response as it is declared, before anything is assigned.
abbrev pub empty_response : Response
empty_response = record {
  request_id = 0;
  session_id = 0;
  status = ok;
  consumed = false;
  commit = [];
  snapshot = empty_snapshot;
  settings_text = [];
  theme_chunk = [];
}
