-- ===== src/Session.antt =====
-- The broker's sessions: core/include/ziliu/core/session_host.h and core/src/session_host.cpp.
pub mod Fresh
pub mod Creating
pub mod Serving
pub mod Errors
pub mod Lifting
pub mod Stubs
use ziliu_ime.Base.{
  ℕ, zero, suc, ◌+◌, ◌%◌, ◌^◌, Bool, true, false, not, ◌&&◌, ◌||◌, Option, none, some, List, [],
  ◌∷◌, ltb, leb, ◌==◌, if◌then◌else◌, length,
}
use ziliu_ime.Ipc.Types.{
  Command, ping, create_session, close_session, reset, input_letter, backspace, select_candidate,
  page_up, page_down, set_traditional, set_candidate_page_size, set_chinese_candidates_only,
  input_separator, set_candidate_window_page_count, get_settings, Status, invalid_request,
  session_not_found, unsupported, internal_error, Request, Response, empty_response,
  maximum_candidates_per_page, maximum_candidate_window_pages,
}
use ziliu_ime.Engine.Interface.{SelectionResult, Engine}

-- The map from session ids to engines is a list of pairs, and `next_session_id` a std::uint64_t.
pub record SessionHost (S : Type 0) : Type 0 where
  pub sessions : List (ℕ × S)
  pub next_session_id : ℕ

module _ {S : Type 0} where
  abbrev pub new_host : SessionHost S
  new_host = record { sessions = []; next_session_id = 1 }

  unfoldable pub find : ℕ → List (ℕ × S) → Option S
  find id [] = none
  find id ((key, s) ∷ sessions) = let rest = find id sessions in if key == id then some s else rest

  abbrev pub is_some : Option S → Bool
  is_some none = false
  is_some (some s) = true

  -- The engine of a session after a call that changes it.
  unfoldable pub update : ℕ → S → List (ℕ × S) → List (ℕ × S)
  update id now [] = []
  update id now ((key, s) ∷ sessions) =
      let rest = update id now sessions in if key == id then (key, now) ∷ rest else (key, s) ∷ rest

  unfoldable pub erase : ℕ → List (ℕ × S) → List (ℕ × S)
  erase id [] = []
  erase id ((key, s) ∷ sessions) =
      let rest = erase id sessions in if key == id then rest else (key, s) ∷ rest

  -- The while loop of CreateSession, on fuel: the first id from `id` on that is not 0 and not in use.
  unfoldable pub fresh_id : ℕ → ℕ → List (ℕ × S) → ℕ
  fresh_id zero id sessions = id
  fresh_id (suc fuel) id sessions =
      let rest = fresh_id fuel ((id + 1) % 2 ^ 64) sessions in
      if id == 0 || is_some (find id sessions) then rest else id

  -- CreateSession, with what the engine factory returns: a null pointer is `none`, as is an empty
  -- factory.
  unfoldable pub create : Option S → SessionHost S → SessionHost S × ℕ
  create none host = (host, 0)
  create (some made) host =
      let id = fresh_id (length host.sessions + 2) host.next_session_id host.sessions in
      (record { sessions = (id, made) ∷ host.sessions; next_session_id = (id + 1) % 2 ^ 64 }, id)

-- How the switch of Handle leaves: by erasing the session, with an error status, or by the break
-- after which the snapshot is taken.
pub data Reply (S : Type 0) : Type 0 where
  closed : Reply S
  refused : Status → Reply S
  answered : S → Bool → List ℕ → Reply S

abbrev pub answered_consumed : {S : Type 0} → S × Bool → Reply S
answered_consumed (s, consumed) = answered s consumed []

-- WCHAR_MAX, of a two-byte wchar_t.
abbrev pub wchar_max : ℕ
wchar_max = 0xFFFF

-- `factory` makes an engine for a session that is restricted or not, and `is_alpha` is std::iswalpha.
module _ (engine : Engine) (factory : Bool → Option engine.State) (is_alpha : ℕ → Bool) where
  unfoldable pub input : ℕ → engine.State → engine.State × Bool
  input letter s = if is_alpha letter then engine.process_letter letter s else (s, false)

  abbrev selected : engine.State × SelectionResult → Reply engine.State
  selected (s, selection) = answered s selection.consumed selection.commit

  -- The switch on the command. The commands that it has no case for, and Ping and CreateSession, leave
  -- the engine as it is.
  unfoldable pub serve : Command → ℕ → engine.State → Reply engine.State
  serve close_session value s = closed
  serve reset value s = answered (engine.reset s) true []
  serve input_letter value s =
      if ltb wchar_max value then refused invalid_request else answered_consumed (input value s)
  serve backspace value s = answered_consumed (engine.backspace s)
  serve page_up value s = answered_consumed (engine.page_up s)
  serve page_down value s = answered_consumed (engine.page_down s)
  serve set_candidate_page_size value s =
      if value == 0 || ltb maximum_candidates_per_page value
      then refused invalid_request
      else answered (engine.set_candidate_page_size value s) true []
  serve set_candidate_window_page_count value s =
      if value == 0 || ltb maximum_candidate_window_pages value
      then refused invalid_request
      else answered (engine.set_candidate_window_page_count value s) true []
  serve set_traditional value s = answered (engine.set_traditional (not (value == 0)) s) true []
  serve set_chinese_candidates_only value s =
      answered (engine.set_chinese_candidates_only (not (value == 0)) s) true []
  serve input_separator value s = answered_consumed (engine.process_separator s)
  serve select_candidate value s = selected (engine.select value s)
  serve get_settings value s = refused unsupported
  serve _ value s = answered s false []

  abbrev pub response_to : Request → Response
  response_to request = record empty_response {
    request_id = request.request_id;
    session_id = request.session_id;
  }

  -- What Handle returns, and the sessions that it leaves, for each way out of the switch.
  unfoldable pub reply :
      Request → SessionHost engine.State → Reply engine.State → SessionHost engine.State × Response
  reply request host closed =
      (record host { sessions = erase request.session_id host.sessions }, response_to request)
  reply request host (refused status) = (host, record (response_to request) { status = status })
  reply request host (answered s consumed commit) = (
    record host { sessions = update request.session_id s host.sessions },
    record (response_to request) {
      consumed = consumed;
      commit = commit;
      snapshot = engine.snapshot s;
    },
  )

  unfoldable pub handle_found :
      Request → SessionHost engine.State → Option engine.State → SessionHost engine.State × Response
  handle_found request host none =
      (host, record (response_to request) { status = session_not_found })
  handle_found request host (some s) = reply request host (serve request.command request.value s)

  abbrev pub created : Request → SessionHost engine.State × ℕ → SessionHost engine.State × Response
  created request (host, id) = (
    host,
    record (response_to request) {
      session_id = id;
      status = if id == 0 then internal_error else Status.ok;
    },
  )

  unfoldable pub handle_create :
      Request → SessionHost engine.State → SessionHost engine.State × Response
  handle_create request host =
      if not (request.session_id == 0) || ltb 1 request.value
      then (host, record (response_to request) { status = invalid_request })
      else created request (create (factory (not (request.value == 0))) host)

  unfoldable pub handle_command :
      Command → Request → SessionHost engine.State → SessionHost engine.State × Response
  handle_command ping request host = (host, response_to request)
  handle_command create_session request host = handle_create request host
  handle_command _ request host = handle_found request host (find request.session_id host.sessions)

  unfoldable pub handle : Request → SessionHost engine.State → SessionHost engine.State × Response
  handle request host = handle_command request.command request host
