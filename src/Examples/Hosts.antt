-- ===== src/Examples/Hosts.antt =====
-- The session host and the server, with stub engines and the ASCII letters.
use ziliu_ime.Base.{
  ℕ, ◌≡◌, ◌⊎◌, refl, Bool, true, false, ◌||◌, Option, none, some, List, [], ◌∷◌, arith,
}
use ziliu_ime.Ipc.Types.{
  Command, create_session, close_session, input_letter, backspace, open_quick_menu,
  session_not_found, Request,
}
use ziliu_ime.Engine.Interface.{Engine}
use ziliu_ime.Engine.Stub.{StubEngine, new_stub_engine, stub_engine}
use ziliu_ime.Engine.Stub.Invariant.{IsStub}
use ziliu_ime.Session.{SessionHost, new_host, find, fresh_id, create, handle}
use ziliu_ime.Session.Creating.{Created, create-Created}
use ziliu_ime.Session.Serving.{handle_all, alone_all, handle_all-alone_all, handle-response}
use ziliu_ime.Session.Errors.{IsAnswer, handle-IsAnswer, handle-close_session}
use ziliu_ime.Session.Lifting.{AllSessions}
use ziliu_ime.Session.Stubs.{create_stub_engine_for_session, handle_all-IsStub}
use ziliu_ime.Server.{Providers, dispatch, has_foreign_fields}
use ziliu_ime.Server.Routing.{is_server_command, IsServed, dispatch_cases}
use ziliu_ime.Examples.Alphabet.{is_alpha, to_lower, alpha_lower}

abbrev pub engine : Engine
engine = stub_engine is_alpha to_lower

abbrev pub factory : Bool → Option StubEngine
factory = create_stub_engine_for_session

abbrev request_for : ℕ → Command → ℕ → Request
request_for id command value = record {
  request_id = 9;
  session_id = id;
  command = command;
  value = value;
  theme_id = [];
  resource = [];
  point_x = 0;
  point_y = 0;
}

-- Two sessions, the next id being in use.
abbrev pub two_sessions : SessionHost StubEngine
two_sessions = record {
  sessions = (1, new_stub_engine) ∷ (2, new_stub_engine) ∷ [];
  next_session_id = 1;
}

abbrev typing : List Request
typing =
    request_for 1 input_letter 110
    ∷ request_for 2 input_letter 122
    ∷ request_for 1 input_letter 105
    ∷ request_for 2 close_session 0
    ∷ []

handle_all-alone_all_example :
    find 1 (handle_all engine factory is_alpha typing two_sessions).sessions
    ≡ alone_all engine factory is_alpha 1 typing (find 1 two_sessions.sessions)
handle_all-alone_all_example =
    handle_all-alone_all engine factory is_alpha typing two_sessions 1
      (refl, (refl, (refl, (refl, tt))))

create-Created_example :
    Created (some new_stub_engine) two_sessions (create (some new_stub_engine) two_sessions)
create-Created_example =
    create-Created (some new_stub_engine) two_sessions (omega arith) (omega arith)

-- The loop passes over the ids 1 and 2.
third_id : (create (some new_stub_engine) two_sessions).1 ≡ 3
unfolding create fresh_id find
third_id = refl

handle-IsAnswer_example :
    IsAnswer engine factory is_alpha
      (request_for 5 backspace 0)
      two_sessions
      (handle engine factory is_alpha (request_for 5 backspace 0) two_sessions)
handle-IsAnswer_example =
    handle-IsAnswer engine factory is_alpha (request_for 5 backspace 0) two_sessions (omega arith)
      (omega arith)

abbrev after_close : SessionHost StubEngine
after_close = (handle engine factory is_alpha (request_for 2 close_session 0) two_sessions).0

-- The other session is typed into, and the closed one is named again.
abbrev meanwhile : List Request
meanwhile = request_for 1 input_letter 110 ∷ request_for 2 backspace 0 ∷ []

abbrev later : SessionHost StubEngine
later = handle_all engine factory is_alpha meanwhile after_close

handle-close_session_example :
    ((handle engine factory is_alpha (request_for 2 input_letter 110) later).1.status
      ≡ session_not_found)
    × ((handle engine factory is_alpha (request_for 2 input_letter 110) later).0 ≡ later)
handle-close_session_example =
    handle-close_session engine factory is_alpha (request_for 2 close_session 0)
      (request_for 2 input_letter 110) meanwhile two_sessions refl (refl, (refl, tt)) refl refl

handle-response_example :
    (handle engine factory is_alpha (request_for 2 input_letter 110) two_sessions).1
    ≡ (handle engine factory is_alpha
        (request_for 2 input_letter 110)
        (record { sessions = (2, new_stub_engine) ∷ []; next_session_id = 8 })).1
unfolding find
handle-response_example =
    handle-response engine factory is_alpha (request_for 2 input_letter 110) two_sessions
      (record { sessions = (2, new_stub_engine) ∷ []; next_session_id = 8 }) refl refl

handle_all-IsStub_example :
    AllSessions IsStub
      (handle_all engine factory is_alpha
        (request_for 0 create_session 0 ∷ typing)
        new_host).sessions
handle_all-IsStub_example =
    handle_all-IsStub is_alpha to_lower alpha_lower (request_for 0 create_session 0 ∷ typing)

abbrev pub providers : Providers
providers = record {
  quick_menu = some (λ x y. true);
  menu_action = none;
  theme_resource = some (λ theme_id resource value. some (1 ∷ 2 ∷ []));
  settings = none;
}

dispatch_cases_example :
    let r = request_for 0 open_quick_menu 0 in
    let result = dispatch engine factory is_alpha providers r two_sessions in
    (((has_foreign_fields r || is_server_command r.command) ≡ true)
      × (result.0 ≡ two_sessions)
      × IsServed r result.1)
    ⊎ (((has_foreign_fields r || is_server_command r.command) ≡ false)
        × (result ≡ handle engine factory is_alpha r two_sessions))
dispatch_cases_example =
    dispatch_cases engine factory is_alpha providers (request_for 0 open_quick_menu 0) two_sessions
