-- ===== src/Session/Stubs.antt =====
-- The host of tests and of the default factory, CreateStubEngineForSession: every session has a stub
-- engine.
use mathlib.Core.Option.{some-injective}
use ziliu_ime.Base.{ℕ, ◌≡◌, subst, Bool, true, false, Option, some, List, ◌==◌}
use ziliu_ime.Ipc.Types.{Request}
use ziliu_ime.Engine.Interface.{apostrophe}
use ziliu_ime.Engine.Stub.{StubEngine, new_stub_engine, stub_engine}
use ziliu_ime.Engine.Stub.Invariant.{
  IsStub, new_stub_engine-IsStub, reset-IsStub, process_letter-IsStub, process_separator-IsStub,
  backspace-IsStub, set_traditional-IsStub, set_chinese_candidates_only-IsStub, select-IsStub,
}
use ziliu_ime.Session.{new_host}
use ziliu_ime.Session.Serving.{handle_all}
use ziliu_ime.Session.Lifting.{IsInvariant, AllSessions, handle_all-new_host}

-- CreateStubEngineForSession, which ignores whether the session is restricted.
unfoldable pub create_stub_engine_for_session : Bool → Option StubEngine
create_stub_engine_for_session restricted = some new_stub_engine

pub create_stub_engine_for_session-IsStub :
    (restricted : Bool) (s : StubEngine)
    → create_stub_engine_for_session restricted ≡ some s
    → IsStub s
unfolding create_stub_engine_for_session
create_stub_engine_for_session-IsStub restricted s made =
    subst IsStub (some-injective _ _ made) new_stub_engine-IsStub

-- `alpha_lower`: towlower gives no separator for a letter.
module _ (is_alpha : ℕ → Bool) (to_lower : ℕ → ℕ)
    (alpha_lower : (c : ℕ) → is_alpha c ≡ true → (to_lower c == apostrophe) ≡ false) where
  pub stub_engine-IsInvariant : IsInvariant (stub_engine is_alpha to_lower) IsStub
  stub_engine-IsInvariant = record {
    of_reset = λ s v. reset-IsStub s;
    of_letter = process_letter-IsStub is_alpha to_lower alpha_lower;
    of_separator = process_separator-IsStub;
    of_backspace = backspace-IsStub;
    of_page_up = λ s v. v;
    of_page_down = λ s v. v;
    of_page_size = λ n s v. v;
    of_page_count = λ n s v. v;
    of_traditional = set_traditional-IsStub;
    of_chinese_only = set_chinese_candidates_only-IsStub;
    of_select = select-IsStub;
  }

  -- Where towlower makes no separator of a letter, after any sequence of requests to a new host with stub
  -- engines every session satisfies the stub engine's invariant: at most 64 letters, counted right, well
  -- placed separators, and the candidates of the preedit.
  pub handle_all-IsStub :
      (requests : List Request)
      → AllSessions IsStub
          (handle_all
            (stub_engine is_alpha to_lower)
            create_stub_engine_for_session
            is_alpha
            requests
            new_host).sessions
  handle_all-IsStub requests =
      handle_all-new_host (stub_engine is_alpha to_lower) create_stub_engine_for_session is_alpha
        IsStub stub_engine-IsInvariant create_stub_engine_for_session-IsStub requests
