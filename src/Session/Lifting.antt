-- ===== src/Session/Lifting.antt =====
-- Invariants of an engine hold for the engines of all sessions.
use ziliu_ime.Base.{
  ℕ, ◌≡◌, refl, Bool, not, ◌||◌, Option, none, some, List, [], ◌∷◌, ltb, ◌==◌, All, Bool-cases, inl,
  inr,
}
use ziliu_ime.Ipc.Types.{
  Command, ping, create_session, close_session, reset, input_letter, backspace, select_candidate,
  page_up, page_down, set_traditional, set_candidate_page_size, set_chinese_candidates_only,
  input_separator, set_candidate_window_page_count, get_settings, Request,
  maximum_candidates_per_page, maximum_candidate_window_pages,
}
use ziliu_ime.Engine.Interface.{Engine}
use ziliu_ime.Session.{
  SessionHost, new_host, wchar_max, find, update, erase, create, Reply, closed, refused, answered,
  input, serve, reply, handle_found, handle_create, handle_command, handle,
}
use ziliu_ime.Session.Serving.{handle_all}

-- The operations of an engine keep a predicate on its states.
pub record IsInvariant (engine : Engine) (P : engine.State → Type 0) : Type 0 where
  pub of_reset : (s : engine.State) → P s → P (engine.reset s)
  pub of_letter : (c : ℕ) (s : engine.State) → P s → P (engine.process_letter c s).0
  pub of_separator : (s : engine.State) → P s → P (engine.process_separator s).0
  pub of_backspace : (s : engine.State) → P s → P (engine.backspace s).0
  pub of_page_up : (s : engine.State) → P s → P (engine.page_up s).0
  pub of_page_down : (s : engine.State) → P s → P (engine.page_down s).0
  pub of_page_size : (n : ℕ) (s : engine.State) → P s → P (engine.set_candidate_page_size n s)
  pub of_page_count :
      (n : ℕ) (s : engine.State) → P s → P (engine.set_candidate_window_page_count n s)
  pub of_traditional : (b : Bool) (s : engine.State) → P s → P (engine.set_traditional b s)
  pub of_chinese_only :
      (b : Bool) (s : engine.State) → P s → P (engine.set_chinese_candidates_only b s)
  pub of_select : (i : ℕ) (s : engine.State) → P s → P (engine.select i s).0

module _ {S : Type 0} (P : S → Type 0) where
  abbrev pub AllSessions : List (ℕ × S) → Type 0
  AllSessions = All (λ entry. P entry.1)

  abbrev AllSome : Option S → Type 0
  AllSome none = Unit
  AllSome (some s) = P s

  abbrev AllReply : Reply S → Type 0
  AllReply closed = Unit
  AllReply (refused status) = Unit
  AllReply (answered s consumed commit) = P s

  find-AllSome :
      (id : ℕ) (sessions : List (ℕ × S)) → AllSessions sessions → AllSome (find id sessions)
  unfolding find
  find-AllSome id [] all = tt
  find-AllSome id ((key, s) ∷ sessions) all = elim (Bool-cases (key == id)) [
    | inl here ↦ rw here all.0
    | inr there ↦ rw there (find-AllSome id sessions all.1)
  ]

  erase-AllSessions :
      (id : ℕ) (sessions : List (ℕ × S)) → AllSessions sessions → AllSessions (erase id sessions)
  unfolding erase
  erase-AllSessions id [] all = tt
  erase-AllSessions id ((key, s) ∷ sessions) all = elim (Bool-cases (key == id)) [
    | inl here ↦ rw here (erase-AllSessions id sessions all.1)
    | inr there ↦ rw there (all.0, erase-AllSessions id sessions all.1)
  ]

  update-AllSessions :
      (id : ℕ) (now : S) (sessions : List (ℕ × S))
      → P now
      → AllSessions sessions
      → AllSessions (update id now sessions)
  unfolding update
  update-AllSessions id now [] p all = tt
  update-AllSessions id now ((key, s) ∷ sessions) p all = elim (Bool-cases (key == id)) [
    | inl here ↦ rw here (p, update-AllSessions id now sessions p all.1)
    | inr there ↦ rw there (all.0, update-AllSessions id now sessions p all.1)
  ]

  create-AllSessions :
      (made : Option S) (host : SessionHost S)
      → AllSome made
      → AllSessions host.sessions
      → AllSessions (create made host).0.sessions
  unfolding create
  create-AllSessions none host p all = all
  create-AllSessions (some s) host p all = (p, all)

-- `engine_keeps`: the engine's operations keep the predicate. `made`: the factory's engines have it.
module _ (engine : Engine) (factory : Bool → Option engine.State) (is_alpha : ℕ → Bool)
    (P : engine.State → Type 0) (engine_keeps : IsInvariant engine P)
    (made : (restricted : Bool) (s : engine.State) → factory restricted ≡ some s → P s) where
  input-keeps : (c : ℕ) (s : engine.State) → P s → P (input engine factory is_alpha c s).0
  unfolding input
  input-keeps c s p = elim (Bool-cases (is_alpha c)) [
    | inl alpha ↦ rw alpha (engine_keeps.of_letter c s p)
    | inr other ↦ rw other p
  ]

  serve-keeps :
      (c : Command) (value : ℕ) (s : engine.State)
      → P s
      → AllReply P (serve engine factory is_alpha c value s)
  unfolding serve
  serve-keeps close_session value s p = tt
  serve-keeps reset value s p = engine_keeps.of_reset s p
  serve-keeps input_letter value s p = elim (Bool-cases (ltb wchar_max value)) [
    | inl wide ↦ rw wide tt
    | inr narrow ↦ rw narrow (input-keeps value s p)
  ]
  serve-keeps backspace value s p = engine_keeps.of_backspace s p
  serve-keeps page_up value s p = engine_keeps.of_page_up s p
  serve-keeps page_down value s p = engine_keeps.of_page_down s p
  serve-keeps set_candidate_page_size value s p =
      elim (Bool-cases (value == 0 || ltb maximum_candidates_per_page value)) [
        | inl outside ↦ rw outside tt
        | inr inside ↦ rw inside (engine_keeps.of_page_size value s p)
      ]
  serve-keeps set_candidate_window_page_count value s p =
      elim (Bool-cases (value == 0 || ltb maximum_candidate_window_pages value)) [
        | inl outside ↦ rw outside tt
        | inr inside ↦ rw inside (engine_keeps.of_page_count value s p)
      ]
  serve-keeps set_traditional value s p = engine_keeps.of_traditional (not (value == 0)) s p
  serve-keeps set_chinese_candidates_only value s p =
      engine_keeps.of_chinese_only (not (value == 0)) s p
  serve-keeps input_separator value s p = engine_keeps.of_separator s p
  serve-keeps select_candidate value s p = engine_keeps.of_select value s p
  serve-keeps get_settings value s p = tt
  serve-keeps _ value s p = p

  reply-keeps :
      (request : Request) (host : SessionHost engine.State) (r : Reply engine.State)
      → AllReply P r
      → AllSessions P host.sessions
      → AllSessions P (reply engine factory is_alpha request host r).0.sessions
  unfolding reply
  reply-keeps request host closed p all = erase-AllSessions P request.session_id host.sessions all
  reply-keeps request host (refused status) p all = all
  reply-keeps request host (answered s consumed commit) p all =
      update-AllSessions P request.session_id s host.sessions p all

  handle_found-keeps :
      (request : Request) (host : SessionHost engine.State) (o : Option engine.State)
      → AllSome P o
      → AllSessions P host.sessions
      → AllSessions P (handle_found engine factory is_alpha request host o).0.sessions
  unfolding handle_found
  handle_found-keeps request host none p all = all
  handle_found-keeps request host (some s) p all =
      reply-keeps request host (serve engine factory is_alpha request.command request.value s)
        (serve-keeps request.command request.value s p) all

  made-keeps : (o : Option engine.State) (b : Bool) → factory b ≡ o → AllSome P o
  made-keeps none b h = tt
  made-keeps (some s) b h = made b s h

  handle_create-keeps :
      (request : Request) (host : SessionHost engine.State)
      → AllSessions P host.sessions
      → AllSessions P (handle_create engine factory is_alpha request host).0.sessions
  unfolding handle_create
  handle_create-keeps request host all =
      elim (Bool-cases (not (request.session_id == 0) || ltb 1 request.value)) [
        | inl outside ↦ rw outside all
        | inr inside ↦
            let restricted = not (request.value == 0) in
            rw inside (
              create-AllSessions P (factory restricted) host
                (made-keeps (factory restricted) restricted refl) all)
      ]

  handle_command-keeps :
      (c : Command) (request : Request) (host : SessionHost engine.State)
      → AllSessions P host.sessions
      → AllSessions P (handle_command engine factory is_alpha c request host).0.sessions
  unfolding handle_command
  handle_command-keeps ping request host all = all
  handle_command-keeps create_session request host all = handle_create-keeps request host all
  handle_command-keeps _ request host all =
      handle_found-keeps request host (find request.session_id host.sessions)
        (find-AllSome P request.session_id host.sessions all) all

  pub handle_all-keeps :
      (requests : List Request) (host : SessionHost engine.State)
      → AllSessions P host.sessions
      → AllSessions P (handle_all engine factory is_alpha requests host).sessions
  unfolding handle_all handle
  handle_all-keeps [] host all = all
  handle_all-keeps (r ∷ rs) host all =
      handle_all-keeps rs (handle engine factory is_alpha r host).0
        (handle_command-keeps r.command r host all)

  -- Where every operation of the engine keeps a predicate, and the engines that the factory makes have
  -- it, the engines of all sessions have it after any sequence of requests to a new host.
  pub handle_all-new_host :
      (requests : List Request)
      → AllSessions P (handle_all engine factory is_alpha requests new_host).sessions
  handle_all-new_host requests = handle_all-keeps requests new_host tt
