-- ===== src/Session/Errors.antt =====
-- The responses of Handle: what they echo, and what an error leaves.
use ziliu_ime.Base.{
  ℕ, ◌+◌, ◌^◌, ◌<◌, length, ==-false_of_ne, ==_refl, ◌≡◌, ◌≢◌, refl, sym, ap, ◌∙◌, List, All, ◌∷◌,
  arith, Bool, true, false, not, ◌||◌, Option, none, some, [], ltb, ◌==◌, Bool-cases, ◌⊎◌, inl, inr,
}
use ziliu_ime.Ipc.Types.{
  Command, ping, create_session, close_session, ok, session_not_found, Request, Response,
  empty_snapshot,
}
use ziliu_ime.Engine.Interface.{Engine}
use ziliu_ime.Session.{
  SessionHost, find, Reply, closed, refused, answered, serve, reply, handle_found, handle_create,
  handle_command, handle, create, created,
}
use ziliu_ime.Session.Creating.{Created, nothing, session, create-Created}
use ziliu_ime.Session.Serving.{
  is_session_command, handle-session_command, creates, alone, handle-alone, alone_all, handle_all,
  handle_all-alone_all,
}

module _ (engine : Engine) (factory : Bool → Option engine.State) (is_alpha : ℕ → Bool) where
  -- A session that a request has just opened: no session had the id, and it has an engine now.
  pub record IsOpened (request : Request) (host : SessionHost engine.State)
      (result : SessionHost engine.State × Response) : Type 0 where
    pub command : creates request.command ≡ true
    pub status : result.1.status ≡ ok
    pub nonzero : result.1.session_id ≢ 0
    pub unused : find result.1.session_id host.sessions ≡ none
    pub present : (s : engine.State) × (find result.1.session_id result.0.sessions ≡ some s)

  -- What a response of Handle to a request owes: the request's id, its session or the one it has opened,
  -- the empty theme and settings fields, and no change where the status is an error.
  pub record IsAnswer (request : Request) (host : SessionHost engine.State)
      (result : SessionHost engine.State × Response) : Type 0 where
    pub request_id : result.1.request_id ≡ request.request_id
    pub session_id : IsOpened request host result ⊎ (result.1.session_id ≡ request.session_id)
    pub settings : result.1.settings_text ≡ []
    pub chunk : result.1.theme_chunk ≡ []
    pub unchanged :
        (result.1.status ≡ ok)
        ⊎ ((result.0 ≡ host) × (result.1.snapshot ≡ empty_snapshot) × (result.1.consumed ≡ false))

  reply-IsAnswer :
      (request : Request) (host : SessionHost engine.State) (r : Reply engine.State)
      → IsAnswer request host (reply engine factory is_alpha request host r)
  unfolding reply
  reply-IsAnswer request host closed = record {
    request_id = refl;
    session_id = inr refl;
    settings = refl;
    chunk = refl;
    unchanged = inl refl;
  }
  reply-IsAnswer request host (refused status) = record {
    request_id = refl;
    session_id = inr refl;
    settings = refl;
    chunk = refl;
    unchanged = inr (refl, refl, refl);
  }
  reply-IsAnswer request host (answered now consumed commit) = record {
    request_id = refl;
    session_id = inr refl;
    settings = refl;
    chunk = refl;
    unchanged = inl refl;
  }

  handle_found-IsAnswer :
      (request : Request) (host : SessionHost engine.State) (o : Option engine.State)
      → IsAnswer request host (handle_found engine factory is_alpha request host o)
  unfolding handle_found
  handle_found-IsAnswer request host none = record {
    request_id = refl;
    session_id = inr refl;
    settings = refl;
    chunk = refl;
    unchanged = inr (refl, refl, refl);
  }
  handle_found-IsAnswer request host (some s) =
      reply-IsAnswer request host (serve engine factory is_alpha request.command request.value s)

  created-IsAnswer :
      (request : Request) (host : SessionHost engine.State) (made : Option engine.State)
      (result : SessionHost engine.State × ℕ)
      → request.command ≡ create_session
      → request.session_id ≡ 0
      → Created made host result
      → IsAnswer request host (created engine factory is_alpha request result)
  created-IsAnswer request host made result c zero_id (nothing e) = record {
    request_id = refl;
    session_id = inr (sym zero_id);
    settings = refl;
    chunk = refl;
    unchanged = inr (refl, refl, refl);
  }
  created-IsAnswer request host made result c zero_id
        (session s after id e ne lt unused found next) =
      record {
        request_id = refl;
        session_id = inl (record {
          command = rw c refl;
          status = rw (==-false_of_ne id 0 ne) refl;
          nonzero = ne;
          unused = unused;
          present = (s, found id ∙ rw (==_refl id) refl);
        });
        settings = refl;
        chunk = refl;
        unchanged = inl (rw (==-false_of_ne id 0 ne) refl);
      }

  handle_create-IsAnswer :
      (request : Request) (host : SessionHost engine.State)
      → request.command ≡ create_session
      → host.next_session_id < 2 ^ 64
      → length host.sessions + 2 < 2 ^ 64
      → IsAnswer request host (handle_create engine factory is_alpha request host)
  unfolding handle_create
  handle_create-IsAnswer request host c lt short =
      elim (Bool-cases (not (request.session_id == 0) || ltb 1 request.value)) [
        | inl outside ↦ rw outside (record {
          request_id = refl;
          session_id = inr refl;
          settings = refl;
          chunk = refl;
          unchanged = inr (refl, refl, refl);
        })
        | inr inside ↦
            let made = factory (not (request.value == 0)) in
            rw inside (
              created-IsAnswer request host made (create made host) c (ground arith)
                (create-Created made host lt short))
      ]

  handle_command-IsAnswer :
      (c : Command) (request : Request) (host : SessionHost engine.State)
      → request.command ≡ c
      → host.next_session_id < 2 ^ 64
      → length host.sessions + 2 < 2 ^ 64
      → IsAnswer request host (handle_command engine factory is_alpha c request host)
  unfolding handle_command
  handle_command-IsAnswer ping request host c lt short = record {
    request_id = refl;
    session_id = inr refl;
    settings = refl;
    chunk = refl;
    unchanged = inl refl;
  }
  handle_command-IsAnswer create_session request host c lt short =
      handle_create-IsAnswer request host c lt short
  handle_command-IsAnswer _ request host c lt short =
      handle_found-IsAnswer request host (find request.session_id host.sessions)

  -- While there are fewer than 2^64 - 2 sessions and the next id is a 64-bit value, every response
  -- carries the id of its request; it carries the session of the request, or, only where the request
  -- creates a session and the status is ok, an id other than 0 that no session had and that names a
  -- session now; it has no settings text and no theme chunk; and a response whose status is an error
  -- leaves the host as it was, with an empty snapshot and not consumed.
  pub handle-IsAnswer :
      (request : Request) (host : SessionHost engine.State)
      → host.next_session_id < 2 ^ 64
      → length host.sessions + 2 < 2 ^ 64
      → IsAnswer request host (handle engine factory is_alpha request host)
  unfolding handle
  handle-IsAnswer request host lt short =
      handle_command-IsAnswer request.command request host refl lt short

  alone-close_session :
      (close : Request) (o : Option engine.State)
      → close.command ≡ close_session
      → alone engine factory is_alpha close.session_id close o ≡ none
  unfolding alone serve
  alone-close_session close none c = refl
  alone-close_session close (some s) c = rw (c, ==_refl close.session_id) refl

  missing :
      (request : Request) (host : SessionHost engine.State)
      → ((handle_found engine factory is_alpha request host none).1.status ≡ session_not_found)
        × ((handle_found engine factory is_alpha request host none).0 ≡ host)
  unfolding handle_found
  missing request host = (refl, refl)

  alone_all-none :
      (id : ℕ) (requests : List Request) → alone_all engine factory is_alpha id requests none ≡ none
  unfolding alone_all alone
  alone_all-none id [] = refl
  alone_all-none id (r ∷ rs) = alone_all-none id rs

  -- After a session is closed and any sequence of requests has been handled that create no session, a
  -- request for the closed session, with any command for a session, answers that the session is not
  -- found, and changes nothing.
  pub handle-close_session :
      (close request : Request) (between : List Request) (host : SessionHost engine.State)
      → close.command ≡ close_session
      → All (λ r. creates r.command ≡ false) between
      → request.session_id ≡ close.session_id
      → is_session_command request.command ≡ true
      → let closed_host = (handle engine factory is_alpha close host).0 in
        let later = handle_all engine factory is_alpha between closed_host in
        ((handle engine factory is_alpha request later).1.status ≡ session_not_found)
        × ((handle engine factory is_alpha request later).0 ≡ later)
  handle-close_session close request between host c n same command =
      let id = close.session_id in
      let closed_host = (handle engine factory is_alpha close host).0 in
      let later = handle_all engine factory is_alpha between closed_host in
      let closed_id : find id closed_host.sessions ≡ none =
        handle-alone engine factory is_alpha close host id (rw c refl)
        ∙ alone-close_session close (find id host.sessions) c in
      let gone : find request.session_id later.sessions ≡ none =
        ap (λ i. find i later.sessions) same
        ∙ handle_all-alone_all engine factory is_alpha between closed_host id n
        ∙ ap (alone_all engine factory is_alpha id between) closed_id
        ∙ alone_all-none id between in
      rw (handle-session_command engine factory is_alpha request later command, gone)
        (missing request later)
