-- ===== src/Session/Serving.antt =====
-- What Handle does to a session that exists, and to the others.
use ziliu_ime.Base.{
  ℕ, ◌≡◌, ◌≢◌, refl, sym, ap, ◌∙◌, Bool, true, false, ◌&&◌, Option, none, some, List, [], ◌∷◌,
  arith, ◌==◌, if◌then◌else◌, All, ==_refl, Bool-cases, inl, inr,
}
use ziliu_ime.Ipc.Types.{Command, ping, create_session, Request}
use ziliu_ime.Engine.Interface.{Engine}
use ziliu_ime.Session.{
  SessionHost, find, update, erase, Reply, closed, refused, answered, serve, reply, handle_found,
  handle_command, handle,
}

module _ {S : Type 0} where
  pub find-update_same :
      (id : ℕ) (s now : S) (sessions : List (ℕ × S))
      → find id sessions ≡ some s
      → find id (update id now sessions) ≡ some now
  unfolding find update
  find-update_same id s now [] h = cc
  find-update_same id s now ((key, x) ∷ sessions) h =
      ground (arith, find-update_same id s now sessions)

  pub find-update_other :
      (id other : ℕ) (now : S) (sessions : List (ℕ × S))
      → other ≢ id
      → find other (update id now sessions) ≡ find other sessions
  unfolding find update
  find-update_other id other now [] ne = refl
  find-update_other id other now ((key, x) ∷ sessions) ne =
      ground (arith, find-update_other id other now sessions ne)

  pub find-erase_same : (id : ℕ) (sessions : List (ℕ × S)) → find id (erase id sessions) ≡ none
  unfolding find erase
  find-erase_same id [] = refl
  find-erase_same id ((key, x) ∷ sessions) = ground (arith, find-erase_same id sessions)

  pub find-erase_other :
      (id other : ℕ) (sessions : List (ℕ × S))
      → other ≢ id
      → find other (erase id sessions) ≡ find other sessions
  unfolding find erase
  find-erase_other id other [] ne = refl
  find-erase_other id other ((key, x) ∷ sessions) ne =
      ground (arith, find-erase_other id other sessions ne)

-- The commands that Handle passes to a session.
abbrev pub is_session_command : Command → Bool
is_session_command ping = false
is_session_command create_session = false
is_session_command _ = true

abbrev pub creates : Command → Bool
creates create_session = true
creates _ = false

module _ (engine : Engine) (factory : Bool → Option engine.State) (is_alpha : ℕ → Bool) where
  handle_command-found :
      (c : Command) (request : Request) (host : SessionHost engine.State)
      → is_session_command c ≡ true
      → handle_command engine factory is_alpha c request host
        ≡ handle_found engine factory is_alpha request host (find request.session_id host.sessions)
  unfolding handle_command
  handle_command-found ping request host h = cc
  handle_command-found create_session request host h = cc
  handle_command-found _ request host h = refl

  pub handle-session_command :
      (request : Request) (host : SessionHost engine.State)
      → is_session_command request.command ≡ true
      → handle engine factory is_alpha request host
        ≡ handle_found engine factory is_alpha request host (find request.session_id host.sessions)
  unfolding handle
  handle-session_command request host h = handle_command-found request.command request host h

  -- The engine of a session alone, after a request to it: none once it is closed.
  abbrev after_reply : engine.State → Reply engine.State → Option engine.State
  after_reply s closed = none
  after_reply s (refused status) = some s
  after_reply s (answered now consumed commit) = some now

  -- The engine of the session `id`, on its own: it serves the requests that name it.
  unfoldable pub alone : ℕ → Request → Option engine.State → Option engine.State
  alone id request none = none
  alone id request (some s) =
      if is_session_command request.command && request.session_id == id
      then after_reply s (serve engine factory is_alpha request.command request.value s)
      else some s

  -- A reply changes the session of its request as it would alone, and no other.
  reply-other :
      (request : Request) (host : SessionHost engine.State) (r : Reply engine.State) (id : ℕ)
      → id ≢ request.session_id
      → find id (reply engine factory is_alpha request host r).0.sessions ≡ find id host.sessions
  unfolding reply
  reply-other request host closed id ne = find-erase_other request.session_id id host.sessions ne
  reply-other request host (refused status) id ne = refl
  reply-other request host (answered now consumed commit) id ne =
      find-update_other request.session_id id now host.sessions ne

  reply-same :
      (request : Request) (host : SessionHost engine.State) (r : Reply engine.State)
      (s : engine.State)
      → find request.session_id host.sessions ≡ some s
      → find request.session_id (reply engine factory is_alpha request host r).0.sessions
        ≡ after_reply s r
  unfolding reply
  reply-same request host closed s h = find-erase_same request.session_id host.sessions
  reply-same request host (refused status) s h = h
  reply-same request host (answered now consumed commit) s h =
      find-update_same request.session_id s now host.sessions h

  found-same :
      (request : Request) (host : SessionHost engine.State) (o : Option engine.State)
      → is_session_command request.command ≡ true
      → find request.session_id host.sessions ≡ o
      → find request.session_id (handle_found engine factory is_alpha request host o).0.sessions
        ≡ alone request.session_id request o
  unfolding handle_found alone
  found-same request host none c h = h
  found-same request host (some s) c h =
      rw (c, ==_refl request.session_id)
        (reply-same request host (serve engine factory is_alpha request.command request.value s) s
          h)

  found-other :
      (request : Request) (host : SessionHost engine.State) (o : Option engine.State) (id : ℕ)
      → id ≢ request.session_id
      → find id (handle_found engine factory is_alpha request host o).0.sessions
        ≡ find id host.sessions
  unfolding handle_found
  found-other request host none id ne = refl
  found-other request host (some s) id ne =
      reply-other request host (serve engine factory is_alpha request.command request.value s) id ne

  alone-other :
      (request : Request) (o : Option engine.State) (id : ℕ)
      → (is_session_command request.command && request.session_id == id) ≡ false
      → alone id request o ≡ o
  unfolding alone
  alone-other request none id h = refl
  alone-other request (some s) id h = rw h refl

  handle_command-idle :
      (c : Command) (request : Request) (host : SessionHost engine.State)
      → is_session_command c ≡ false
      → creates c ≡ false
      → (handle_command engine factory is_alpha c request host).0 ≡ host
  unfolding handle_command
  handle_command-idle ping request host h n = refl
  handle_command-idle create_session request host h n = cc
  handle_command-idle _ request host h n = cc

  -- A request that creates no session leaves each session as its engine, served alone, would be: the
  -- session that the request names makes the one step of its command, or is gone when it is closed, a
  -- session that does not exist stays so, and every other session is as it was.
  pub handle-alone :
      (request : Request) (host : SessionHost engine.State) (id : ℕ)
      → creates request.command ≡ false
      → find id (handle engine factory is_alpha request host).0.sessions
        ≡ alone id request (find id host.sessions)
  handle-alone request host id n = elim (Bool-cases (is_session_command request.command)) [
    | inr idle ↦
        let o = find id host.sessions in
        let same : (is_session_command request.command && request.session_id == id) ≡ false =
          rw idle refl in
        rw (alone-other request o id same) (
          unfold handle in
          ap (λ h. find id h.sessions) (handle_command-idle request.command request host idle n))
    | inl served ↦ elim (Bool-cases (request.session_id == id)) [
      | inl here ↦
          let at : request.session_id ≡ id = ground arith in
          rw (sym at, handle-session_command request host served)
            (found-same request host (find request.session_id host.sessions) served refl)
      | inr there ↦
          let ne : id ≢ request.session_id = ground arith in
          let o = find id host.sessions in
          let same : (is_session_command request.command && request.session_id == id) ≡ false =
            rw (served, there) refl in
          rw (alone-other request o id same, handle-session_command request host served)
            (found-other request host (find request.session_id host.sessions) id ne)
    ]
  ]

  -- Handle over a sequence of requests.
  unfoldable pub handle_all : List Request → SessionHost engine.State → SessionHost engine.State
  handle_all [] host = host
  handle_all (r ∷ rs) host = handle_all rs (handle engine factory is_alpha r host).0

  unfoldable pub alone_all : ℕ → List Request → Option engine.State → Option engine.State
  alone_all id [] o = o
  alone_all id (r ∷ rs) o = alone_all id rs (alone id r o)

  -- Over any sequence of requests that create no session, the host behaves as one engine of its own per
  -- session, each of which serves the requests that name it, in their order, and none of the others.
  pub handle_all-alone_all :
      (requests : List Request) (host : SessionHost engine.State) (id : ℕ)
      → All (λ r. creates r.command ≡ false) requests
      → find id (handle_all requests host).sessions ≡ alone_all id requests (find id host.sessions)
  unfolding handle_all alone_all
  handle_all-alone_all [] host id n = refl
  handle_all-alone_all (r ∷ rs) host id n =
      handle_all-alone_all rs (handle engine factory is_alpha r host).0 id n.1
      ∙ ap (alone_all id rs) (handle-alone r host id n.0)

  reply-response :
      (request : Request) (one two : SessionHost engine.State) (r : Reply engine.State)
      → (reply engine factory is_alpha request one r).1
        ≡ (reply engine factory is_alpha request two r).1
  unfolding reply
  reply-response request one two closed = refl
  reply-response request one two (refused status) = refl
  reply-response request one two (answered now consumed commit) = refl

  found-response :
      (request : Request) (one two : SessionHost engine.State) (o : Option engine.State)
      → (handle_found engine factory is_alpha request one o).1
        ≡ (handle_found engine factory is_alpha request two o).1
  unfolding handle_found
  found-response request one two none = refl
  found-response request one two (some s) =
      reply-response request one two (serve engine factory is_alpha request.command request.value s)

  -- The response to a request for a session depends on that session alone: two hosts where the session
  -- has the same engine, or where it does not exist, answer alike.
  pub handle-response :
      (request : Request) (one two : SessionHost engine.State)
      → is_session_command request.command ≡ true
      → find request.session_id one.sessions ≡ find request.session_id two.sessions
      → (handle engine factory is_alpha request one).1
        ≡ (handle engine factory is_alpha request two).1
  handle-response request one two c h =
      rw (handle-session_command request one c, handle-session_command request two c, h)
        (found-response request one two (find request.session_id two.sessions))
