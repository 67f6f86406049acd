-- ===== src/Session/Creating.antt =====
-- CreateSession and the requests that call it.
use ziliu_ime.Base.{
  ℕ, ◌+◌, ◌%◌, ◌^◌, ◌<◌, ◌≡◌, ◌≢◌, refl, Option, none, some, ◌==◌, if◌then◌else◌, length,
}
use ziliu_ime.Session.{SessionHost, find, fresh_id, create}
use ziliu_ime.Session.Fresh.{fresh_id-free}

-- What CreateSession does: without an engine it changes nothing and returns 0; with one, it returns a
-- 64-bit id that is not 0 and that no session had, the session has the new engine, every other session
-- is as it was, and the next id to try is the one after.
module _ {S : Type 0} where
  pub data Created (made : Option S) (host : SessionHost S) : SessionHost S × ℕ → Type 0 where
    nothing : made ≡ none → Created made host (host, 0)
    session :
        (s : S) (after : SessionHost S) (id : ℕ)
        → made ≡ some s
        → id ≢ 0
        → id < 2 ^ 64
        → find id host.sessions ≡ none
        → ((other : ℕ)
            → find other after.sessions
              ≡ (if id == other then some s else find other host.sessions))
        → after.next_session_id ≡ (id + 1) % 2 ^ 64
        → Created made host (after, id)

  -- While there are fewer than 2^64 - 2 sessions and the next id is a 64-bit value, CreateSession
  -- without an engine changes nothing and returns 0, and with one it returns a 64-bit id, not 0, that no
  -- session had; that session then has the new engine, and the other sessions are as they were.
  pub create-Created :
      (made : Option S) (host : SessionHost S)
      → host.next_session_id < 2 ^ 64
      → length host.sessions + 2 < 2 ^ 64
      → Created made host (create made host)
  unfolding create find
  create-Created none host lt short = nothing refl
  create-Created (some s) host lt short =
      let (ne, unused, id_lt) = fresh_id-free host.next_session_id host.sessions lt short in
      let id = fresh_id (length host.sessions + 2) host.next_session_id host.sessions in
      session s (create (some s) host).0 id refl ne id_lt unused (λ other. refl) refl
