-- ===== src/Session/Manager.antt =====
-- station/frame/touch/auth/session.go: `SessionManager`, over any `SessionStore`.
use peers_touch_go.Prelude.{ℕ, ◌+◌, ◌≤◌, ◌<◌, ◌≡◌, Str, arith, ◌==◌, if◌then◌else◌}
use peers_touch_go.Prelude.Result.{Result, ok, err}
use peers_touch_go.Session.{
  Actor, Session, Error, session_not_found, session_expired, day, is_expired, SessionStore,
}

module _ (store : SessionStore) where
  open store use {State}

  -- `store` and `ttl`; the store's state is that of the shared object.
  pub record SessionManager : Type 0 where
    pub state : State
    pub ttl : ℕ

  unfoldable pub new_session_manager : State → ℕ → SessionManager
  new_session_manager m ttl = record { state = m; ttl = if ttl == 0 then day else ttl }

  -- The readings of the clock are for `CreatedAt`, `ExpiresAt`, `LastSeen` and for `Set`.
  abbrev pub make_session : ℕ → ℕ → ℕ → ℕ → Actor → Str → Str → Str → Session
  make_session created now seen ttl user session_id ip_address user_agent = record {
    id = session_id;
    user_id = user.id;
    email = user.email;
    created_at = created;
    expires_at = now + ttl;
    last_seen = seen;
    ip_address = ip_address;
    user_agent = user_agent;
  }

  abbrev pub or_error : Result Error (Unit {0}) → Session → Result Error Session
  or_error (ok u) s = ok s
  or_error (err e) s = err e

  unfoldable pub create_session :
      ℕ
      → ℕ
      → ℕ
      → ℕ
      → Actor
      → Str
      → Str
      → Str
      → SessionManager
      → Result Error Session × SessionManager
  create_session created now seen set_at user session_id ip_address user_agent sm =
      let s = make_session created now seen sm.ttl user session_id ip_address user_agent in
      let (r, m) = store.set set_at session_id s sm.state in (or_error r s, record sm { state = m })

  unfoldable pub get_session : ℕ → ℕ → Str → SessionManager → Result Error Session × SessionManager
  get_session now seen id sm =
      let (r, m) = store.get now seen id sm.state in (r, record sm { state = m })

  unfoldable pub delete_session : Str → SessionManager → Result Error (Unit {0}) × SessionManager
  delete_session id sm = let (r, m) = store.delete id sm.state in (r, record sm { state = m })

  -- The second test for the expiry has a reading of its own, `again`.
  abbrev pub recheck :
      ℕ → Str → Result Error Session × SessionManager → Result Error Session × SessionManager
  recheck again id (err e, sm) = (err e, sm)
  recheck again id (ok s, sm) =
      if is_expired again s
      then (err session_expired, record sm { state = (store.delete id sm.state).1 })
      else (ok s, sm)

  unfoldable pub validate_session :
      ℕ → ℕ → ℕ → Str → SessionManager → Result Error Session × SessionManager
  unfolding get_session
  validate_session now seen again id sm = recheck again id (get_session now seen id sm)

  -- A session that `CreateSession` made, at a time that is not zero, is found by `ValidateSession`
  -- of its id while neither of its two tests reads a time after the expiry: with the id and the email of
  -- its user, the address and the agent, the expiry a ttl after the reading for it, and last seen when it
  -- was touched.
  pub validate-create :
      (created now seen set_at t seen' again : ℕ) (user : Actor) (id ip agent : Str)
      (sm : SessionManager)
      → 0 < now
      → t ≤ now + sm.ttl
      → again ≤ now + sm.ttl
      → (validate_session t seen' again id
          (create_session created now seen set_at user id ip agent sm).1).0
        ≡ ok (record {
          id = id;
          user_id = user.id;
          email = user.email;
          created_at = created;
          expires_at = now + sm.ttl;
          last_seen = seen';
          ip_address = ip;
          user_agent = agent;
        })
  unfolding validate_session create_session
  validate-create created now seen set_at t seen' again user id ip agent sm h k l =
      let s = make_session created now seen sm.ttl user id ip agent in
      ground (arith, store.get-set set_at t seen' id s sm.state)

  -- `ValidateSession` never hands out a session that has expired at either of its readings.
  pub validate_session_live :
      (now seen again : ℕ) (id : Str) (sm : SessionManager) {s : Session}
      → (validate_session now seen again id sm).0 ≡ ok s
      → (now ≤ s.expires_at) × (again ≤ s.expires_at)
  unfolding validate_session
  validate_session_live now seen again id sm {s} h =
      ground (arith, store.get-live now seen id sm.state {s = s})

  -- After `DeleteSession`, `ValidateSession` of the id finds no session.
  pub validate-delete :
      (now seen again : ℕ) (id : Str) (sm : SessionManager)
      → (validate_session now seen again id (delete_session id sm).1).0 ≡ err session_not_found
  unfolding validate_session delete_session
  validate-delete now seen again id sm = ground (arith, store.get-delete now seen id sm.state)
