-- ===== src/Auth/Middleware.antt =====
-- station/frame/touch/auth/middleware.go: `AuthMiddleware`, over a JWT provider and a session manager,
-- each of which may be nil. A request is its `Authorization` header and its cookie `session_id`.
use peers_touch_go.Prelude.{
  ℕ, ◌≤◌, ◌≡◌, refl, inl, inr, false, [], ◌∷◌, Option, none, some, Option-cases, Str, codes, arith,
  if◌then◌else◌, drop,
}
use peers_touch_go.Prelude.Result.{Result, ok, err}
use peers_touch_go.Prelude.Text.{has_prefix}
use peers_touch_go.Session.{Session, SessionStore, Error as SessionError}
use peers_touch_go.Session.Manager.{SessionManager, get_session}
use peers_touch_go.Auth.{AuthError, nil_pointer, Platform, JwtProvider, TokenInfo, validate_token}

pub record Request : Type 0 where
  pub authorization : Str
  pub session_cookie : Str

-- The readings of the clock that a request may take: the JWT library's, the provider's, those of
-- `IsExpired` and of `Touch`.
pub record Readings : Type 0 where
  pub lib : ℕ
  pub token : ℕ
  pub session : ℕ
  pub seen : ℕ

-- The user that is set in the context, or the answer 401 and no user; `aborted` is a panic. Nothing here
-- stops the handlers that follow, which the code does not either.
pub data Verdict : Type 0 where
  allowed : ℕ → Str → Verdict
  unauthorized : Verdict
  aborted : Verdict

abbrev pub bearer : Str
bearer = codes "Bearer "

module _ (p : Platform) (store : SessionStore) where
  pub record AuthMiddleware : Type 0 where
    pub jwt_provider : Option JwtProvider
    pub session_manager : Option (SessionManager store)

  -- What one of the two ways to authenticate found; an error is logged and is nothing found.
  pub data Found : Type 0 where
    user : TokenInfo → Found
    nobody : Found
    crashed : Found

  abbrev pub of_validation : Result AuthError TokenInfo → Found
  of_validation (ok info) = user info
  of_validation (err nil_pointer) = crashed
  of_validation (err _) = nobody

  abbrev pub validate_bearer : JwtProvider → Readings → Str → Found
  validate_bearer j r [] = nobody
  validate_bearer j r (c ∷ token) = of_validation (validate_token p j r.lib r.token (c ∷ token))

  abbrev pub with_jwt : Option JwtProvider → Readings → Str → Found
  with_jwt none r header = nobody
  with_jwt (some j) r header =
      if has_prefix header bearer then validate_bearer j r (drop 7 header) else nobody

  -- An empty header has no prefix, so the test for it changes nothing.
  unfoldable pub authenticate_with_jwt : AuthMiddleware → Readings → Request → Found
  unfolding has_prefix validate_token
  authenticate_with_jwt m r q = with_jwt m.jwt_provider r q.authorization

  abbrev pub of_session :
      AuthMiddleware → Result SessionError Session × SessionManager store → Found × AuthMiddleware
  of_session m (ok s, sm) = (
    user (record {
      actor_id = s.user_id;
      email = s.email;
      expires_at = s.expires_at;
      issued_at = s.created_at;
    }),
    record m { session_manager = some sm },
  )
  of_session m (err e, sm) = (nobody, record m { session_manager = some sm })

  abbrev pub with_session :
      AuthMiddleware → Option (SessionManager store) → Readings → Str → Found × AuthMiddleware
  with_session m none r cookie = (nobody, m)
  with_session m (some sm) r [] = (nobody, m)
  with_session m (some sm) r (c ∷ id) =
      of_session m (get_session store r.session r.seen (c ∷ id) sm)

  unfoldable pub authenticate_with_session :
      AuthMiddleware → Readings → Request → Found × AuthMiddleware
  unfolding get_session
  authenticate_with_session m r q = with_session m m.session_manager r q.session_cookie

  abbrev pub verdict : Found × AuthMiddleware → Verdict × AuthMiddleware
  verdict (user info, m) = (allowed info.actor_id info.email, m)
  verdict (nobody, m) = (unauthorized, m)
  verdict (crashed, m) = (aborted, m)

  -- The session is tried where the token found nobody.
  abbrev pub or_session : AuthMiddleware → Readings → Request → Found → Verdict × AuthMiddleware
  or_session m r q (user info) = (allowed info.actor_id info.email, m)
  or_session m r q nobody = verdict (authenticate_with_session m r q)
  or_session m r q crashed = (aborted, m)

  unfoldable pub require_auth : Readings → Request → AuthMiddleware → Verdict × AuthMiddleware
  unfolding authenticate_with_jwt authenticate_with_session
  require_auth r q m = or_session m r q (authenticate_with_jwt m r q)

  unfoldable pub require_jwt : Readings → Request → AuthMiddleware → Verdict × AuthMiddleware
  unfolding authenticate_with_jwt
  require_jwt r q m = verdict (authenticate_with_jwt m r q, m)

  unfoldable pub require_session : Readings → Request → AuthMiddleware → Verdict × AuthMiddleware
  unfolding authenticate_with_session
  require_session r q m = verdict (authenticate_with_session m r q)

  -- `RequireAuth` sets a user, or panics, exactly as `RequireJWT` does, and then leaves the
  -- sessions alone; where that answers 401 it does what `RequireSession` does.
  pub require_auth_lem :
      (r : Readings) (q : Request) (m : AuthMiddleware)
      → require_auth r q m ≡ (elim ((require_jwt r q m).0) [
        | unauthorized ↦ require_session r q m
        | _ ↦ require_jwt r q m
      ])
  unfolding require_auth require_jwt require_session
  require_auth_lem r q m = go (authenticate_with_jwt m r q)
    where
      go :
          (f : Found)
          → or_session m r q f ≡ (elim ((verdict (f, m)).0) [
            | unauthorized ↦ verdict (authenticate_with_session m r q)
            | _ ↦ verdict (f, m)
          ])
      go (user info) = refl
      go nobody = refl
      go crashed = refl

  no_token :
      (r : Readings) (q : Request) (m : AuthMiddleware)
      → has_prefix q.authorization bearer ≡ false
      → authenticate_with_jwt m r q ≡ nobody
  unfolding authenticate_with_jwt
  no_token r q m h = elim (Option-cases m.jwt_provider) [
    | inl n ↦ ground arith
    | inr (j, e) ↦ ground arith
  ]

  no_session :
      (r : Readings) (q : Request) (m : AuthMiddleware) (sm : SessionManager store)
      (e : SessionError)
      → m.session_manager ≡ some sm
      → (store.get r.session r.seen q.session_cookie sm.state).0 ≡ err e
      → (authenticate_with_session m r q).0 ≡ nobody
  unfolding authenticate_with_session
  no_session r q m sm e k g = go q.session_cookie refl
    where
      go : (c : Str) → q.session_cookie ≡ c → (authenticate_with_session m r q).0 ≡ nobody
      go [] a = ground arith
      go (d ∷ c) a = ground arith

  -- Where there is a session manager, a request without a bearer token and whose cookie names a
  -- session that the store does not find, or has expired, is answered 401 by all three.
  pub unauthorized_lem :
      (r : Readings) (q : Request) (m : AuthMiddleware) (sm : SessionManager store)
      (e : SessionError)
      → has_prefix q.authorization bearer ≡ false
      → m.session_manager ≡ some sm
      → (store.get r.session r.seen q.session_cookie sm.state).0 ≡ err e
      → ((require_auth r q m).0 ≡ unauthorized)
        × ((require_jwt r q m).0 ≡ unauthorized)
        × ((require_session r q m).0 ≡ unauthorized)
  unfolding require_auth require_jwt require_session
  unauthorized_lem r q m sm e h k g =
      let j = no_token r q m h in
      let n = no_session r q m sm e k g in
      (ground (arith, j, n), ground (arith, j), ground (arith, n))

  session_sound :
      (r : Readings) (q : Request) (m : AuthMiddleware) (sm : SessionManager store) (id : ℕ)
      (email : Str)
      → m.session_manager ≡ some sm
      → (require_session r q m).0 ≡ allowed id email
      → (s : Session) × ((store.get r.session r.seen q.session_cookie sm.state).0 ≡ ok s)
        × (s.user_id ≡ id)
        × (s.email ≡ email)
        × (r.session ≤ s.expires_at)
  unfolding require_session
  session_sound r q m sm id email k h =
      go q.session_cookie (store.get r.session r.seen q.session_cookie sm.state).0 refl refl
    where
      go :
          (c : Str) (x : Result SessionError Session)
          → q.session_cookie ≡ c
          → (store.get r.session r.seen q.session_cookie sm.state).0 ≡ x
          → (s : Session) × ((store.get r.session r.seen q.session_cookie sm.state).0 ≡ ok s)
            × (s.user_id ≡ id)
            × (s.email ≡ email)
            × (r.session ≤ s.expires_at)
      go [] x c e = absurd (ground arith)
      go (d ∷ c) (err x) a e = absurd (ground arith)
      go (d ∷ c) (ok s) a e = (
        s,
        e,
        ground arith,
        ground arith,
        store.get-live r.session r.seen q.session_cookie sm.state e,
      )

  -- If `RequireSession` sets a user, the session manager is there and its store has a session under the
  -- cookie's id that had not expired when it was looked up, and the user is that of the session.
  pub require_session_sound :
      (r : Readings) (q : Request) (m : AuthMiddleware) (id : ℕ) (email : Str)
      → (require_session r q m).0 ≡ allowed id email
      → (sm : SessionManager store) × (m.session_manager ≡ some sm)
        × ((s : Session) × ((store.get r.session r.seen q.session_cookie sm.state).0 ≡ ok s)
            × (s.user_id ≡ id)
            × (s.email ≡ email)
            × (r.session ≤ s.expires_at))
  unfolding require_session
  require_session_sound r q m id email h = elim (Option-cases m.session_manager) [
    | inl n ↦ absurd (ground arith)
    | inr (sm, e) ↦ (sm, e, session_sound r q m sm id email e h)
  ]
