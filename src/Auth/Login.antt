-- ===== src/Auth/Login.antt =====
-- station/frame/touch/auth: LoginWithSession of auth.go and CreateAuthMiddleware of middleware.go, which put
-- the provider, a session store and a session manager together. `connected`: the database is there.
use peers_touch_go.Prelude.{
  ℕ, ◌+◌, ◌*◌, ◌/◌, ◌%◌, ◌-◌, Bool, true, [], ◌∷◌, Option, none, some, Str, codes, ltb,
  if◌then◌else◌, ◌≡◌, refl, arith, ap, ◌∙◌,
}
use peers_touch_go.Prelude.Dict
use peers_touch_go.Prelude.Result.{Result, ok, err}
use peers_touch_go.Session.{Actor, Session, Error as SessionError, day}
use peers_touch_go.Session.Store.{new_memory_session_store, get, find}
use peers_touch_go.Session.Store.Lookup.{memory_session_store}
use peers_touch_go.Session.Manager.{
  SessionManager, new_session_manager, create_session, get_session,
}
use peers_touch_go.Auth.{
  Credentials, AuthError, Platform, JwtProvider, AuthResult, Stamp, found, new_jwt_provider,
  authenticate,
}
use peers_touch_go.Auth.Tokens.{authenticate_sound}
use peers_touch_go.Auth.Middleware.{
  AuthMiddleware, Readings, Request, unauthorized, verdict, with_session, authenticate_with_session,
  require_session,
}

abbrev pub hex_digit : ℕ → ℕ
hex_digit n = if ltb n 10 then b'0' + n else b'a' + (n - 10)

-- `hex.EncodeToString`
unfoldable pub hex : Str → Str
hex [] = []
hex (b ∷ s) = hex_digit (b / 16) ∷ hex_digit (b % 16) ∷ hex s

pub data LoginError : Type 0 where
  no_database no_random : LoginError
  not_authenticated : AuthError → LoginError
  not_created : SessionError → LoginError

pub record SessionLoginResult : Type 0 where
  pub access_token : Str
  pub refresh_token : Str
  pub token_type : Str
  pub expires_at : ℕ
  pub session_id : Str
  pub user_id : ℕ
  pub user_name : Str
  pub user_email : Str

-- The readings of the clock, in their order: the two tokens', and those of CreateSession.
pub record LoginReadings : Type 0 where
  pub access : Stamp
  pub refresh : Stamp
  pub created : ℕ
  pub now : ℕ
  pub seen : ℕ
  pub set_at : ℕ

abbrev pub Manager : Type 0
Manager = SessionManager memory_session_store

unfoldable pub login_provider : JwtProvider
unfolding new_jwt_provider
login_provider = new_jwt_provider [] (codes "your-secret-key") day (7 * day)

unfoldable pub new_manager : Manager
unfolding new_memory_session_store new_session_manager memory_session_store
new_manager = new_session_manager memory_session_store (new_memory_session_store day) day

abbrev pub login_result :
    AuthResult → Result SessionError Session → Result LoginError SessionLoginResult
login_result a (err e) = err (not_created e)
login_result a (ok s) = ok (record {
  access_token = a.access_token;
  refresh_token = a.refresh_token;
  token_type = a.token_type;
  expires_at = a.expires_at;
  session_id = s.id;
  user_id = a.actor.id;
  user_name = a.actor.name;
  user_email = a.actor.email;
})

unfoldable pub with_random :
    LoginReadings → Str → Str → AuthResult → Option Str → Result LoginError SessionLoginResult
unfolding create_session hex new_manager
with_random r ip agent a none = err no_random
with_random r ip agent a (some bytes) =
    login_result a
      (create_session memory_session_store r.created r.now r.seen r.set_at a.actor (hex bytes) ip
        agent new_manager).0

unfoldable pub with_authenticated :
    LoginReadings
    → Str
    → Str
    → Option Str
    → Result AuthError AuthResult
    → Result LoginError SessionLoginResult
unfolding with_random
with_authenticated r ip agent random (err e) = err (not_authenticated e)
with_authenticated r ip agent random (ok a) = with_random r ip agent a random

-- `random`: the 32 bytes of `rand.Read`, if there are any.
unfoldable pub login_with_session :
    Bool
    → Platform
    → LoginReadings
    → Option Str
    → Credentials
    → Str
    → Str
    → Result LoginError SessionLoginResult
unfolding authenticate hex with_authenticated login_provider
login_with_session connected p r random c ip agent =
    if connected
    then with_authenticated r ip agent random (authenticate p login_provider r.access r.refresh c)
    else err no_database

-- The middleware with a session manager of its own.
unfoldable pub create_auth_middleware :
    Bool → (p : Platform) → Str → Str → Option (AuthMiddleware p memory_session_store)
unfolding new_jwt_provider new_manager
create_auth_middleware connected p random secret =
    if connected
    then some (record {
      jwt_provider = some (new_jwt_provider random secret day (7 * day));
      session_manager = some new_manager;
    })
    else none

with_random-user :
    (r : LoginReadings) (ip agent : Str) (a : AuthResult) (random : Option Str)
    (l : SessionLoginResult)
    → with_random r ip agent a random ≡ ok l
    → (l.user_id ≡ a.actor.id) × (l.user_email ≡ a.actor.email)
unfolding with_random create_session memory_session_store
with_random-user r ip agent a none l h = ground arith
with_random-user r ip agent a (some bytes) l h = ground arith

module _ (p : Platform) where
  with_authenticated-user :
      (r : LoginReadings) (ip agent : Str) (random : Option Str) (q : Result AuthError AuthResult)
      (l : SessionLoginResult)
      → with_authenticated r ip agent random q ≡ ok l
      → (a : AuthResult) × (q ≡ ok a) × (l.user_id ≡ a.actor.id) × (l.user_email ≡ a.actor.email)
  unfolding with_authenticated
  with_authenticated-user r ip agent random (err e) l h = ground arith
  with_authenticated-user r ip agent random (ok a) l h =
      let (i, e) = with_random-user r ip agent a random l h in (a, refl, i, e)

  -- Who logs in with a session is the user of the database with that email, whose hash the password
  -- matches, and gets a result with the id and the email of this user.
  pub login_with_session_sound :
      (r : LoginReadings) (random : Option Str) (c : Credentials) (ip agent : Str)
      (l : SessionLoginResult)
      → login_with_session true p r random c ip agent ≡ ok l
      → (u : Actor) × (p.find_by_email c.email ≡ found u)
        × (p.password_matches u.password_hash c.password ≡ true)
        × (l.user_id ≡ u.id)
        × (l.user_email ≡ u.email)
  unfolding login_with_session
  login_with_session_sound r random c ip agent l h =
      let (a, q, i, e) =
        with_authenticated-user r ip agent random
          (authenticate p login_provider r.access r.refresh c) l h in
      let (_, _, f, m) = authenticate_sound p login_provider r.access r.refresh c a q in
      (a.actor, f, m, i, e)

  unauthorized_without :
      (m : AuthMiddleware p memory_session_store) (r : Readings) (cookie : Str)
      → (verdict p memory_session_store
          (with_session p memory_session_store m (some new_manager) r cookie)).0
        ≡ unauthorized
  unfolding new_manager get_session memory_session_store get find Dict.get
  unauthorized_without m r [] = refl
  unauthorized_without m r (c ∷ cookie) = refl

  -- The middleware that CreateAuthMiddleware makes knows no session: whatever id a login gave, it answers
  -- 401 to the id as a cookie.
  pub require_session-create_auth_middleware :
      (random secret : Str) (m : AuthMiddleware p memory_session_store) (r : Readings) (q : Request)
      → create_auth_middleware true p random secret ≡ some m
      → (require_session p memory_session_store r q m).0 ≡ unauthorized
  unfolding create_auth_middleware require_session authenticate_with_session
  require_session-create_auth_middleware random secret m r q h =
      let e : m.session_manager ≡ some new_manager = ground arith in
      ap
        (λ sm.
          (verdict p memory_session_store
            (with_session p memory_session_store m sm r q.session_cookie)).0)
        e
      ∙ unauthorized_without m r q.session_cookie
