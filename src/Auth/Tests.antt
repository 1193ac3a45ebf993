-- ===== src/Auth/Tests.antt =====
-- A platform with one user and tokens that always verify.
mod Signing
mod Logins
use mathlib.Core.Path.{subst}
use peers_touch_go.Prelude.{
  ◌+◌, ◌*◌, ◌/◌, ◌^◌, ◌++◌, ◌<◌, Bool, take, drop, length, Str, arith, ℕ, ◌≤◌, ◌≡◌, ◌≢◌, refl, true,
  false, [], ◌∷◌, Option, none, some, codes, str_eq, if◌then◌else◌,
}
use peers_touch_go.Prelude.Result.{ok, err}
use peers_touch_go.Prelude.Text.{has_prefix, decimal}
use peers_touch_go.Session.{Actor, Session, session_expired}
use peers_touch_go.Session.Store.{get}
use peers_touch_go.Session.Store.Lookup.{memory_session_store}
use peers_touch_go.Session.Manager.{SessionManager}
use peers_touch_go.Auth.{
  make_claims, Credentials, nil_pointer, Claims, found, not_found, Platform, JwtProvider,
  AuthResult, TokenInfo, Stamp, authenticate, validate_token,
}
use peers_touch_go.Auth.Tokens.{
  authenticate-validate_token, authenticate_sound, validate_token_sound, validate_token_panics,
}
use peers_touch_go.Auth.Middleware.{
  Request, Readings, allowed, unauthorized, AuthMiddleware, require_auth, require_jwt,
  require_session, unauthorized_lem, require_session_sound,
}

abbrev pub ada : Actor
ada = record {
  id = 7;
  name = codes "ada";
  email = codes "ada@example.org";
  password_hash = codes "pw";
}

abbrev claims : Option ℕ → Claims
claims expires_at = record {
  actor_id = 7;
  email = codes "ada@example.org";
  issued_at = some 1;
  expires_at = expires_at;
  not_before = some 1;
  issuer = codes "peers-touch-go";
  subject = codes "7";
  token_id = codes "t";
}

-- Bcrypt is stood for by equality, and the token "endless" has no expiry.
abbrev pub platform : Platform
unfolding str_eq
platform = record {
  find_by_email = λ e. if str_eq e (codes "ada@example.org") then found ada else not_found;
  find_by_id = λ n. found ada;
  password_matches = λ hash password. str_eq hash password;
  numeric_date = λ n. n;
  sign = λ secret c. some (codes "token");
  is_hmac = λ t. true;
  verify =
      λ lib secret t. some (claims (if str_eq t (codes "endless") then none else some 90), true);
}

abbrev provider : JwtProvider
provider = record { secret = codes "key"; expiry = 50; refresh_expiry = 100 }

abbrev pub stamp : Stamp
stamp = record { now = 10; token_id = codes "t" }

abbrev pub login : Credentials
login = record { email = codes "ada@example.org"; password = codes "pw" }

abbrev ada_result : AuthResult
ada_result = record {
  actor = ada;
  access_token = codes "token";
  refresh_token = codes "token";
  expires_at = 60;
  token_type = codes "Bearer";
}

login-authenticate : authenticate platform provider stamp stamp login ≡ ok ada_result
unfolding authenticate platform
login-authenticate = refl

abbrev info : TokenInfo
info = record { actor_id = 7; email = codes "ada@example.org"; expires_at = 90; issued_at = 1 }

token-validate : validate_token platform provider 20 20 (codes "token") ≡ ok info
unfolding validate_token platform
token-validate = refl

validate_token_sound_example :
    (c : Claims) × (platform.is_hmac (codes "token") ≡ true)
    × (platform.verify 20 (codes "key") (codes "token") ≡ some (c, true))
    × (c.actor_id ≡ 7)
    × (c.email ≡ codes "ada@example.org")
    × (c.issued_at ≡ some 1)
    × (c.expires_at ≡ some 90)
    × (20 ≤ 90)
validate_token_sound_example =
    validate_token_sound platform provider 20 20 (codes "token") info token-validate

endless-verify : platform.verify 20 (codes "key") (codes "endless") ≡ some (claims none, true)
unfolding platform
endless-verify = refl

endless-is_hmac : platform.is_hmac (codes "endless") ≡ true
unfolding platform
endless-is_hmac = refl

abbrev session : Session
session = record {
  id = codes "s";
  user_id = 7;
  email = codes "ada@example.org";
  created_at = 10;
  expires_at = 60;
  last_seen = 10;
  ip_address = codes "127.0.0.1";
  user_agent = codes "test";
}

abbrev one_session : SessionManager memory_session_store
unfolding memory_session_store
one_session = record { state = record { sessions = (codes "s", session) ∷ []; ttl = 50 }; ttl = 50 }

abbrev middleware : AuthMiddleware platform memory_session_store
middleware = record { jwt_provider = some provider; session_manager = some one_session }

abbrev request : Request
request = record { authorization = codes "Basic x"; session_cookie = codes "s" }

abbrev readings : ℕ → Readings
readings t = record { lib = t; token = t; session = t; seen = t }

request_bearer : has_prefix request.authorization (codes "Bearer ") ≡ false
unfolding has_prefix
request_bearer = refl

s_is_expired :
    (memory_session_store.get 61 61 (codes "s") one_session.state).0 ≡ err session_expired
unfolding memory_session_store get one_session str_eq
s_is_expired = refl

s_is_allowed :
    (require_session platform memory_session_store (readings 30) request middleware).0
    ≡ allowed 7 (codes "ada@example.org")
unfolding require_session memory_session_store get one_session str_eq
s_is_allowed = refl

require_session_sound_example :
    (sm : SessionManager memory_session_store) × (middleware.session_manager ≡ some sm)
    × ((s : Session) × ((memory_session_store.get 30 30 (codes "s") sm.state).0 ≡ ok s)
        × (s.user_id ≡ 7)
        × (s.email ≡ codes "ada@example.org")
        × (30 ≤ s.expires_at))
require_session_sound_example =
    require_session_sound platform memory_session_store (readings 30) request middleware 7
      (codes "ada@example.org") s_is_allowed
