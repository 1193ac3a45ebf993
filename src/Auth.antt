-- ===== src/Auth.antt =====
-- station/frame/touch/auth: auth.go (types, `AuthService`), errors.go and jwt.go (`JWTProvider`). The
-- database, bcrypt, the JWT library and random bytes are the parameter `Platform`; clock readings and
-- token ids are arguments. Times are nanoseconds since the zero `time.Time`.
pub mod Tokens
pub mod Service
pub mod Middleware
pub mod Login
mod Tests
use peers_touch_go.Prelude.{
  ℕ, ◌+◌, ◌*◌, ◌≤◌, ◌<◌, ◌≡◌, Bool, true, false, List, [], ◌∷◌, Option, none, some, Str, codes, ltb,
  ◌==◌, if◌then◌else◌,
}
use peers_touch_go.Prelude.Result.{Result, ok, err, ◌>>=◌}
use peers_touch_go.Prelude.Text.{decimal}
use peers_touch_go.Session.{Actor, day}

pub record Credentials : Type 0 where
  pub email : Str
  pub password : Str

-- `nil_pointer` is no error value but the run-time panic of a nil pointer.
pub data AuthError : Type 0 where
  invalid_credentials user_not_found invalid_token token_expired no_auth_provider : AuthError
  jwt_signing_failed jwt_parsing_failed database_error nil_pointer : AuthError

-- A claim that is absent is a nil pointer.
pub record Claims : Type 0 where
  pub actor_id : ℕ
  pub email : Str
  pub issued_at : Option ℕ
  pub expires_at : Option ℕ
  pub not_before : Option ℕ
  pub issuer : Str
  pub subject : Str
  pub token_id : Str

pub data Row : Type 0 where
  found : Actor → Row
  not_found : Row
  failed : Row

-- What the provider takes from elsewhere: the two queries, bcrypt's comparison, and the library's
-- `SignedString`, `NewNumericDate` and `ParseWithClaims`. `is_hmac` is the type assertion on the
-- token's method; `verify` is parsing with the key, at the library's own reading of the clock, with
-- `token.Valid`.
pub record Platform : Type 0 where
  pub find_by_email : Str → Row
  pub find_by_id : ℕ → Row
  pub password_matches : Str → Str → Bool
  pub numeric_date : ℕ → ℕ
  pub sign : Str → Claims → Option Str
  pub is_hmac : Str → Bool
  pub verify : ℕ → Str → Str → Option (Claims × Bool)

pub record JwtProvider : Type 0 where
  pub secret : Str
  pub expiry : ℕ
  pub refresh_expiry : ℕ

pub record AuthResult : Type 0 where
  pub actor : Actor
  pub access_token : Str
  pub refresh_token : Str
  pub expires_at : ℕ
  pub token_type : Str

pub record TokenInfo : Type 0 where
  pub actor_id : ℕ
  pub email : Str
  pub expires_at : ℕ
  pub issued_at : ℕ

abbrev pub is_empty : Str → Bool
is_empty [] = true
is_empty (c ∷ s) = false

-- `random` is what `rand.Read` gives for an empty secret.
unfoldable pub new_jwt_provider : Str → Str → ℕ → ℕ → JwtProvider
new_jwt_provider random secret expiry refresh_expiry = record {
  secret = if is_empty secret then random else secret;
  expiry = if expiry == 0 then day else expiry;
  refresh_expiry = if refresh_expiry == 0 then 7 * day else refresh_expiry;
}

-- The reading of the clock and the token id that one `generateToken` takes.
pub record Stamp : Type 0 where
  pub now : ℕ
  pub token_id : Str

module _ (p : Platform) where
  abbrev pub make_claims : Stamp → ℕ → Str → ℕ → Claims
  make_claims st user_id email expiry = record {
    actor_id = user_id;
    email = email;
    issued_at = some (p.numeric_date st.now);
    expires_at = some (p.numeric_date (st.now + expiry));
    not_before = some (p.numeric_date st.now);
    issuer = codes "peers-touch-go";
    subject = decimal user_id;
    token_id = st.token_id;
  }

  abbrev pub or_signing_failed : ℕ → Option Str → Result AuthError (Str × ℕ)
  or_signing_failed expires_at none = err jwt_signing_failed
  or_signing_failed expires_at (some token) = ok (token, expires_at)

  unfoldable pub generate_token : Str → Stamp → ℕ → Str → ℕ → Result AuthError (Str × ℕ)
  unfolding decimal
  generate_token secret st user_id email expiry =
      or_signing_failed (st.now + expiry) (p.sign secret (make_claims st user_id email expiry))

  abbrev pub or_no_user : Row → Result AuthError Actor
  or_no_user (found a) = ok a
  or_no_user not_found = err user_not_found
  or_no_user failed = err database_error

  -- The two tokens for a user, the access token first.
  unfoldable pub issue : JwtProvider → Stamp → Stamp → Actor → Result AuthError AuthResult
  unfolding generate_token
  issue j st st' user = do
    (access, expires_at) ← generate_token j.secret st user.id user.email j.expiry
    (refresh, _) ← generate_token j.secret st' user.id user.email j.refresh_expiry
    ok (record {
      actor = user;
      access_token = access;
      refresh_token = refresh;
      expires_at = expires_at;
      token_type = codes "Bearer";
    })

  unfoldable pub authenticate :
      JwtProvider → Stamp → Stamp → Credentials → Result AuthError AuthResult
  unfolding issue
  authenticate j st st' c =
      if is_empty c.email
      then err invalid_credentials
      else if is_empty c.password
      then err invalid_credentials
      else (or_no_user (p.find_by_email c.email) >>= λ user.
          if p.password_matches user.password_hash c.password
          then issue j st st' user
          else err invalid_credentials)

  abbrev pub read_times : Claims → Option ℕ → Option ℕ → Result AuthError TokenInfo
  read_times c none iat = err nil_pointer
  read_times c (some exp) none = err nil_pointer
  read_times c (some exp) (some iat) =
      ok (record { actor_id = c.actor_id; email = c.email; expires_at = exp; issued_at = iat })

  -- `claims.ExpiresAt != nil && claims.ExpiresAt.Time.Before(time.Now())`
  abbrev pub has_expired : ℕ → Option ℕ → Bool
  has_expired now none = false
  has_expired now (some exp) = ltb exp now

  abbrev pub check_claims : ℕ → Option (Claims × Bool) → Result AuthError TokenInfo
  check_claims now none = err jwt_parsing_failed
  check_claims now (some (c, valid)) =
      if valid
      then (if has_expired now c.expires_at
          then err token_expired
          else read_times c c.expires_at c.issued_at)
      else err invalid_token

  -- `lib` is the library's reading of the clock, `now` that of the test.
  unfoldable pub validate_token : JwtProvider → ℕ → ℕ → Str → Result AuthError TokenInfo
  validate_token j lib now token =
      check_claims now (if p.is_hmac token then p.verify lib j.secret token else none)

  unfoldable pub refresh_token :
      JwtProvider → ℕ → ℕ → Stamp → Stamp → Str → Result AuthError AuthResult
  unfolding validate_token issue
  refresh_token j lib now st st' token = do
    info ← validate_token j lib now token
    user ← or_no_user (p.find_by_id info.actor_id)
    issue j st st' user

  unfoldable pub revoke_token : JwtProvider → ℕ → ℕ → Str → Result AuthError (Unit {0})
  unfolding validate_token
  revoke_token j lib now token = validate_token j lib now token >>= λ _. ok tt
