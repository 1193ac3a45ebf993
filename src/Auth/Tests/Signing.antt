-- ===== src/Auth/Tests/Signing.antt =====
-- A platform whose tokens are the claims, as a list of numbers, with times in whole seconds.
use mathlib.Core.Path.{subst}
use peers_touch_go.Prelude.{
  ◌+◌, ◌*◌, ◌/◌, ◌^◌, ◌++◌, ◌<◌, Bool, take, drop, length, Str, arith, ℕ, ◌≤◌, ◌≡◌, refl, true, [],
  ◌∷◌, Option, none, some, codes, str_eq, if◌then◌else◌,
}
use peers_touch_go.Prelude.Result.{ok}
use peers_touch_go.Prelude.Text.{decimal}
use peers_touch_go.Auth.{
  make_claims, Claims, found, not_found, Platform, JwtProvider, AuthResult, Stamp, authenticate,
  validate_token,
}
use peers_touch_go.Auth.Tokens.{authenticate-validate_token}
use peers_touch_go.Auth.Tests.{ada, login, stamp}

abbrev of_time : Option ℕ → ℕ
of_time none = 0
of_time (some t) = t

abbrev encode : Claims → Str
encode c =
    c.actor_id
    ∷ of_time c.issued_at
    ∷ of_time c.expires_at
    ∷ of_time c.not_before
    ∷ length c.email
    ∷ (c.email ++ c.token_id)

abbrev decode : Str → Option (Claims × Bool)
decode (id ∷ iat ∷ exp ∷ nbf ∷ n ∷ rest) = some (
  record {
    actor_id = id;
    email = take n rest;
    issued_at = some iat;
    expires_at = some exp;
    not_before = some nbf;
    issuer = codes "peers-touch-go";
    subject = decimal id;
    token_id = drop n rest;
  },
  true,
)
decode _ = none

abbrev signing : Platform
unfolding str_eq
signing = record {
  find_by_email = λ e. if str_eq e (codes "ada@example.org") then found ada else not_found;
  find_by_id = λ n. found ada;
  password_matches = λ hash password. str_eq hash password;
  numeric_date = λ n. n / 10 ^ 9 * 10 ^ 9;
  sign = λ secret c. some (encode c);
  is_hmac = λ t. true;
  verify = λ lib secret t. decode t;
}

take-length_append : (e t : Str) → take (length e) (e ++ t) ≡ e
take-length_append [] t = refl
take-length_append (x ∷ e) t = ground (arith, take-length_append e t)

drop-length_append : (e t : Str) → drop (length e) (e ++ t) ≡ t
drop-length_append [] t = refl
drop-length_append (x ∷ e) t = ground (arith, drop-length_append e t)

decode-encode :
    (s : Stamp) (id expiry : ℕ) (email : Str)
    → decode (encode (make_claims signing s id email expiry))
      ≡ some (make_claims signing s id email expiry, true)
decode-encode s id expiry email =
    rw (take-length_append email s.token_id, drop-length_append email s.token_id) refl

signing-verify :
    (lib : ℕ) (secret token email : Str) (s : Stamp) (id expiry : ℕ)
    → signing.sign secret (make_claims signing s id email expiry) ≡ some token
    → signing.numeric_date s.now ≤ lib
    → lib < signing.numeric_date (s.now + expiry)
    → (signing.is_hmac token ≡ true)
      × (signing.verify lib secret token ≡ some (make_claims signing s id email expiry, true))
unfolding signing
signing-verify lib secret token email s id expiry h from until =
    let e : encode (make_claims signing s id email expiry) ≡ token = cc in
    (
      refl,
      subst (λ t. decode t ≡ some (make_claims signing s id email expiry, true)) e
          (decode-encode s id expiry email),
    )

abbrev hour_provider : JwtProvider
hour_provider = record {
  secret = codes "key";
  expiry = 3600 * 10 ^ 9;
  refresh_expiry = 7200 * 10 ^ 9;
}

abbrev signed : AuthResult
signed = record {
  actor = ada;
  access_token = encode (make_claims signing stamp 7 (codes "ada@example.org") (3600 * 10 ^ 9));
  refresh_token = encode (make_claims signing stamp 7 (codes "ada@example.org") (7200 * 10 ^ 9));
  expires_at = 3600 * 10 ^ 9 + 10;
  token_type = codes "Bearer";
}

signed-authenticate : authenticate signing hour_provider stamp stamp login ≡ ok signed
unfolding authenticate signing
signed-authenticate = refl

abbrev minute : ℕ
minute = 60 * 10 ^ 9

authenticate-validate_token_example :
    validate_token signing hour_provider minute minute signed.access_token
    ≡ ok (record {
      actor_id = 7;
      email = codes "ada@example.org";
      expires_at = signing.numeric_date (10 + 3600 * 10 ^ 9);
      issued_at = signing.numeric_date 10;
    })
unfolding signing
authenticate-validate_token_example =
    authenticate-validate_token signing hour_provider stamp stamp login signed minute minute
      (signing-verify minute) signed-authenticate (omega arith) (omega arith) (omega arith)
