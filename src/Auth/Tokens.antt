-- ===== src/Auth/Tokens.antt =====
-- What the tokens of `JWTProvider` are good for.
use peers_touch_go.Prelude.{
  ℕ, ◌+◌, ◌<◌, ◌≤◌, ◌≡◌, ◌≢◌, inl, inr, true, [], none, some, Option-cases, Str, arith,
}
use peers_touch_go.Prelude.Result.{ok, err}
use peers_touch_go.Auth.{
  Credentials, nil_pointer, make_claims, Claims, found, Platform, JwtProvider, AuthResult,
  TokenInfo, Stamp, generate_token, issue, authenticate, validate_token,
}

module _ (p : Platform) where
  -- Nobody is authenticated without an email and a password that are not empty, a user with that
  -- email in the database, who is the one returned, and a password that matches the user's hash.
  pub authenticate_sound :
      (j : JwtProvider) (st st' : Stamp) (c : Credentials) (r : AuthResult)
      → authenticate p j st st' c ≡ ok r
      → (c.email ≢ [])
        × (c.password ≢ [])
        × (p.find_by_email c.email ≡ found r.actor)
        × (p.password_matches r.actor.password_hash c.password ≡ true)
  unfolding authenticate issue generate_token
  authenticate_sound j st st' c r h =
      (λ e. ground (arith, e), λ e. ground (arith, e), ground arith, ground arith)

  -- A token is accepted only if its method is HMAC, the library verifies it with the secret, and
  -- its claims have both times and an expiry that is not past; what is returned is the user, the
  -- email and the times of the claims.
  pub validate_token_sound :
      (j : JwtProvider) (lib now : ℕ) (token : Str) (info : TokenInfo)
      → validate_token p j lib now token ≡ ok info
      → (c : Claims) × (p.is_hmac token ≡ true)
        × (p.verify lib j.secret token ≡ some (c, true))
        × (c.actor_id ≡ info.actor_id)
        × (c.email ≡ info.email)
        × (c.issued_at ≡ some info.issued_at)
        × (c.expires_at ≡ some info.expires_at)
        × (now ≤ info.expires_at)
  unfolding validate_token
  validate_token_sound j lib now token info h = elim (Option-cases (p.verify lib j.secret token)) [
    | inl n ↦ absurd (ground arith)
    | inr ((c, valid), e) ↦ (
      c,
      ground arith,
      ground arith,
      ground arith,
      ground arith,
      ground arith,
      ground arith,
      ground arith,
    )
  ]

  -- A token whose method is HMAC and that verifies, but carries no expiry, makes the provider
  -- panic.
  pub validate_token_panics :
      (j : JwtProvider) (lib now : ℕ) (token : Str) (c : Claims)
      → p.is_hmac token ≡ true
      → p.verify lib j.secret token ≡ some (c, true)
      → c.expires_at ≡ none
      → validate_token p j lib now token ≡ err nil_pointer
  unfolding validate_token
  validate_token_panics j lib now token c h k e = rw (h, k, e)

  -- The access token is signed with the user's own claims.
  authenticate_signs :
      (j : JwtProvider) (st st' : Stamp) (c : Credentials) (r : AuthResult)
      → authenticate p j st st' c ≡ ok r
      → p.sign j.secret (make_claims p st r.actor.id r.actor.email j.expiry) ≡ some r.access_token
  unfolding authenticate issue generate_token
  authenticate_signs j st st' c r h = ground arith

  -- The token that `Authenticate` gives is accepted by `ValidateToken` from the second of its issue to
  -- before that of its expiry, with the id and the email of the user and the two times, in whole seconds;
  -- where the library verifies what it has signed, for that time, and gives back the claims.
  pub authenticate-validate_token :
      (j : JwtProvider) (st st' : Stamp) (c : Credentials) (r : AuthResult) (lib now : ℕ)
      (verify-sign : (secret token email : Str) (s : Stamp) (id expiry : ℕ)
        → p.sign secret (make_claims p s id email expiry) ≡ some token
        → p.numeric_date s.now ≤ lib
        → lib < p.numeric_date (s.now + expiry)
        → (p.is_hmac token ≡ true)
          × (p.verify lib secret token ≡ some (make_claims p s id email expiry, true)))
      → authenticate p j st st' c ≡ ok r
      → p.numeric_date st.now ≤ lib
      → lib < p.numeric_date (st.now + j.expiry)
      → now ≤ p.numeric_date (st.now + j.expiry)
      → validate_token p j lib now r.access_token
        ≡ ok (record {
          actor_id = r.actor.id;
          email = r.actor.email;
          expires_at = p.numeric_date (st.now + j.expiry);
          issued_at = p.numeric_date st.now;
        })
  unfolding validate_token
  authenticate-validate_token j st st' c r lib now verify-sign h from until fresh =
      let signed = authenticate_signs j st st' c r h in
      let v =
        verify-sign j.secret r.access_token r.actor.email st r.actor.id j.expiry signed from
          until in
      ground (arith, v)
