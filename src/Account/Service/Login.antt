-- ===== src/Account/Service/Login.antt =====
-- station/frame/touch/actor/actor.go: signing up, then logging in.
use peers_touch_go.Prelude.{
  ℕ, zero, suc, Bool, true, false, List, [], ◌∷◌, Option, none, some, Str, ◌≡◌, ◌≢◌, arith, refl,
  sym, ◌∙◌, Bool-cases, inl, inr,
}
use peers_touch_go.Prelude.Result.{ok}
use peers_touch_go.Account.{SignParams}
use peers_touch_go.Account.Service.{
  Database, Bcrypt, ActorRow, ProfileRow, Error, actor_exists, no_database, database_failed, Drawn,
  starved, query_failed, drawn, created_profile, with_profile, with_id, with_hash, with_count,
  sign_up, login,
}

-- What a unique index on the email documents, that profiles stand in a table of their own, and that a
-- connection is kept.
pub record Laws {S : Type 0} (d : Database S) : Type 0 where
  pub first-create_actor :
      (a : ActorRow) (s : S)
      → (d.create_actor a s).0 ≡ true
      → d.first_by_email a.email (d.create_actor a s).1 ≡ some a
  pub first-create_profile :
      (p : ProfileRow) (e : Str) (s : S)
      → d.first_by_email e (d.create_profile p s).1 ≡ d.first_by_email e s
  pub connected-create_actor :
      (a : ActorRow) (s : S) → d.connected (d.create_actor a s).1 ≡ d.connected s
  pub connected-create_profile :
      (p : ProfileRow) (s : S) → d.connected (d.create_profile p s).1 ≡ d.connected s
  pub counted : (n e : Str) (s : S) → d.count_existing n e s ≡ some 0 → d.first_by_email e s ≡ none

-- What bcrypt documents: a hash matches the password that it was made of.
abbrev pub HashMatches : Bcrypt → Type 0
HashMatches b = (p h : Str) → b.generate p ≡ some h → b.matches h p ≡ true

module _ {S : Type 0} (d : Database S) (b : Bcrypt) (law : Laws d) where
  abbrev Stored : SignParams → Str → S → Type 0
  Stored p hash s =
      (d.connected s ≡ true)
      × (a : ActorRow) × (d.first_by_email p.email s ≡ some a)
      × (a.name ≡ p.name)
      × (a.email ≡ p.email)
      × (a.password_hash ≡ hash)

  created_profile-none : (r : Bool × S) (s : S) → created_profile d b r ≡ (none, s) → r.1 ≡ s
  created_profile-none (true, t) s h = ground arith
  created_profile-none (false, t) s h = ground arith

  with_profile-Stored :
      (a : ActorRow) (ids : List ℕ) (r : Bool × S) (s : S)
      → with_profile d b a ids r ≡ (none, s)
      → (r.0 ≡ true)
        × ((d.connected s ≡ d.connected r.1)
            × (d.first_by_email a.email s ≡ d.first_by_email a.email r.1))
  with_profile-Stored a ids (false, t) s h = ground arith
  with_profile-Stored a [] (true, t) s h = ground arith
  with_profile-Stored a (n ∷ ids) (true, t) s h =
      let p : ProfileRow = record {
        id = n;
        actor_id = a.id;
        email = a.email;
        peers_id = a.peers_actor_id;
      } in
      let e = created_profile-none (d.create_profile p t) s h in
      (
        refl,
        (
          rw (sym e) (law.connected-create_profile p t),
          rw (sym e) (law.first-create_profile p a.email t),
        ),
      )

  with_id-Stored :
      (p : SignParams) (hash : Str) (t : S) (r : Drawn) (s : S)
      → d.connected t ≡ true
      → with_id d b p hash t r ≡ (none, s)
      → Stored p hash s
  with_id-Stored p hash t starved s c h = ground arith
  with_id-Stored p hash t query_failed s c h = ground arith
  with_id-Stored p hash t (drawn i []) s c h = ground arith
  with_id-Stored p hash t (drawn i (n ∷ ids)) s c h =
      let a : ActorRow = record {
        id = n;
        peers_actor_id = i;
        name = p.name;
        email = p.email;
        password_hash = hash;
      } in
      let (y, (k, f)) = with_profile-Stored a ids (d.create_actor a t) s h in
      (
        k ∙ (law.connected-create_actor a t ∙ c),
        a,
        f ∙ law.first-create_actor a t y,
        refl,
        refl,
        refl,
      )

  with_hash-Stored :
      (p : SignParams) (ids : List ℕ) (t : S) (g : Option Str) (s : S)
      → d.connected t ≡ true
      → with_hash d b p ids t g ≡ (none, s)
      → (hash : Str) × (g ≡ some hash) × Stored p hash s
  with_hash-Stored p ids t none s c h = ground arith
  with_hash-Stored p ids t (some hash) s c h = (hash, refl, with_id-Stored p hash t _ s c h)

  with_count-Stored :
      (p : SignParams) (ids : List ℕ) (t : S) (n : Option ℕ) (s : S)
      → d.connected t ≡ true
      → with_count d b p ids t n ≡ (none, s)
      → (hash : Str) × (b.generate p.password ≡ some hash) × Stored p hash s
  with_count-Stored p ids t none s c h = ground arith
  with_count-Stored p ids t (some (suc n)) s c h = ground arith
  with_count-Stored p ids t (some zero) s c h =
      with_hash-Stored p ids t (b.generate p.password) s c h

  sign_up-Stored :
      (p : SignParams) (ids : List ℕ) (t s : S)
      → sign_up d b p ids t ≡ (none, s)
      → (hash : Str) × (b.generate p.password ≡ some hash) × Stored p hash s
  unfolding sign_up
  sign_up-Stored p ids t s h = elim (Bool-cases (d.connected t)) [
    | inl y ↦ with_count-Stored p ids t (d.count_existing p.name p.email t) s y (rw y at h)
    | inr n ↦
        absurd (let z : Path (Option Error × S) (some no_database, t) (none, s) = rw n at h in cc)
  ]

  -- Whoever has signed up logs in with the same email and password, and gets the actor of that name and
  -- email.
  pub login-sign_up :
      HashMatches b
      → (p : SignParams) (ids : List ℕ) (t s : S) → sign_up d b p ids t ≡ (none, s)
      → (a : ActorRow) × (login d b (record { email = p.email; password = p.password }) s ≡ ok a)
        × (a.name ≡ p.name)
        × (a.email ≡ p.email)
  unfolding login
  login-sign_up m p ids t s h =
      let (hash, g, (c, a, f, n, e, w)) = sign_up-Stored p ids t s h in
      let k = m p.password hash g in (a, rw c (rw f (rw w (rw k refl))), n, e)

  with_count-taken :
      (p : SignParams) (ids : List ℕ) (s : S) (n : Option ℕ)
      → n ≢ some 0
      → (e : Error) × (with_count d b p ids s n ≡ (some e, s))
  with_count-taken p ids s none h = (database_failed, refl)
  with_count-taken p ids s (some (suc n)) h = (actor_exists, refl)
  with_count-taken p ids s (some zero) h = absurd (h refl)

  -- With the email of an actor no sign-up succeeds, and none changes anything.
  pub sign_up-taken :
      (p : SignParams) (ids : List ℕ) (s : S) (a : ActorRow)
      → d.first_by_email p.email s ≡ some a
      → (e : Error) × (sign_up d b p ids s ≡ (some e, s))
  unfolding sign_up
  sign_up-taken p ids s a f =
      let h : d.count_existing p.name p.email s ≢ some 0 =
        λ z. let q = law.counted p.name p.email s z in cc in
      elim (Bool-cases (d.connected s)) [
        | inl y ↦ rw y (with_count-taken p ids s (d.count_existing p.name p.email s) h)
        | inr n ↦ (no_database, rw n refl)
      ]
