-- ===== src/Account/Service.antt =====
-- station/frame/touch/actor: SignUp and Login of actor.go, and the ids of actor.go and profile.go. The
-- database and bcrypt are parameters; the snowflake ids are a list, taken one after the other. The times of
-- rows are left out.
pub mod Ids
pub mod Login
use peers_touch_go.Prelude.{
  ℕ, zero, suc, ◌+◌, ◌%◌, Bool, true, false, ◌&&◌, ◌||◌, List, [], ◌∷◌, ◌++◌, Option, none, some,
  Str, codes, ltb, leb, ◌==◌, if◌then◌else◌, length, take, keep, ◌≡◌,
}
use peers_touch_go.Prelude.Result.{Result, ok, err}
use peers_touch_go.Prelude.Text.{is_digit, decimal}
use peers_touch_go.Account.{SignParams, LoginParams}
use peers_touch_go.Account.Validation.{is_letter}

abbrev pub is_alphanumeric : ℕ → Bool
is_alphanumeric c = is_letter c || is_digit c

abbrev pub or_default : Str → Str → Str
or_default default [] = default
or_default default (c ∷ s) = c ∷ s

-- With the prefix that stands for an empty one.
unfoldable pub generate_id : Str → Str → ℕ → Str
unfolding keep decimal
generate_id default name snowflake =
    let prefix = if leb 3 (length name) then take 3 name else name in
    or_default default (keep is_alphanumeric prefix) ++ b'_' ∷ decimal (snowflake % 1000000)

abbrev pub generate_peers_actor_id : Str → ℕ → Str
generate_peers_actor_id name n = generate_id (codes "act") name n

abbrev pub generate_peers_id : Str → ℕ → Str
generate_peers_id name n = generate_id (codes "usr") name n

-- `starved`: more snowflake ids are wanted than there are.
pub data Drawn : Type 0 where
  starved query_failed : Drawn
  drawn : Str → List ℕ → Drawn

abbrev pub judge : Option ℕ → Str → List ℕ → Drawn → Drawn
judge none id ids rest = query_failed
judge (some zero) id ids rest = drawn id ids
judge (some (suc n)) id ids rest = rest

-- The loop that ensures an id is unique: `count` rows have it, or the query fails.
unfoldable pub unique_id : (Str → Option ℕ) → (ℕ → Str) → List ℕ → Drawn
unique_id count make [] = starved
unique_id count make (n ∷ ids) = judge (count (make n)) (make n) ids (unique_id count make ids)

pub record ActorRow : Type 0 where
  pub id : ℕ
  pub peers_actor_id : Str
  pub name : Str
  pub email : Str
  pub password_hash : Str

-- The photo, the region and the message are empty, the gender is "other".
pub record ProfileRow : Type 0 where
  pub id : ℕ
  pub actor_id : ℕ
  pub email : Str
  pub peers_id : Str

-- `connected`: `GetRDS` gives the database. A query counts rows or fails, `first_by_email` finds a row or
-- does not, and a creation succeeds or fails.
pub record Database (S : Type 0) : Type 0 where
  pub connected : S → Bool
  pub count_existing : Str → Str → S → Option ℕ
  pub count_peers_id : Str → S → Option ℕ
  pub first_by_email : Str → S → Option ActorRow
  pub create_actor : ActorRow → S → Bool × S
  pub create_profile : ProfileRow → S → Bool × S

pub record Bcrypt : Type 0 where
  pub generate : Str → Option Str
  pub matches : Str → Str → Bool

pub data Error : Type 0 where
  no_database database_failed actor_exists hash_failed actor_not_found invalid_credentials : Error
  still_drawing : Error

module _ {S : Type 0} (d : Database S) (b : Bcrypt) where
  abbrev pub created_profile : Bool × S → Option Error × S
  created_profile (true, s) = (none, s)
  created_profile (false, s) = (some database_failed, s)

  abbrev pub with_profile : ActorRow → List ℕ → Bool × S → Option Error × S
  with_profile a ids (false, s) = (some database_failed, s)
  with_profile a [] (true, s) = (some still_drawing, s)
  with_profile a (n ∷ ids) (true, s) = created_profile (
      d.create_profile
        (record { id = n; actor_id = a.id; email = a.email; peers_id = a.peers_actor_id }) s)

  abbrev pub with_id : SignParams → Str → S → Drawn → Option Error × S
  with_id p hash s starved = (some still_drawing, s)
  with_id p hash s query_failed = (some database_failed, s)
  with_id p hash s (drawn i []) = (some still_drawing, s)
  with_id p hash s (drawn i (n ∷ ids)) =
      let a : ActorRow = record {
        id = n;
        peers_actor_id = i;
        name = p.name;
        email = p.email;
        password_hash = hash;
      } in
      with_profile a ids (d.create_actor a s)

  abbrev pub with_hash : SignParams → List ℕ → S → Option Str → Option Error × S
  with_hash p ids s none = (some hash_failed, s)
  with_hash p ids s (some hash) =
      with_id p hash s (unique_id (λ i. d.count_peers_id i s) (generate_peers_actor_id p.name) ids)

  abbrev pub with_count : SignParams → List ℕ → S → Option ℕ → Option Error × S
  with_count p ids s none = (some database_failed, s)
  with_count p ids s (some (suc n)) = (some actor_exists, s)
  with_count p ids s (some zero) = with_hash p ids s (b.generate p.password)

  unfoldable pub sign_up : SignParams → List ℕ → S → Option Error × S
  unfolding unique_id generate_id
  sign_up p ids s =
      if d.connected s
      then with_count p ids s (d.count_existing p.name p.email s)
      else (some no_database, s)

  abbrev pub with_row : LoginParams → Option ActorRow → Result Error ActorRow
  with_row p none = err actor_not_found
  with_row p (some a) =
      if b.matches a.password_hash p.password then ok a else err invalid_credentials

  unfoldable pub login : LoginParams → S → Result Error ActorRow
  login p s = if d.connected s then with_row p (d.first_by_email p.email s) else err no_database
