-- ===== src/Account/Profile.antt =====
-- station/frame/touch/actor/profile.go: the profiles of actors, over a database as a parameter. The times of
-- rows are left out; snowflake ids are a list, taken one after the other. A map of columns to values is an
-- association list.
pub mod Updates
mod Tests
use peers_touch_go.Prelude.{
  ℕ, zero, suc, Bool, true, false, ◌||◌, List, [], ◌∷◌, Option, none, some, Str, codes,
  if◌then◌else◌, ◌≡◌,
}
use peers_touch_go.Prelude.Result.{Result, ok, err}
use peers_touch_go.Prelude.Dict
use peers_touch_go.Prelude.Dict.{Dict}
use peers_touch_go.Account.ProfileChecks.{ProfileUpdate, ProfileError, validate_update}
use peers_touch_go.Account.Service.{
  ActorRow, Drawn, starved, query_failed, drawn, unique_id, generate_peers_id,
}

pub record Profile : Type 0 where
  pub id : ℕ
  pub actor_id : ℕ
  pub profile_photo : Str
  pub gender : Str
  pub region : Str
  pub email : Str
  pub peers_id : Str
  pub whats_up : Str

pub record ProfileGetResponse : Type 0 where
  pub profile_photo : Str
  pub name : Str
  pub gender : Str
  pub region : Str
  pub email : Str
  pub peers_id : Str
  pub whats_up : Str

pub data Lookup : Type 0 where
  found : Profile → Lookup
  absent failed : Lookup

-- A value of a column.
pub data Value : Type 0 where
  text : Str → Value
  time : ℕ → Value

-- gorm on the tables of actors and profiles: the first actor with an id, the first profile where a column of
-- a name has a number and the one with a peers id, the count of a peers id, the creation of a row, and
-- `Updates` of a row by a map of columns.
pub record ProfileTable (S : Type 0) : Type 0 where
  pub connected : S → Bool
  pub actor_by_id : ℕ → S → Option ActorRow
  pub by_column : Str → ℕ → S → Lookup
  pub by_peers_id : Str → S → Lookup
  pub count_peers_id : Str → S → Option ℕ
  pub create : Profile → S → Bool × S
  pub update : Profile → Dict Value → S → Bool × S

pub data Error : Type 0 where
  no_database database_failed profile_not_found user_not_found still_drawing : Error
  invalid : ProfileError → Error

-- `if v != nil { updates[column] = *v }`
abbrev pub put_given : Str → Option Str → Dict Value → Dict Value
put_given column none m = m
put_given column (some v) m = Dict.put column (text v) m

-- The map that UpdateProfile makes of the parameters.
abbrev pub updates : ProfileUpdate → Dict Value
updates u = put_given (codes "whats_up") u.whats_up (
    put_given (codes "email") u.email (
      put_given (codes "region") u.region (
        put_given (codes "gender") u.gender
          (put_given (codes "profile_photo") u.profile_photo []))))

-- The column by which the profile of an actor is looked up.
abbrev pub actor_column : Str
actor_column = codes "user_id"

abbrev pub response : ActorRow → Profile → ProfileGetResponse
response a p = record {
  profile_photo = p.profile_photo;
  name = a.name;
  gender = p.gender;
  region = p.region;
  email = p.email;
  peers_id = p.peers_id;
  whats_up = p.whats_up;
}

module _ {S : Type 0} (d : ProfileTable S) where
  abbrev pub created : Profile → Bool × S → Result Error Profile × S
  created p (true, s) = (ok p, s)
  created p (false, s) = (err database_failed, s)

  abbrev pub with_id : ℕ → Str → S → Drawn → Result Error Profile × S
  with_id actor_id email s starved = (err still_drawing, s)
  with_id actor_id email s query_failed = (err database_failed, s)
  with_id actor_id email s (drawn i []) = (err still_drawing, s)
  with_id actor_id email s (drawn i (n ∷ ids)) =
      let p : Profile = record {
        id = n;
        actor_id = actor_id;
        profile_photo = [];
        gender = codes "other";
        region = [];
        email = email;
        peers_id = i;
        whats_up = [];
      } in
      created p (d.create p s)

  abbrev pub with_existing : ℕ → Str → Str → List ℕ → S → Lookup → Result Error Profile × S
  with_existing actor_id name email ids s (found p) = (ok p, s)
  with_existing actor_id name email ids s failed = (err database_failed, s)
  with_existing actor_id name email ids s absent =
      with_id actor_id email s (unique_id (λ i. d.count_peers_id i s) (generate_peers_id name) ids)

  unfoldable pub create_profile : ℕ → Str → Str → List ℕ → S → Result Error Profile × S
  unfolding unique_id
  create_profile actor_id name email ids s =
      if d.connected s
      then with_existing actor_id name email ids s (d.by_column actor_column actor_id s)
      else (err no_database, s)

  abbrev pub with_profile : ActorRow → Lookup → Result Error ProfileGetResponse
  with_profile a (found p) = ok (response a p)
  with_profile a absent = err profile_not_found
  with_profile a failed = err database_failed

  abbrev pub with_user : ℕ → S → Option ActorRow → Result Error ProfileGetResponse
  with_user actor_id s none = err user_not_found
  with_user actor_id s (some a) = with_profile a (d.by_column actor_column actor_id s)

  unfoldable pub get_profile : ℕ → S → Result Error ProfileGetResponse
  get_profile actor_id s =
      if d.connected s then with_user actor_id s (d.actor_by_id actor_id s) else err no_database

  abbrev pub with_owner : Profile → Option ActorRow → Result Error ProfileGetResponse
  with_owner p none = err user_not_found
  with_owner p (some a) = ok (response a p)

  abbrev pub with_found : S → Lookup → Result Error ProfileGetResponse
  with_found s absent = err profile_not_found
  with_found s failed = err database_failed
  with_found s (found p) = with_owner p (d.actor_by_id p.actor_id s)

  unfoldable pub get_profile_by_peers_id : Str → S → Result Error ProfileGetResponse
  get_profile_by_peers_id i s =
      if d.connected s then with_found s (d.by_peers_id i s) else err no_database

  abbrev pub updated : Bool × S → Option Error × S
  updated (true, s) = (none, s)
  updated (false, s) = (some database_failed, s)

  -- An empty map makes no query.
  abbrev pub write_columns : ℕ → Profile → S → Dict Value → Option Error × S
  write_columns now p s [] = (none, s)
  write_columns now p s (c ∷ m) =
      updated (d.update p (Dict.put (codes "updated_at") (time now) (c ∷ m)) s)

  unfoldable pub update_found : ℕ → ProfileUpdate → S → Lookup → Option Error × S
  unfolding Dict.put
  update_found now u s absent = (some profile_not_found, s)
  update_found now u s failed = (some database_failed, s)
  update_found now u s (found p) = write_columns now p s (updates u)

  abbrev pub update_valid : ℕ → ℕ → ProfileUpdate → S → Option ProfileError → Option Error × S
  update_valid now actor_id u s (some e) = (some (invalid e), s)
  update_valid now actor_id u s none =
      if d.connected s
      then update_found now u s (d.by_column actor_column actor_id s)
      else (some no_database, s)

  unfoldable pub update_profile : ℕ → ℕ → ProfileUpdate → S → Option Error × S
  unfolding validate_update update_found
  update_profile now actor_id u s = update_valid now actor_id u s (validate_update u)
