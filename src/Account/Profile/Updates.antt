-- ===== src/Account/Profile/Updates.antt =====
-- station/frame/touch/actor/profile.go: the columns that an update writes, and what the lookup by a column
-- that the table lacks leaves of the calls.
use peers_touch_go.Prelude.{
  ℕ, Bool, true, false, ◌||◌, List, [], ◌∷◌, any, Option, none, some, Str, codes, str_eq, ◌≡◌, refl,
  Bool-cases, inl, inr,
}
use peers_touch_go.Prelude.Result.{err}
use peers_touch_go.Prelude.Dict
use peers_touch_go.Prelude.Dict.{Dict}
use peers_touch_go.Account.ProfileChecks.{ProfileUpdate, ProfileError, validate_update}
use peers_touch_go.Account.Service.{ActorRow}
use peers_touch_go.Account.Profile.{
  Profile, Value, text, time, failed, ProfileTable, Error, updates, actor_column, update_found,
  create_profile, get_profile, update_profile, update_valid, with_user, no_database,
  database_failed, user_not_found, invalid,
}

abbrev pub is_given : Option Str → Bool
is_given none = false
is_given (some s) = true

abbrev pub any_given : ProfileUpdate → Bool
any_given u =
    is_given u.profile_photo
    || (is_given u.gender || (is_given u.region || (is_given u.email || is_given u.whats_up)))

abbrev pub given_or : Option Str → Str → Str
given_or none old = old
given_or (some s) old = s

-- The fields that are given take the place of the old ones.
abbrev pub applied : ProfileUpdate → Profile → Profile
applied u p = record p {
  profile_photo = given_or u.profile_photo p.profile_photo;
  gender = given_or u.gender p.gender;
  region = given_or u.region p.region;
  email = given_or u.email p.email;
  whats_up = given_or u.whats_up p.whats_up;
}

abbrev pub text_or : Option Value → Str → Str
text_or none old = old
text_or (some (time t)) old = old
text_or (some (text s)) old = s

-- The row after `Updates` of a map: a field has the value of its column, where the map has the column.
abbrev pub written : Dict Value → Profile → Profile
written m p = record p {
  profile_photo = text_or (Dict.get (codes "profile_photo") m) p.profile_photo;
  gender = text_or (Dict.get (codes "gender") m) p.gender;
  region = text_or (Dict.get (codes "region") m) p.region;
  email = text_or (Dict.get (codes "email") m) p.email;
  peers_id = text_or (Dict.get (codes "peers_id") m) p.peers_id;
  whats_up = text_or (Dict.get (codes "whats_up") m) p.whats_up;
}

abbrev or_column : Option Str → Option Value → Option Value
or_column none v = v
or_column (some s) v = some (text s)

abbrev pub written_columns : ℕ → ProfileUpdate → Dict Value
written_columns now u = Dict.put (codes "updated_at") (time now) (updates u)

abbrev pub Lacks : List Str → Dict Value → Type 0
Lacks [] m = Unit
Lacks (c ∷ l) m = (Dict.get c m ≡ none) × Lacks l m

abbrev is_filled : Dict Value → Bool
is_filled [] = false
is_filled (c ∷ m) = true

-- The columns of a profile, as gorm names the fields of the struct.
abbrev pub profile_columns : List Str
profile_columns =
    codes "id"
    ∷ codes "actor_id"
    ∷ codes "profile_photo"
    ∷ codes "gender"
    ∷ codes "region"
    ∷ codes "email"
    ∷ codes "peers_id"
    ∷ codes "whats_up"
    ∷ codes "created_at"
    ∷ codes "updated_at"
    ∷ []

module _ {S : Type 0} (d : ProfileTable S) where
  -- A query by a column that the table lacks is an error.
  abbrev pub RefusesColumns : Type 0
  RefusesColumns =
      (column : Str) (i : ℕ) (s : S)
      → any (str_eq column) profile_columns ≡ false
      → d.by_column column i s ≡ failed

  by_actor-failed : RefusesColumns → (i : ℕ) (s : S) → d.by_column actor_column i s ≡ failed
  unfolding any str_eq
  by_actor-failed h i s = h actor_column i s refl

  get_found-error :
      (i : ℕ) (s : S) (o : Option ActorRow)
      → d.by_column actor_column i s ≡ failed
      → (e : Error) × (with_user d i s o ≡ err e)
  get_found-error i s none f = (user_not_found, refl)
  get_found-error i s (some a) f = (database_failed, rw f refl)

  update_valid-error :
      (now i : ℕ) (u : ProfileUpdate) (s : S) (o : Option ProfileError)
      → d.by_column actor_column i s ≡ failed
      → (e : Error) × (update_valid d now i u s o ≡ (some e, s))
  unfolding update_found
  update_valid-error now i u s (some e) f = (invalid e, refl)
  update_valid-error now i u s none f = elim (Bool-cases (d.connected s)) [
    | inl y ↦ (database_failed, rw y (rw f refl))
    | inr n ↦ (no_database, rw n refl)
  ]

  -- Where a query by a column that the table of profiles lacks is an error, CreateProfile, GetProfile and
  -- UpdateProfile end in an error whatever they are called with, and the database is as it was.
  pub calls_by_actor-fail :
      (now i : ℕ) (name email : Str) (ids : List ℕ) (u : ProfileUpdate) (s : S)
      → RefusesColumns
      → ((e : Error) × (create_profile d i name email ids s ≡ (err e, s)))
        × ((e : Error) × (get_profile d i s ≡ err e))
        × ((e : Error) × (update_profile d now i u s ≡ (some e, s)))
  unfolding create_profile get_profile update_profile
  calls_by_actor-fail now i name email ids u s h =
      let f = by_actor-failed h i s in
      (
        elim (Bool-cases (d.connected s)) [
          | inl y ↦ (database_failed, rw y (rw f refl))
          | inr n ↦ (no_database, rw n refl)
        ],
        elim (Bool-cases (d.connected s)) [
          | inl y ↦ rw y (get_found-error i s (d.actor_by_id i s) f)
          | inr n ↦ (no_database, rw n refl)
        ],
        update_valid-error now i u s (validate_update u) f,
      )
