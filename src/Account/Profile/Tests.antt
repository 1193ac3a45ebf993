-- ===== src/Account/Profile/Tests.antt =====
-- A database of one profile, of the actor 8.
use peers_touch_go.Prelude.{
  ℕ, ◌==◌, true, [], ◌∷◌, none, some, codes, str_eq, any, if◌then◌else◌, ◌≡◌, refl,
}
use peers_touch_go.Prelude.Result.{err}
use peers_touch_go.Prelude.Dict
use peers_touch_go.Prelude.Dict.{Dict}
use peers_touch_go.Account.ProfileChecks.{ProfileUpdate}
use peers_touch_go.Account.Service.{ActorRow}
use peers_touch_go.Account.Profile.{
  Profile, Lookup, found, absent, failed, ProfileTable, Error, create_profile, get_profile,
  update_found, update_profile,
}
use peers_touch_go.Account.Profile.Updates.{
  written, profile_columns, RefusesColumns, calls_by_actor-fail,
}

abbrev hanna : ActorRow
hanna = record {
  id = 8;
  peers_actor_id = codes "han_7";
  name = codes "hanna";
  email = codes "h@ex.org";
  password_hash = [];
}

abbrev old_profile : Profile
old_profile = record {
  id = 9;
  actor_id = 8;
  profile_photo = [];
  gender = codes "other";
  region = codes "Bern";
  email = codes "h@ex.org";
  peers_id = codes "han_7";
  whats_up = [];
}

abbrev change : ProfileUpdate
change = record {
  profile_photo = none;
  gender = some (codes "female");
  region = none;
  email = some [];
  whats_up = some (codes "hi");
}

abbrev of_actor : ℕ → Profile → Lookup
of_actor i p = if p.actor_id == i then found p else absent

abbrev one_profile : ProfileTable Profile
unfolding any str_eq Dict.get
one_profile = record {
  connected = λ s. true;
  actor_by_id = λ i s. some hanna;
  by_column = λ c i s. if any (str_eq c) profile_columns then of_actor i s else failed;
  by_peers_id = λ i s. found s;
  count_peers_id = λ i s. some 0;
  create = λ p s. (true, p);
  update = λ p m s. (true, written m p);
}

one_profile-RefusesColumns : RefusesColumns one_profile
unfolding one_profile
one_profile-RefusesColumns c i s h = rw h refl

calls_by_actor-fail_example :
    ((e : Error) × (create_profile one_profile 8 (codes "hanna") [] (7 ∷ []) old_profile
        ≡ (err e, old_profile)))
    × ((e : Error) × (get_profile one_profile 8 old_profile ≡ err e))
    × ((e : Error) × (update_profile one_profile 5 8 change old_profile ≡ (some e, old_profile)))
calls_by_actor-fail_example =
    calls_by_actor-fail one_profile 5 8 (codes "hanna") [] (7 ∷ []) change old_profile
      one_profile-RefusesColumns

changed :
    update_found one_profile 5 change old_profile (found old_profile)
    ≡ (none, record old_profile { gender = codes "female"; email = []; whats_up = codes "hi" })
unfolding update_found Dict.put Dict.get str_eq Dict.remove one_profile
changed = refl
