-- ===== src/AiBox/Handlers.antt =====
-- station/app/subserver/ai-box: handler.go, and Init, Start and Stop of aibox.go. A request that cannot be
-- bound is none.
use peers_touch_go.Prelude.{
  ℕ, Bool, true, false, [], ◌∷◌, Option, none, some, Str, codes, str_eq, if◌then◌else◌,
}
use peers_touch_go.Prelude.Result.{Result, ok, err}
use peers_touch_go.Server.{Status, stopped, starting, running}
use peers_touch_go.Tables.{Table}
use peers_touch_go.AiBox.{Provider, AiProvider, Json}
use peers_touch_go.AiBox.Service.{
  Error, CreateProviderRequest, UpdateProviderRequest, Readings, PageQuery, PageData,
  create_provider, update_provider, delete_provider, get_provider, list_providers, test_provider,
}

-- 200 with a value, 400, and 500 of the database or of an operation.
pub data Response (A : Type 0) : Type 0 where
  answered : A → Response A
  bad_request db_error : Response A
  failed_with : Error → Response A

abbrev pub respond : {A : Type 0} → Result Error A → Response A
respond (ok a) = answered a
respond (err e) = failed_with e

abbrev pub respond_with : {A S : Type 0} → Result Error A × S → Response A × S
respond_with (r, s) = (respond r, s)

abbrev pub responded : {S : Type 0} → Option Error × S → Response Bool × S
responded (none, s) = (answered true, s)
responded (some e, s) = (failed_with e, s)

module _ {S : Type 0} (connected : S → Bool) (j : Json) (t : Table S Provider) where
  abbrev pub create_bound : Option CreateProviderRequest → Readings → S → Response AiProvider × S
  create_bound none k s = (bad_request, s)
  create_bound (some q) k s = respond_with (create_provider j t q k s)

  unfoldable pub handle_new_provider :
      Option CreateProviderRequest → Readings → S → Response AiProvider × S
  unfolding create_provider
  handle_new_provider q k s = if connected s then create_bound q k s else (db_error, s)

  abbrev pub update_bound : Option UpdateProviderRequest → ℕ → S → Response AiProvider × S
  update_bound none now s = (bad_request, s)
  update_bound (some q) now s = respond_with (update_provider j t q now s)

  unfoldable pub handle_update_provider :
      Option UpdateProviderRequest → ℕ → S → Response AiProvider × S
  unfolding update_provider
  handle_update_provider q now s = if connected s then update_bound q now s else (db_error, s)

  -- An id that is not there is the empty text.
  abbrev pub delete_bound : Option Str → S → Response Bool × S
  delete_bound none s = (bad_request, s)
  delete_bound (some []) s = (bad_request, s)
  delete_bound (some (c ∷ id)) s = responded (delete_provider j t (c ∷ id) s)

  unfoldable pub handle_delete_provider : Option Str → S → Response Bool × S
  unfolding delete_provider
  handle_delete_provider id s = if connected s then delete_bound id s else (db_error, s)

  abbrev pub get_bound : Str → S → Response AiProvider
  get_bound [] s = bad_request
  get_bound (c ∷ id) s = respond (get_provider j t (c ∷ id) s)

  unfoldable pub handle_get_provider : Str → S → Response AiProvider
  unfolding get_provider
  handle_get_provider id s = if connected s then get_bound id s else db_error

  -- Where the query has no page or no size, the page is 1 and the size 10.
  abbrev pub list_bound : Option PageQuery → Str → S → Response PageData
  unfolding str_eq
  list_bound none enabled_only s = bad_request
  list_bound (some q) enabled_only s =
      respond (list_providers j t q (str_eq enabled_only (codes "true")) s)

  unfoldable pub handle_list_providers : Option PageQuery → Str → S → Response PageData
  unfolding list_providers str_eq
  handle_list_providers q enabled_only s =
      if connected s then list_bound q enabled_only s else db_error

  abbrev pub test_bound : Option Str → S → Response (Bool × Str)
  test_bound none s = bad_request
  test_bound (some []) s = bad_request
  test_bound (some (c ∷ id)) s = respond (test_provider j t (c ∷ id) s)

  unfoldable pub handle_test_provider : Option Str → S → Response (Bool × Str)
  unfolding test_provider
  handle_test_provider id s = if connected s then test_bound id s else db_error

-- Whether there is a database, and the table is made; an error of the initial SQL is only logged.
unfoldable pub init : Bool → Bool → Status → Bool × Status
init connected migrated s =
    if connected then (if migrated then (true, starting) else (false, s)) else (false, s)

abbrev pub start : Status → Bool × Status
start s = (true, running)

abbrev pub stop : Status → Bool × Status
stop s = (true, stopped)
