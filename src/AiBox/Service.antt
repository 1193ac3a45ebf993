-- ===== src/AiBox/Service.antt =====
-- station/app/subserver/ai-box/service/provider_service.go: the operations, over the table of providers.
-- The readings of the clock are arguments.
use peers_touch_go.Prelude.{
  ℕ, zero, suc, ◌+◌, ◌-◌, ◌*◌, ◌%◌, Bool, true, false, ◌&&◌, List, [], ◌∷◌, ◌++◌, map, Option, none,
  some, Str, codes, str_eq, if◌then◌else◌,
}
use peers_touch_go.Prelude.Int.{ℤ}
use peers_touch_go.Prelude.Result.{Result, ok, err, ◌>>=◌}
use peers_touch_go.Prelude.Text.{decimal}
use peers_touch_go.Tables.{Table, First, found, not_found, failed}
use peers_touch_go.AiBox.{
  Provider, ProviderConfig, AiProvider, Json, int32_mod, to_int, convert_to_proto,
}

pub data Error : Type 0 where
  no_user provider_not_found find_failed marshal_failed create_failed update_failed delete_failed :
      Error
  count_failed list_failed : Error

-- The user of every request.
abbrev pub get_user_id : Str
get_user_id = codes "default_user"

abbrev pub with_user : {A : Type 0} → Str → A → (Str → A) → A
with_user [] e f = e
with_user (c ∷ u) e f = f (c ∷ u)

unfoldable pub generate_provider_id : ℕ → Str
unfolding decimal
generate_provider_id nanos = codes "provider_" ++ decimal nanos

pub record CreateProviderRequest : Type 0 where
  pub name : Str
  pub description : Str
  pub logo : Str

pub record UpdateProviderRequest : Type 0 where
  pub id : Str
  pub display_name : Option Str
  pub description : Option Str
  pub logo : Option Str
  pub enabled : Option Bool
  pub config : Option ProviderConfig

-- The times that one creation reads, in this order.
pub record Readings : Type 0 where
  pub nanos : ℕ
  pub accessed_now : ℕ
  pub created_now : ℕ
  pub updated_now : ℕ

pub record PageQuery : Type 0 where
  pub page : ℕ
  pub size : ℕ

pub record PageData : Type 0 where
  pub total : ℤ
  pub list : List AiProvider

abbrev pub of_user : Str → Provider → Bool
of_user user p = str_eq p.peers_user_id user

abbrev pub is_provider : Str → Str → Provider → Bool
is_provider id user p = str_eq p.id id && str_eq p.peers_user_id user

abbrev pub or_old : {A : Type 0} → A → Option A → A
or_old old none = old
or_old old (some new) = new

unfoldable pub new_provider : Str → CreateProviderRequest → Readings → Provider
unfolding generate_provider_id
new_provider user q k = record {
  id = generate_provider_id k.nanos;
  name = q.name;
  peers_user_id = user;
  sort = 0;
  enabled = true;
  check_model = [];
  logo = q.logo;
  description = q.description;
  key_vaults = [];
  source_type = [];
  settings = codes "{}";
  config = codes "{}";
  accessed_at = k.accessed_now;
  created_at = k.created_now;
  updated_at = k.updated_now;
}

abbrev pub is_shown : Str → Bool → Provider → Bool
is_shown user enabled_only p = if enabled_only then of_user user p && p.enabled else of_user user p

-- `(query.Page - 1) * query.Size`, in 32 bits.
abbrev pub offset_of : PageQuery → ℕ
offset_of q = (((q.page + int32_mod - 1) % int32_mod) * q.size) % int32_mod

module _ {S : Type 0} (j : Json) (t : Table S Provider) where
  abbrev pub with_created : Provider → Bool × S → Result Error AiProvider × S
  with_created p (true, s) = (ok (convert_to_proto j p), s)
  with_created p (false, s) = (err create_failed, s)

  unfoldable pub create_provider :
      CreateProviderRequest → Readings → S → Result Error AiProvider × S
  unfolding new_provider convert_to_proto
  create_provider q k s =
      with_user get_user_id (err no_user, s)
        (λ u. with_created (new_provider u q k) (t.create (new_provider u q k) s))

  abbrev pub found_provider : First Provider → Result Error Provider
  found_provider (found p) = ok p
  found_provider not_found = err provider_not_found
  found_provider failed = err find_failed

  abbrev pub answered : First Provider → Result Error AiProvider
  answered f = found_provider f >>= λ p. ok (convert_to_proto j p)

  -- The config that is stored: the one of the request as JSON, where there is one.
  abbrev pub marshalled : Option Str → Result Error Str
  marshalled none = err marshal_failed
  marshalled (some text) = ok text

  abbrev pub new_config : Str → Option ProviderConfig → Result Error Str
  new_config old none = ok old
  new_config old (some c) = marshalled (j.marshal c)

  abbrev pub updated : UpdateProviderRequest → Provider → ℕ → Str → Provider
  updated q p now text = record p {
    name = or_old p.name q.display_name;
    description = or_old p.description q.description;
    logo = or_old p.logo q.logo;
    enabled = or_old p.enabled q.enabled;
    config = text;
    updated_at = now;
  }

  abbrev pub with_saved : Provider → Bool × S → Result Error AiProvider × S
  with_saved p (true, s) = (ok (convert_to_proto j p), s)
  with_saved p (false, s) = (err update_failed, s)

  abbrev pub with_config :
      UpdateProviderRequest → Provider → ℕ → S → Result Error Str → Result Error AiProvider × S
  with_config q p now s (err e) = (err e, s)
  with_config q p now s (ok text) =
      with_saved (updated q p now text) (t.save (updated q p now text) s)

  abbrev pub with_found :
      UpdateProviderRequest → ℕ → S → Result Error Provider → Result Error AiProvider × S
  with_found q now s (err e) = (err e, s)
  with_found q now s (ok p) = with_config q p now s (new_config p.config q.config)

  unfoldable pub update_provider : UpdateProviderRequest → ℕ → S → Result Error AiProvider × S
  unfolding convert_to_proto str_eq
  update_provider q now s =
      with_user get_user_id (err no_user, s)
        (λ u. with_found q now s (found_provider (t.first (is_provider q.id u) s)))

  abbrev pub with_deleted : Option ℕ × S → Option Error × S
  with_deleted (none, s) = (some delete_failed, s)
  with_deleted (some zero, s) = (some provider_not_found, s)
  with_deleted (some (suc n), s) = (none, s)

  unfoldable pub delete_provider : Str → S → Option Error × S
  unfolding str_eq
  delete_provider id s =
      with_user get_user_id (some no_user, s) (λ u. with_deleted (t.delete (is_provider id u) s))

  unfoldable pub get_provider : Str → S → Result Error AiProvider
  unfolding convert_to_proto str_eq
  get_provider id s =
      with_user get_user_id (err no_user) (λ u. answered (t.first (is_provider id u) s))

  abbrev pub with_page : ℕ → Option (List Provider) → Result Error PageData
  with_page total none = err list_failed
  with_page total (some l) =
      ok (record { total = to_int (total % int32_mod); list = map (convert_to_proto j) l })

  abbrev pub with_count : PageQuery → (Provider → Bool) → S → Option ℕ → Result Error PageData
  with_count q p s none = err count_failed
  with_count q p s (some n) = with_page n (t.find_page p (to_int q.size) (to_int (offset_of q)) s)

  unfoldable pub list_providers : PageQuery → Bool → S → Result Error PageData
  unfolding convert_to_proto str_eq
  list_providers q enabled_only s =
      with_user get_user_id (err no_user)
        (λ u. with_count q (is_shown u enabled_only) s (t.count (is_shown u enabled_only) s))

  -- No connection is tested: each of three names is answered with success.
  abbrev pub tested : AiProvider → Bool × Str
  unfolding str_eq
  tested p =
      if str_eq p.name (codes "openai")
      then (true, codes "OpenAI connection test not implemented")
      else if str_eq p.name (codes "anthropic")
      then (true, codes "Anthropic connection test not implemented")
      else if str_eq p.name (codes "ollama")
      then (true, codes "Ollama connection test not implemented")
      else (false, codes "Provider type not implemented for testing")

  unfoldable pub test_provider : Str → S → Result Error (Bool × Str)
  unfolding get_provider
  test_provider id s = get_provider id s >>= λ p. ok (tested p)
