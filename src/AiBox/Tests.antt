-- ===== src/AiBox/Tests.antt =====
-- Providers in a list, and JSON that holds the key only.
use peers_touch_go.Prelude.{
  suc, ◌+◌, ◌-◌, min, true, false, List, [], ◌∷◌, map, none, some, Str, codes, str_eq, keep, length,
  take, drop, ◌≡◌, arith, refl,
}
use peers_touch_go.Prelude.Int.{pos}
use peers_touch_go.Prelude.Result.{ok}
use peers_touch_go.Prelude.Text.{decimal, decimal_from}
use peers_touch_go.Tables.{Table, found, not_found, first_of, SameRows}
use peers_touch_go.Tables.Lists.{list_table, list_table-Laws}
use peers_touch_go.AiBox.{Provider, AiProvider, Json, default_config, convert_to_proto, read_config}
use peers_touch_go.AiBox.Service.{
  CreateProviderRequest, UpdateProviderRequest, Readings, PageData, get_user_id,
  generate_provider_id, new_provider, create_provider, update_provider, delete_provider,
  get_provider, list_providers, updated,
}
use peers_touch_go.AiBox.Kept.{same_provider, mine, get-create}
use peers_touch_go.AiBox.Pages.{is_own, Updated, update_provider-Updated, list_providers_lem}
use peers_touch_go.AiBox.Handlers.{bad_request, handle_delete_provider}

abbrev plain : Json
plain = record {
  marshal = λ c. some c.api_key;
  unmarshal = λ s. some (record default_config { api_key = s });
}

abbrev providers : Table (List Provider) Provider
providers = list_table same_provider

abbrev request : CreateProviderRequest
request = record { name = codes "ollama"; description = []; logo = [] }

abbrev readings : Readings
readings = record { nanos = 7; accessed_now = 8; created_now = 9; updated_now = 10 }

abbrev other : Provider
unfolding new_provider generate_provider_id decimal decimal_from
other = new_provider (codes "u") request readings

abbrev created : Provider
unfolding new_provider generate_provider_id decimal decimal_from
created = new_provider get_user_id request readings

abbrev answer : Provider → AiProvider
unfolding convert_to_proto read_config str_eq
answer p = convert_to_proto plain p

abbrev id : Str
id = codes "provider_7"

no_row : first_of (mine (generate_provider_id 7)) (other ∷ []) ≡ not_found
unfolding str_eq other generate_provider_id decimal decimal_from new_provider
no_row = refl

creates :
    create_provider plain providers request readings (other ∷ [])
    ≡ (ok (answer created), created ∷ other ∷ [])
unfolding create_provider answer created other new_provider generate_provider_id decimal
    decimal_from keep convert_to_proto read_config str_eq
creates = refl

gets :
    get_provider plain providers (generate_provider_id 7) (created ∷ other ∷ [])
    ≡ ok (answer created)
unfolding get_provider answer created other new_provider generate_provider_id decimal decimal_from
    keep convert_to_proto read_config str_eq
gets = refl

get-create_example : answer created ≡ answer created
unfolding keep
get-create_example =
    get-create plain providers (list_table-Laws same_provider) request readings (other ∷ [])
      (created ∷ other ∷ []) (answer created) (answer created) no_row creates gets

deletes : delete_provider plain providers id (created ∷ other ∷ []) ≡ (none, other ∷ [])
unfolding delete_provider created other new_provider generate_provider_id decimal decimal_from keep
    str_eq
deletes = refl

abbrev change : UpdateProviderRequest
change = record {
  id = id;
  display_name = some (codes "openai");
  description = none;
  logo = none;
  enabled = some false;
  config =
      some (record default_config {
        api_key = codes "k";
        custom_config = (codes "a", codes "b") ∷ [];
      });
}

abbrev changed : Provider
unfolding keep created new_provider generate_provider_id decimal decimal_from
changed = updated plain providers change created 20 (codes "k")

found_created : first_of (mine id) (created ∷ other ∷ []) ≡ found created
unfolding str_eq created other new_provider generate_provider_id decimal decimal_from
found_created = refl

updates :
    update_provider plain providers change 20 (created ∷ other ∷ [])
    ≡ (ok (answer changed), changed ∷ other ∷ [])
unfolding update_provider answer changed created other new_provider generate_provider_id decimal
    decimal_from keep convert_to_proto read_config str_eq
updates = refl

update_provider-Updated_example :
    Updated plain providers
      (list_table-Laws same_provider)
      change
      20
      (created ∷ other ∷ [])
      (changed ∷ other ∷ [])
      created
      (answer changed)
unfolding keep
update_provider-Updated_example =
    update_provider-Updated plain providers (list_table-Laws same_provider) change 20
      (created ∷ other ∷ []) (changed ∷ other ∷ []) created (answer changed) found_created updates

abbrev page : PageData
unfolding keep created
page = record { total = pos 1; list = answer created ∷ [] }

listed :
    list_providers plain providers
      (record { page = 0 + 1; size = suc 9 })
      false
      (created ∷ other ∷ [])
    ≡ ok page
unfolding list_providers page answer created other new_provider generate_provider_id decimal
    decimal_from keep convert_to_proto read_config str_eq
listed = refl

one_shown : length (keep (is_own false) (created ∷ other ∷ [])) ≡ 1
unfolding created other new_provider generate_provider_id decimal decimal_from keep str_eq
one_shown = refl

list_providers_lem_test :
    (page.total ≡ pos (length (keep (is_own false) (created ∷ other ∷ []))))
    × ((xs : List Provider) × SameRows xs (keep (is_own false) (created ∷ other ∷ []))
        × (page.list ≡ map (convert_to_proto plain) (take 10 (drop 0 xs))))
    × (length page.list ≡ min 10 (length (keep (is_own false) (created ∷ other ∷ [])) - 0))
unfolding keep
list_providers_lem_test =
    list_providers_lem plain providers (list_table-Laws same_provider) 0 9 false
      (created ∷ other ∷ []) page (omega arith) (omega (arith, one_shown)) listed

no_id : handle_delete_provider (λ s. true) plain providers (some []) [] ≡ (bad_request, [])
unfolding handle_delete_provider keep
no_id = refl
