-- ===== src/Mdns/Tests.antt =====
-- A service named "garden-42" with a node of two addresses, and what others answer to it.
use peers_touch_go.Prelude.{
  ℕ, Bool, true, false, [], ◌∷◌, none, some, ◌≡◌, refl, codes, str_eq, keep,
}
use peers_touch_go.Prelude.Dict
use peers_touch_go.Prelude.Int.{pos}
use peers_touch_go.Prelude.Result.{ok}
use peers_touch_go.Prelude.Text.{cut}
use peers_touch_go.NetworkId.Tests.{padding, version_12}
use peers_touch_go.Mdns.{
  Options, MdnsService, Zone, with_namespace, new_mdns_service, apply_options,
  default_service_config, with_defaults, short_name, generate_dynamic_domain,
}
use peers_touch_go.Mdns.Records.{
  Node, ServiceEntry, crashed, field, parse_txt_records, build_txt_records, entry_to_peer,
  standard_key, parse_from,
}
use peers_touch_go.Mdns.Service.{
  zone_of, set_txt, start, stop, advertise_node, got, finished, perform_discovery, own_name,
}
use peers_touch_go.Mdns.Service.Lifecycle.{
  made, started, stopped, advertised, IsConsistent, Reaches-IsConsistent, advertise_node-running,
}
use peers_touch_go.Mdns.Service.Delivery.{AllForeign, perform_discovery-AllForeign}

abbrev garden_node : Node
garden_node = record {
  id = codes "node7";
  kind = codes "station";
  network_id = some version_12;
  name = codes "shed=1";
  addresses = codes "/ip4/10.0.0.2/tcp/4001" ∷ codes "/ip4/10.0.0.3/tcp/4001" ∷ [];
  port = pos 4001;
}

abbrev garden_options : Options
garden_options = record default_service_config {
  namespace = codes "garden-42";
  domain = codes "garden.local.";
  port = pos 5353;
}

abbrev idle : MdnsService
idle = record {
  options = garden_options;
  cancelled = false;
  watched = true;
  running = false;
  ticking = false;
  announced = none;
}

abbrev busy : MdnsService
busy = record idle { running = true; ticking = true; announced = some (zone_of garden_options) }

abbrev fresh : MdnsService
fresh = record idle { watched = false }

abbrev all_zones : Zone → Bool
all_zones z = true

new_garden : new_mdns_service (with_namespace (codes "garden-42") ∷ []) ≡ ok fresh
unfolding new_mdns_service apply_options with_defaults generate_dynamic_domain short_name str_eq
    keep
new_garden = refl

-- An entry whose network id is shorter than twenty bytes, and the service's own.
abbrev short_id : ServiceEntry
short_id = record {
  name = codes "other";
  addr_v4 = none;
  addr_v6 = none;
  port = 4001;
  info_fields = codes "nd_id=n" ∷ codes "nt_id=PT1a" ∷ [];
}

abbrev named_node : ServiceEntry
named_node = record short_id { info_fields = codes "nd_id=n" ∷ codes "nd_tp=station" ∷ [] }

abbrev same_capacity : ℕ → ℕ
same_capacity n = n

short_id_crashes : entry_to_peer same_capacity short_id ≡ crashed
unfolding entry_to_peer parse_txt_records parse_from field Dict.get Dict.put cut standard_key str_eq
short_id_crashes = refl

Reaches-IsConsistent_example :
    IsConsistent
      (stop padding all_zones
        (advertise_node padding all_zones (some garden_node) (start padding all_zones fresh).1).1).1
Reaches-IsConsistent_example = Reaches-IsConsistent padding all_zones _ (
    stopped _ (
      advertised (some garden_node) _
        (started fresh (made (with_namespace (codes "garden-42") ∷ []) fresh new_garden))))

advertise_node-running_test :
    let t = set_txt (build_txt_records padding garden_node) busy in
    advertise_node padding all_zones (some garden_node) busy
    ≡ (none, record t { cancelled = true; ticking = true; announced = some (zone_of t.options) })
advertise_node-running_test = advertise_node-running padding all_zones garden_node busy refl refl

perform_discovery-AllForeign_test :
    AllForeign
      (own_name garden_options)
      (perform_discovery same_capacity busy (got none ∷ got (some named_node) ∷ finished ∷ [])).0
perform_discovery-AllForeign_test =
    perform_discovery-AllForeign same_capacity busy
      (got none ∷ got (some named_node) ∷ finished ∷ [])
