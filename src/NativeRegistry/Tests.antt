-- ===== src/NativeRegistry/Tests.antt =====
-- A host "me" with one provider "p1", which is stored, and two connections.
use mathlib.Core.Bool.{false≢true}
use peers_touch_go.Prelude.{
  ℕ, ◌*◌, true, false, List, [], ◌∷◌, ◌++◌, Option, none, some, Str, codes, str_eq, if◌then◌else◌,
  ◌≡◌, ◌≢◌, refl, ◌^◌, str_eq_iff,
}
use peers_touch_go.Prelude.Dict
use peers_touch_go.Prelude.Int.{pos}
use peers_touch_go.Prelude.Result.{ok}
use peers_touch_go.Mdns.Records
use peers_touch_go.NativeRegistry.{Network, NativeRegistry, Registration, Peer, peer_key}
use peers_touch_go.NativeRegistry.Bootstrap.{add_bootstrap_node, on_discovered}
use peers_touch_go.NativeRegistry.Bootstrap.Discovered.{Once, fresh, added, watched, Discovers-Once}
use peers_touch_go.NativeRegistry.Registering.{Outside, register, not_found, TurnAnswers, allocated}
use peers_touch_go.NativeRegistry.Registering.Keys.{register-unlisted}
use peers_touch_go.NativeRegistry.Queries.{list_peers, listed_text}
use peers_touch_go.NativeRegistry.Queries.Listed.{Others, Stored, names, unseen, list_peers-Others}
use peers_touch_go.NativeRegistry.Options.{Options, Config, plugin_options, with_bootstrap_nodes}
use peers_touch_go.NativeRegistry.Options.Configured.{plugin_options-enabled}

abbrev stored_peer : Peer
stored_peer = record { id = codes "p1"; name = codes "one"; version = codes "1.0"; metadata = none }

abbrev local_net : Network
unfolding str_eq
local_net = record {
  self = codes "me";
  host_addrs = codes "/ip4/10.0.0.1/tcp/4001" ∷ [];
  decode_id = λ s. some s;
  parse_addr = λ s. some s;
  encapsulate = λ a b. a ++ b;
  peer_of = λ a. none;
  default_bootstrap_peers = [];
  providers = λ t. codes "p1" ∷ codes "me" ∷ codes "p1" ∷ [];
  get_value = λ k. if str_eq k (peer_key (codes "p1")) then some k else none;
  find_peer = λ id. true;
  connected = codes "p1" ∷ codes "p2" ∷ [];
  peer_addrs = λ id. [];
  sort = λ l. l;
  unmarshal = λ d. some stored_peer;
}

abbrev new_registry : NativeRegistry
new_registry = record {
  peers = (codes "p1", stored_peer) ∷ [];
  bootstrap_nodes = [];
  discovered = [];
  turn_stun_addresses = [];
  turn_relay_addresses = [];
  turn_update_time = 0;
}

abbrev found_peer : Records.Peer
found_peer = record {
  id = codes "b";
  name = codes "boot";
  network_id = none;
  nodes =
      record {
        id = codes "b";
        kind = codes "bootstrap";
        network_id = none;
        name = [];
        addresses = [];
        port = pos 1;
      }
      ∷ [];
  entry_name = codes "boot";
  addresses = codes "/ip4/10.0.0.9/tcp/1" ∷ codes "/ip4/10.0.0.9/tcp/1" ∷ [];
}

Discovers-Once_example :
    Once
      (on_discovered local_net found_peer (
        add_bootstrap_node local_net
          (codes "b")
          (codes "/ip4/10.0.0.9/tcp/1" ∷ [])
          new_registry)).discovered
Discovers-Once_example = Discovers-Once local_net _ (
    watched found_peer _
      (added (codes "b") (codes "/ip4/10.0.0.9/tcp/1" ∷ []) new_registry (fresh new_registry refl)))

abbrev accepting : Outside
accepting = record {
  makes_cid = λ t. true;
  connected = true;
  rows = λ id. not_found;
  table_size = 1;
  marshal = λ p. some p.name;
  takes = λ k v. true;
}

abbrev own : Registration
own = record {
  id = codes "me";
  name = codes "me";
  kind = codes "registry";
  namespaces = [];
  addresses = [];
  metadata = none;
}

register-unlisted_test : (register local_net accepting (some own)).announced ≢ some listed_text
register-unlisted_test = register-unlisted local_net accepting (some own)

p1_kept : Dict.get (codes "p1") new_registry.peers ≡ some stored_peer
unfolding Dict.get str_eq
p1_kept = refl

one_is_other : codes "one" ≢ codes "p1"
unfolding str_eq
one_is_other e = false≢true ((str_eq_iff (codes "one") (codes "p1")).1 e)

abbrev turning : TurnAnswers
turning = record {
  client = true;
  allocation = allocated (codes "1.2.3.4:5");
  mapped = some (codes "1.2.3.4:6");
}

list_peers-Others_example :
    (found : List Peer) × (more : List Peer) × (seen : List Str) × (list_peers local_net true
        new_registry
      ≡ ok (found ++ more))
    × Stored local_net new_registry found [] seen
    × Others local_net new_registry seen
    × (names local_net new_registry more ≡ unseen local_net new_registry seen local_net.connected)
list_peers-Others_example = list_peers-Others local_net new_registry

abbrev base : Options
base = record {
  run_mode = 0;
  identity_key_file = [];
  bootstrap_node_retry_times = 0;
  bootstrap_refresh_interval = 0;
  bootstrap_nodes = [];
  relay_nodes = [];
  mdns_enable = false;
  bootstrap_enable = false;
  bootstrap_listen_addrs = [];
  interval = 0;
  connect_timeout = 0;
}

abbrev configured : Config
configured = record {
  connect_timeout = [];
  interval = codes "1m";
  bootstrap_nodes = codes "-" ∷ codes "/ip4/10.0.0.7/tcp/1" ∷ [];
  bootstrap_refresh_interval = [];
  bootstrap_node_retry_times = 0;
  mdns_enable = true;
  bootstrap_enable = true;
  bootstrap_to_self = false;
  bootstrap_listen_addrs = [];
  identity_key_file = [];
  run_mode = 2;
}

abbrev applied : Options
applied = record base {
  run_mode = 2;
  identity_key_file = codes "libp2pIdentity.key";
  bootstrap_node_retry_times = 5;
  bootstrap_refresh_interval = 2 * 10 ^ 9;
  bootstrap_nodes = codes "/ip4/10.0.0.7/tcp/1" ∷ [];
  mdns_enable = true;
  interval = 60 * 10 ^ 9;
  connect_timeout = 10 * 10 ^ 9;
}

abbrev any_addr : Str → Option Str
any_addr s = some s

abbrev minute : Str → Option ℕ
minute s = some (60 * 10 ^ 9)

options_applied : plugin_options any_addr minute configured base ≡ ok applied
unfolding plugin_options with_bootstrap_nodes
options_applied = refl

plugin_options-enabled_test :
    (applied.bootstrap_enable ≡ configured.bootstrap_to_self)
    × (applied.mdns_enable ≡ configured.mdns_enable)
plugin_options-enabled_test =
    plugin_options-enabled any_addr minute configured base applied options_applied
