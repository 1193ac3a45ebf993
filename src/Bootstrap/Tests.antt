-- ===== src/Bootstrap/Tests.antt =====
-- A peer that connects twice and disconnects once, over tables that are lists.
use peers_touch_go.Prelude.{
  ℕ, ◌*◌, Bool, true, false, List, [], ◌∷◌, none, some, codes, str_eq, keep, ◌≡◌, refl,
}
use peers_touch_go.Prelude.Result.{ok}
use peers_touch_go.Tables.{Table, found, first_of, not}
use peers_touch_go.Tables.Lists.{
  list_table, list_table-Laws, on_first, on_second, on_first-Laws, on_second-Laws, on_first-Leaves,
  on_second-Leaves,
}
use peers_touch_go.Bootstrap.{
  PeerInfo, ConnectionInfo, before_create_connection, before_create_peer,
}
use peers_touch_go.Bootstrap.Connections.{
  ip4, other, Multiaddr, Conn, inbound, Readings, saved, of_peer, has_peer_id, save_conn_info,
  connection_info_of, peer_info_of, save_peer_info, replace_connection, get_ipv4_and_ipv6,
  scan_codes,
}
use peers_touch_go.Bootstrap.Kept.{
  same_peer_row, same_connection_row, save_conn_info-rows, save_conn_info-seen,
}
use peers_touch_go.Bootstrap.Lifecycle.{
  HostConfig, Libp2p, Outside, new_bootstrap_server, init, start, create_host, parse_all,
}
use peers_touch_go.Bootstrap.Configured.{
  Options, Config, new_options, plugin_options, node_settings, second,
}

abbrev Database : Type 0
Database = List PeerInfo × List ConnectionInfo

abbrev peer_table : Table Database PeerInfo
peer_table = on_first (list_table same_peer_row)

abbrev connection_table : Table Database ConnectionInfo
connection_table = on_second (list_table same_connection_row)

abbrev there : Database → Bool
there s = true

abbrev address : Multiaddr
address = record {
  protocols = ip4 ∷ other ∷ [];
  value_for_protocol = λ c. codes "10.0.0.1";
  text = codes "/ip4/10.0.0.1/tcp/1";
}

abbrev conn : Conn
conn = record {
  remote_peer = codes "QmA";
  local_multiaddr = address;
  remote_multiaddr = address;
  direction = inbound;
}

abbrev readings : ℕ → Readings
readings n = record { first_now = n; second_now = n; peer_row_id = n; connection_row_id = n }

abbrev row : ℕ → Bool → ConnectionInfo
unfolding before_create_connection connection_info_of get_ipv4_and_ipv6 scan_codes
row n is_active = before_create_connection n (connection_info_of conn is_active n)

abbrev peer_row : ℕ → PeerInfo
peer_row n = record { id = 5; peer_id = codes "QmA"; first_seen_at = 5; last_seen_at = n }

abbrev connected_once : Database
connected_once = (peer_row 5 ∷ [], row 5 true ∷ [])

abbrev gone : Database
gone = (peer_row 9 ∷ [], row 9 false ∷ [])

connected :
    save_conn_info there peer_table connection_table conn true 4 5 (readings 5) ([], [])
    ≡ (saved, connected_once)
unfolding save_conn_info save_peer_info peer_info_of connection_info_of get_ipv4_and_ipv6 scan_codes
    before_create_peer before_create_connection replace_connection str_eq keep row
connected = refl

disconnected :
    save_conn_info there peer_table connection_table conn false 8 9 (readings 9) connected_once
    ≡ (saved, gone)
unfolding save_conn_info save_peer_info peer_info_of connection_info_of get_ipv4_and_ipv6 scan_codes
    before_create_peer before_create_connection replace_connection str_eq keep row
disconnected = refl

save_conn_info-rows_example :
    (keep (of_peer (codes "QmA")) gone.1
      ≡ before_create_connection 9 (connection_info_of conn false 9) ∷ [])
    × (keep (λ c. not (of_peer (codes "QmA") c)) gone.1
        ≡ keep (λ c. not (of_peer (codes "QmA") c)) connected_once.1)
unfolding keep
save_conn_info-rows_example =
    save_conn_info-rows there peer_table connection_table
      (on_second-Laws (list_table same_connection_row) same_connection_row
        (list_table-Laws same_connection_row))
      (on_first-Leaves (list_table same_peer_row) (λ (l : List ConnectionInfo). l)) conn false 8 9
      (readings 9) connected_once gone disconnected

has_row : first_of (has_peer_id (codes "QmA")) connected_once.0 ≡ found (peer_row 5)
unfolding str_eq
has_row = refl

save_conn_info-seen_example : first_of (has_peer_id (codes "QmA")) gone.0 ≡ found (peer_row 9)
unfolding keep
save_conn_info-seen_example =
    save_conn_info-seen there peer_table connection_table
      (on_first-Laws (list_table same_peer_row) same_peer_row (list_table-Laws same_peer_row))
      (on_second-Leaves (list_table same_connection_row) (λ (l : List PeerInfo). l)) conn false 8 9
      (readings 9) connected_once gone (peer_row 5) has_row disconnected

abbrev host_config : HostConfig
host_config = record {
  private_key = none;
  listen_multi_addrs = [];
  listen_addrs = codes "/ip4" ∷ [];
  enable_mdns = true;
}

abbrev library : Libp2p
library = record {
  generate_key = some (codes "key");
  new_multiaddr = λ a. some a;
  new_host = λ o. true;
  new_dht = λ o. true;
}

abbrev outside : Outside
outside = record { store_there = true; migrated = true; mdns_starts = true }

server_runs :
    (start (init outside library (new_bootstrap_server host_config)).1).1.mdns_running ≡ true
unfolding start init create_host parse_all new_bootstrap_server
server_runs = refl

abbrev config : Config
config = record {
  enabled = true;
  enable_mdns = true;
  identity_key = codes "k";
  listen_addrs = [];
  bootstrap_nodes = codes "/a" ∷ [];
  dht_refresh_interval = 3;
}

abbrev plain : Options
plain = record {
  enabled = false;
  enable_mdns = false;
  identity_key = none;
  listen_addrs = [];
  bootstrap_nodes = [];
  dht_refresh_interval = 0;
  private_key = none;
  listen_multi_addrs = [];
}

mdns_stays_off :
    new_options (λ a. some a) [] config plain
    ≡ ok (record plain {
      enabled = true;
      bootstrap_nodes = codes "/a" ∷ [];
      dht_refresh_interval = 3 * second;
    })
unfolding new_options plugin_options node_settings
mdns_stays_off = refl
