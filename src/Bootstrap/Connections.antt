-- ===== src/Bootstrap/Connections.antt =====
-- station/frame/core/plugin/native/subserver/bootstrap: host_notifee.go, what is saved of a connection
-- that comes or goes, and savePeerInfo of store.go.
use peers_touch_go.Prelude.{
  ℕ, Bool, true, false, List, [], ◌∷◌, Option, none, some, Str, codes, str_eq, if◌then◌else◌,
}
use peers_touch_go.Tables.{Table, First, found, not_found, failed}
use peers_touch_go.Bootstrap.{
  PeerInfo, ConnectionInfo, before_create_peer, before_create_connection,
}

pub data Code : Type 0 where
  ip4 ip6 other : Code

-- `Protocols`, `ValueForProtocol` without its error, and `String` of a `multiaddr.Multiaddr`.
pub record Multiaddr : Type 0 where
  pub protocols : List Code
  pub value_for_protocol : Code → Str
  pub text : Str

abbrev pub with_code : (Code → Str) → Code → Str × Str → Str × Str
with_code value ip4 (v4, v6) = (value ip4, v6)
with_code value ip6 (v4, v6) = (v4, value ip6)
with_code value other vs = vs

-- The loop over the protocols, with the two results so far.
unfoldable pub scan_codes : (Code → Str) → List Code → Str × Str → Str × Str
scan_codes value [] vs = vs
scan_codes value (c ∷ l) vs = scan_codes value l (with_code value c vs)

unfoldable pub get_ipv4_and_ipv6 : Option Multiaddr → Str × Str
unfolding scan_codes
get_ipv4_and_ipv6 none = ([], [])
get_ipv4_and_ipv6 (some m) = scan_codes m.value_for_protocol m.protocols ([], [])

pub data Direction : Type 0 where
  inbound outbound unknown : Direction

abbrev pub direction_text : Direction → Str
direction_text inbound = codes "inbound"
direction_text outbound = codes "outbound"
direction_text unknown = codes "unknown"

-- `network.Conn`
pub record Conn : Type 0 where
  pub remote_peer : Str
  pub local_multiaddr : Multiaddr
  pub remote_multiaddr : Multiaddr
  pub direction : Direction

-- `now` is read once for the peer and once for the connection.
unfoldable pub peer_info_of : Conn → ℕ → PeerInfo
peer_info_of c now = record {
  id = 0;
  peer_id = c.remote_peer;
  first_seen_at = now;
  last_seen_at = 0;
}

unfoldable pub connection_info_of : Conn → Bool → ℕ → ConnectionInfo
unfolding get_ipv4_and_ipv6
connection_info_of c is_active now = record {
  id = 0;
  peer_id = c.remote_peer;
  ipv4 = (get_ipv4_and_ipv6 (some c.remote_multiaddr)).0;
  ipv6 = (get_ipv4_and_ipv6 (some c.remote_multiaddr)).1;
  direction = direction_text c.direction;
  local_multi_addr = c.local_multiaddr.text;
  remote_multi_addr = c.remote_multiaddr.text;
  connected_at = if is_active then now else 0;
  disconnected_at = if is_active then 0 else now;
  is_active = is_active;
}

-- How `savePeerInfo` ends; it panics on a database that is not there.
pub data Saved : Type 0 where
  saved save_failed panicked : Saved

-- What one call reads: two times, and an id for a row of each table.
pub record Readings : Type 0 where
  pub first_now : ℕ
  pub second_now : ℕ
  pub peer_row_id : ℕ
  pub connection_row_id : ℕ

abbrev pub of_peer : Str → ConnectionInfo → Bool
of_peer id c = str_eq c.peer_id id

abbrev pub has_peer_id : Str → PeerInfo → Bool
has_peer_id id p = str_eq p.peer_id id

module _ {S : Type 0} (connected : S → Bool) (peers : Table S PeerInfo)
    (connections : Table S ConnectionInfo) where
  abbrev pub with_created : Bool × S → Saved × S
  with_created (true, s) = (saved, s)
  with_created (false, s) = (save_failed, s)

  abbrev pub with_deleted : ConnectionInfo → Option ℕ × S → Saved × S
  with_deleted c (none, s) = (save_failed, s)
  with_deleted c (some n, s) = with_created (connections.create c s)

  -- The parts 2 and 3: the rows of the peer are replaced by one.
  unfoldable pub replace_connection : Readings → ConnectionInfo → S → Saved × S
  unfolding before_create_connection str_eq
  replace_connection k c s =
      with_deleted (before_create_connection k.connection_row_id c)
        (connections.delete (of_peer c.peer_id) s)

  abbrev pub with_peer : Readings → ConnectionInfo → Bool × S → Saved × S
  with_peer k c (true, s) = replace_connection k c s
  with_peer k c (false, s) = (save_failed, s)

  abbrev pub new_peer : Readings → PeerInfo → PeerInfo
  new_peer k p =
      before_create_peer k.peer_row_id
        (record p { first_seen_at = k.first_now; last_seen_at = k.second_now })

  -- The part 1, by what the lookup gives.
  abbrev pub upsert_peer : Readings → PeerInfo → ConnectionInfo → S → First PeerInfo → Saved × S
  upsert_peer k p c s not_found = with_peer k c (peers.create (new_peer k p) s)
  upsert_peer k p c s failed = (save_failed, s)
  upsert_peer k p c s (found e) =
      with_peer k c (peers.save (record e { last_seen_at = k.first_now }) s)

  unfoldable pub save_peer_info : Readings → PeerInfo → ConnectionInfo → S → Saved × S
  unfolding before_create_peer str_eq replace_connection
  save_peer_info k p c s =
      if connected s
      then upsert_peer k p c s (peers.first (has_peer_id p.peer_id) s)
      else (panicked, s)

  -- An error is only logged.
  unfoldable pub save_conn_info : Conn → Bool → ℕ → ℕ → Readings → S → Saved × S
  unfolding save_peer_info peer_info_of connection_info_of
  save_conn_info c is_active peer_now now k s =
      save_peer_info k (peer_info_of c peer_now) (connection_info_of c is_active now) s

  abbrev pub on_connected : Conn → ℕ → ℕ → Readings → S → Saved × S
  on_connected c peer_now now k s = save_conn_info c true peer_now now k s

  abbrev pub on_disconnected : Conn → ℕ → ℕ → Readings → S → Saved × S
  on_disconnected c peer_now now k s = save_conn_info c false peer_now now k s
