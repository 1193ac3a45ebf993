-- ===== src/PeerRoutes/Nodes.antt =====
-- station/frame/touch/peer_router.go: its handlers of nodes, which no route has. Bodies are what binding
-- gave; errors' texts stand as constructors.
pub mod Overwritten
use peers_touch_go.Prelude.{
  ℕ, ◌+◌, ◌/◌, Bool, true, false, ◌||◌, List, [], ◌∷◌, ◌++◌, Option, none, some, Str, codes, ltb,
  leb, if◌then◌else◌, length, ◌≡◌,
}
use peers_touch_go.Prelude.Result.{Result, ok, err}
use peers_touch_go.Prelude.Dict.{Dict}
use peers_touch_go.Prelude.Int.{ℤ, pos, negsuc}
use peers_touch_go.Paging.{Page, page, panic}
use peers_touch_go.Registry.{
  Node, MemoryNodeStorage, Error, register, deregister, get_node, list_nodes,
}
use peers_touch_go.Registry.Handlers.{
  ListQuery, NodeListResponse, build_filter, parse_limit, parse_offset, is_not_found,
}

pub record NodeRequest : Type 0 where
  pub name : Str
  pub version : Str
  pub capabilities : List Str
  pub metadata : Option (Dict Str)
  pub public_key : Str
  pub addresses : List Str
  pub port : ℤ

pub data Refused : Type 0 where
  id_required unbound name_required version_required address_required invalid_port internal :
      Refused

-- Answers with status 200, 400 and 404.
pub data Reply : Type 0 where
  listed : NodeListResponse → Reply
  node_reply : Node → Reply
  id_reply : Str → Reply
  refused : Refused → Reply
  unknown : Str → Reply
  crashed : Reply

abbrev pub list_reply : ℕ → ℕ → Page Node × ℕ → Reply
list_reply limit offset (page nodes, total) =
    listed (record { nodes = nodes; total = total; page = offset / limit + 1; size = length nodes })
list_reply limit offset (panic, total) = crashed

unfoldable pub list_nodes_route : ListQuery → MemoryNodeStorage → Reply
unfolding build_filter list_nodes parse_limit parse_offset
list_nodes_route q m =
    list_reply (parse_limit q.limit) (parse_offset q.offset) (list_nodes (some (build_filter q)) m)

abbrev pub node_or_unknown : Str → Result Error Node → Reply
node_or_unknown id (ok node) = node_reply node
node_or_unknown id (err e) = if is_not_found e then unknown id else refused internal

unfoldable pub get_node_route : Str → MemoryNodeStorage → Reply
unfolding get_node
get_node_route [] m = refused id_required
get_node_route (c ∷ id) m = node_or_unknown (c ∷ id) (get_node (c ∷ id) m)

abbrev pub is_port : ℤ → Bool
is_port (pos n) = if ltb 0 n then leb n 65535 else false
is_port (negsuc n) = false

-- The fields that are not given are empty, the id and the times among them.
abbrev pub routed_node : NodeRequest → Node
routed_node r = record {
  id = [];
  name = r.name;
  version = r.version;
  addresses = r.addresses;
  capabilities = r.capabilities;
  metadata = r.metadata;
  status = [];
  public_key = r.public_key;
  port = r.port;
  last_seen_at = 0;
  heartbeat_at = 0;
  registered_at = 0;
}

abbrev pub check_addresses : List Str → ℤ → Option Refused
check_addresses [] port = some address_required
check_addresses (a ∷ l) port = if is_port port then none else some invalid_port

abbrev pub check_version : Str → NodeRequest → Option Refused
check_version [] r = some version_required
check_version (c ∷ s) r = check_addresses r.addresses r.port

abbrev pub check_request : Str → NodeRequest → Option Refused
check_request [] r = some name_required
check_request (c ∷ s) r = check_version r.version r

abbrev pub registered : NodeRequest → Option Refused → MemoryNodeStorage → Reply × MemoryNodeStorage
registered r (some e) m = (refused e, m)
registered r none m = (node_reply (routed_node r), register (routed_node r) m)

unfoldable pub register_node_route :
    Option NodeRequest → MemoryNodeStorage → Reply × MemoryNodeStorage
unfolding register
register_node_route none m = (refused unbound, m)
register_node_route (some r) m = registered r (check_request r.name r) m

unfoldable pub deregister_node_route : Str → MemoryNodeStorage → Reply × MemoryNodeStorage
unfolding deregister
deregister_node_route [] m = (refused id_required, m)
deregister_node_route (c ∷ id) m = (id_reply (c ∷ id), deregister (c ∷ id) m)
