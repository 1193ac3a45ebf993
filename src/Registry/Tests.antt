-- ===== src/Registry/Tests.antt =====
-- A storage of two nodes, and requests to its handlers.
use peers_touch_go.Prelude.{
  ◌/◌, ◌+◌, ◌≡◌, ◌≢◌, ◌↔◌, refl, true, [], ◌∷◌, none, Str, codes, str_eq, arith, length, ◌<◌, keep,
}
use peers_touch_go.Prelude.Result.{ok, err}
use peers_touch_go.Prelude.Int.{pos}
use peers_touch_go.Paging.{max_int}
use peers_touch_go.Registry.{
  Node, NodeFilter, node_status_online, node_status_offline, node_not_found, MemoryNodeStorage,
  new_memory_storage, get_node, passes,
}
use peers_touch_go.Registry.Access.{registers, beats, run, get_node-run}
use peers_touch_go.Registry.Listing.{Matches, passes-Matches}
use peers_touch_go.Registry.Handlers.{
  node_list, json, ListQuery, UpdateNodeRequest, update_node_handler, parse_limit, parse_offset,
  list_nodes_handler,
}
use peers_touch_go.Registry.Handlers.Paths.{update_answer, update_node_handler_lem}
use peers_touch_go.Registry.Handlers.Lists.{page_of, matching, list_nodes_handler_lem}

abbrev node : Str → Str → Node
node id status = record {
  id = id;
  name = codes "station";
  version = [];
  addresses = codes "10.0.0.1" ∷ [];
  capabilities = codes "relay" ∷ [];
  metadata = none;
  status = status;
  public_key = [];
  port = pos 0;
  last_seen_at = 5;
  heartbeat_at = 5;
  registered_at = 5;
}

abbrev up : Node
up = node (codes "a") node_status_online

abbrev down : Node
down = node (codes "b") node_status_offline

abbrev two_nodes : MemoryNodeStorage
two_nodes = record { nodes = (codes "a", up) ∷ (codes "b", down) ∷ [] }

abbrev other_order : MemoryNodeStorage
other_order = record { nodes = (codes "b", down) ∷ (codes "a", up) ∷ [] }

abbrev online_relays : NodeFilter
online_relays = record {
  limit = pos 1;
  offset = pos 0;
  status = [];
  capabilities = codes "relay" ∷ [];
  online_only = true;
}

passes-Matches_example : (passes online_relays up ≡ true) ↔ Matches online_relays up
passes-Matches_example = passes-Matches online_relays up

a_is_found :
    get_node (codes "a") (run (registers up ∷ beats 9 9 (codes "a") ∷ []) new_memory_storage)
    ≡ ok (record up { heartbeat_at = 9; last_seen_at = 9 })
unfolding get_node run str_eq
a_is_found = refl

get_node-run_test : codes "a" ≡ codes "a"
get_node-run_test =
    get_node-run (registers up ∷ beats 9 9 (codes "a") ∷ []) (codes "a")
      (record up { heartbeat_at = 9; last_seen_at = 9 }) a_is_found

abbrev rename : UpdateNodeRequest
rename = record { name = codes "relay"; addresses = []; capabilities = []; metadata = none }

b_is_given : codes "b" ≢ []
b_is_given e = cc

c_is_given : codes "c" ≢ []
c_is_given e = cc

b_is_found : get_node (codes "b") two_nodes ≡ ok down
unfolding get_node str_eq
b_is_found = refl

c_is_unknown : get_node (codes "c") two_nodes ≡ err (node_not_found (codes "c"))
unfolding get_node str_eq
c_is_unknown = refl

update_node_handler_lem_test :
    update_node_handler 9 (codes "b") (ok rename) two_nodes
    ≡ update_answer 9 (codes "b") (ok rename) (get_node (codes "b") two_nodes) two_nodes
update_node_handler_lem_test =
    update_node_handler_lem 9 (codes "b") (ok rename) two_nodes b_is_given

-- A query whose numbers are not numbers.
abbrev bad_query : ListQuery
bad_query = record {
  limit = codes "many";
  offset = codes "-3";
  status = codes "online,gone";
  capabilities = [];
  online_only = codes "true";
}

few_match : length (matching bad_query two_nodes) + 100 < max_int
unfolding keep
few_match = ground arith

list_nodes_handler_lem_example :
    list_nodes_handler bad_query two_nodes
    ≡ json 200 (
        node_list (record {
          nodes = page_of bad_query (matching bad_query two_nodes);
          total = length (matching bad_query two_nodes);
          page = parse_offset bad_query.offset / parse_limit bad_query.limit + 1;
          size = length (page_of bad_query (matching bad_query two_nodes));
        }))
list_nodes_handler_lem_example = list_nodes_handler_lem bad_query two_nodes few_match
