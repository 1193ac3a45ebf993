-- ===== src/Registry/Handlers.antt =====
-- station/frame/touch/peer/registry.go: the HTTP handlers of the node registry. A request is the
-- parts that the handler reads, and what `BindAndValidate` made of the body; logging is left out.
pub mod Paths
pub mod Lists
use peers_touch_go.Prelude.{
  ℕ, zero, suc, ◌+◌, ◌/◌, ◌<◌, Bool, true, false, List, [], ◌∷◌, ◌++◌, Option, none, some, Str,
  codes, ltb, leb, ◌==◌, if◌then◌else◌, length, map, str_eq,
}
use peers_touch_go.Prelude.Result.{Result, ok, err}
use peers_touch_go.Prelude.Dict.{Dict}
use peers_touch_go.Prelude.Int.{ℤ, pos, negsuc}
use peers_touch_go.Prelude.Text.{contains, split, trim_space, atoi}
use peers_touch_go.Paging.{Page, page, panic}
use peers_touch_go.Registry.{
  Node, NodeFilter, Error, error_text, MemoryNodeStorage, Stats, register, deregister, get_node,
  heartbeat, list_nodes, get_stats, node_status_online, node_status_offline, node_status_inactive,
}

pub record NodeListResponse : Type 0 where
  pub nodes : List Node
  pub total : ℕ
  pub page : ℕ
  pub size : ℕ

-- `model.NewFailedResponse` with its code and message, and `model.NewSuccessResponse` with its data.
pub data Body : Type 0 where
  failed : Str → Str → Body
  node_list : NodeListResponse → Body
  node_data : Node → Body
  no_data : Str → Body
  stats_data : Stats → Body

-- `crashed`: the handler panics.
pub data Response : Type 0 where
  json : ℕ → Body → Response
  crashed : Response

pub record RegisterNodeRequest : Type 0 where
  pub id : Str
  pub name : Str
  pub addresses : List Str
  pub capabilities : List Str
  pub metadata : Option (Dict Str)

pub record UpdateNodeRequest : Type 0 where
  pub name : Str
  pub addresses : List Str
  pub capabilities : List Str
  pub metadata : Option (Dict Str)

pub record ListQuery : Type 0 where
  pub limit : Str
  pub offset : Str
  pub status : Str
  pub capabilities : Str
  pub online_only : Str

abbrev pub limit_or_default : Option ℤ → ℕ
limit_or_default none = 20
limit_or_default (some (pos n)) = if ltb 0 n then (if leb n 100 then n else 20) else 20
limit_or_default (some (negsuc n)) = 20

abbrev pub offset_or_default : Option ℤ → ℕ
offset_or_default none = 0
offset_or_default (some (pos n)) = n
offset_or_default (some (negsuc n)) = 0

-- An empty parameter is no number either, so the test for it changes nothing.
unfoldable pub parse_limit : Str → ℕ
unfolding atoi
parse_limit s = limit_or_default (atoi s)

unfoldable pub parse_offset : Str → ℕ
unfolding atoi
parse_offset s = offset_or_default (atoi s)

-- The `switch` of the loop over the statuses: any other text adds nothing.
abbrev pub add_status : Str → List Str → List Str
add_status s rest =
    if str_eq s node_status_online
    then node_status_online ∷ rest
    else if str_eq s node_status_offline
    then node_status_offline ∷ rest
    else if str_eq s node_status_inactive
    then node_status_inactive ∷ rest
    else rest

unfoldable pub parse_statuses : List Str → List Str
unfolding trim_space str_eq
parse_statuses [] = []
parse_statuses (s ∷ ss) = add_status (trim_space s) (parse_statuses ss)

abbrev pub split_unless_empty : Str → List Str
split_unless_empty [] = []
split_unless_empty (c ∷ s) = split b',' (c ∷ s)

unfoldable pub build_filter : ListQuery → NodeFilter
unfolding parse_limit parse_offset parse_statuses trim_space split str_eq
build_filter q = record {
  limit = pos (parse_limit q.limit);
  offset = pos (parse_offset q.offset);
  status = parse_statuses (split_unless_empty q.status);
  capabilities = map trim_space (split_unless_empty q.capabilities);
  online_only = str_eq q.online_only (codes "true");
}

abbrev pub list_response : ℕ → ℕ → Page Node × ℕ → Response
list_response limit offset (page nodes, total) = json 200 (
    node_list
      (record { nodes = nodes; total = total; page = offset / limit + 1; size = length nodes }))
list_response limit offset (panic, total) = crashed

unfoldable pub list_nodes_handler : ListQuery → MemoryNodeStorage → Response
unfolding build_filter list_nodes parse_limit parse_offset
list_nodes_handler q m =
    list_response (parse_limit q.limit) (parse_offset q.offset)
      (list_nodes (some (build_filter q)) m)

abbrev pub missing_id : Response
missing_id = json 400 (failed (codes "400") (codes "node ID is required"))

-- `strings.Contains(err.Error(), "not found")`
abbrev pub is_not_found : Error → Bool
is_not_found e = contains (error_text e) (codes "not found")

abbrev pub lookup_failed : Str → Error → Response
lookup_failed id e =
    if is_not_found e
    then json 404 (failed (codes "404") (codes "node not found: " ++ id))
    else json 500 (failed (codes "500") (codes "Failed to get node"))

abbrev pub node_response : Str → Result Error Node → Response
node_response id (ok node) = json 200 (node_data node)
node_response id (err e) = lookup_failed id e

unfoldable pub get_node_handler : Str → MemoryNodeStorage → Response
unfolding get_node contains
get_node_handler [] m = missing_id
get_node_handler (c ∷ id) m = node_response (c ∷ id) (get_node (c ∷ id) m)

abbrev pub invalid_body : Response
invalid_body = json 400 (failed (codes "400") (codes "Invalid request body"))

abbrev pub new_node : ℕ → ℕ → ℕ → RegisterNodeRequest → Node
new_node seen beat registered req = record {
  id = req.id;
  name = req.name;
  version = [];
  addresses = req.addresses;
  capabilities = req.capabilities;
  metadata = req.metadata;
  status = node_status_online;
  public_key = [];
  port = pos 0;
  last_seen_at = seen;
  heartbeat_at = beat;
  registered_at = registered;
}

-- The body is what binding returned: a request, or its error. `Register` never fails.
unfoldable pub register_node_handler :
    ℕ → ℕ → ℕ → Result Str RegisterNodeRequest → MemoryNodeStorage → Response × MemoryNodeStorage
unfolding register
register_node_handler seen beat registered (err e) m = (invalid_body, m)
register_node_handler seen beat registered (ok req) m =
    let node = new_node seen beat registered req in (json 201 (node_data node), register node m)

abbrev pub unless_empty : List Str → List Str → List Str
unless_empty [] old = old
unless_empty (x ∷ xs) old = x ∷ xs

abbrev pub name_unless_empty : Str → Str → Str
name_unless_empty [] old = old
name_unless_empty (c ∷ s) old = c ∷ s

abbrev pub unless_nil : Option (Dict Str) → Option (Dict Str) → Option (Dict Str)
unless_nil none old = old
unless_nil (some d) old = some d

abbrev pub merge : ℕ → UpdateNodeRequest → Node → Node
merge seen req node = record node {
  name = name_unless_empty req.name node.name;
  addresses = unless_empty req.addresses node.addresses;
  capabilities = unless_empty req.capabilities node.capabilities;
  metadata = unless_nil req.metadata node.metadata;
  last_seen_at = seen;
}

-- The node found is the one changed in place; it is stored under its own id, which is that of the path.
abbrev pub update_found :
    ℕ
    → Str
    → Result Str UpdateNodeRequest
    → Result Error Node
    → MemoryNodeStorage
    → Response × MemoryNodeStorage
update_found seen id body (err e) m = (lookup_failed id e, m)
update_found seen id (err e) (ok node) m = (invalid_body, m)
update_found seen id (ok req) (ok node) m =
    (json 200 (node_data (merge seen req node)), register (merge seen req node) m)

unfoldable pub update_node_handler :
    ℕ → Str → Result Str UpdateNodeRequest → MemoryNodeStorage → Response × MemoryNodeStorage
unfolding get_node register contains
update_node_handler seen [] body m = (missing_id, m)
update_node_handler seen (c ∷ id) body m = update_found seen (c ∷ id) body (get_node (c ∷ id) m) m

-- `Deregister` never fails.
unfoldable pub unregister_node_handler : Str → MemoryNodeStorage → Response × MemoryNodeStorage
unfolding deregister
unregister_node_handler [] m = (missing_id, m)
unregister_node_handler (c ∷ id) m =
    (json 200 (no_data (codes "Node unregistered successfully")), deregister (c ∷ id) m)

abbrev pub heartbeat_response :
    Result Error (Unit {0}) × MemoryNodeStorage → Response × MemoryNodeStorage
heartbeat_response (ok u, m) = (json 200 (no_data (codes "Heartbeat updated successfully")), m)
heartbeat_response (err e, m) =
    (json 500 (failed (codes "500") (codes "Failed to update heartbeat")), m)

unfoldable pub heartbeat_handler : ℕ → ℕ → Str → MemoryNodeStorage → Response × MemoryNodeStorage
unfolding heartbeat
heartbeat_handler now seen [] m = (missing_id, m)
heartbeat_handler now seen (c ∷ id) m = heartbeat_response (heartbeat now seen (c ∷ id) m)

unfoldable pub get_node_stats_handler : MemoryNodeStorage → Response
unfolding get_stats
get_node_stats_handler m = json 200 (stats_data (get_stats m))
