-- ===== src/Registry.antt =====
-- station/frame/core/registry: types.go and node_registry.go, the nodes that the station knows and
-- their storage in memory. A stored node is reached through the storage only, so its pointer is
-- its value; times are nanoseconds, and the clock readings of a call are arguments. The values of
-- `Metadata` are their JSON text.
pub mod Access
pub mod Listing
pub mod Order
pub mod Handlers
mod Tests
use peers_touch_go.Prelude.{
  ℕ, zero, suc, Bool, true, false, ◌&&◌, List, [], ◌∷◌, ◌++◌, Option, none, some, Str, codes,
  str_eq, any, keep, length, if◌then◌else◌,
}
use peers_touch_go.Prelude.Result.{Result, ok, err}
use peers_touch_go.Prelude.Dict
use peers_touch_go.Prelude.Dict.{Dict, values}
use peers_touch_go.Prelude.Int.{ℤ, pos, negsuc}
use peers_touch_go.Paging.{Page, page, panic, slice}

pub record Node : Type 0 where
  pub id : Str
  pub name : Str
  pub version : Str
  pub addresses : List Str
  pub capabilities : List Str
  pub metadata : Option (Dict Str)
  pub status : Str
  pub public_key : Str
  pub port : ℤ
  pub last_seen_at : ℕ
  pub heartbeat_at : ℕ
  pub registered_at : ℕ

pub record NodeFilter : Type 0 where
  pub limit : ℤ
  pub offset : ℤ
  pub status : List Str
  pub capabilities : List Str
  pub online_only : Bool

abbrev pub node_status_online : Str
node_status_online = codes "online"

abbrev pub node_status_offline : Str
node_status_offline = codes "offline"

abbrev pub node_status_inactive : Str
node_status_inactive = codes "inactive"

-- `fmt.Errorf("node not found: %s", id)`
pub data Error : Type 0 where
  node_not_found : Str → Error

abbrev pub error_text : Error → Str
error_text (node_not_found id) = codes "node not found: " ++ id

pub record MemoryNodeStorage : Type 0 where
  pub nodes : Dict Node

abbrev pub new_memory_storage : MemoryNodeStorage
new_memory_storage = record { nodes = [] }

unfoldable pub register : Node → MemoryNodeStorage → MemoryNodeStorage
unfolding Dict.put
register node m = record { nodes = Dict.put node.id node m.nodes }

unfoldable pub deregister : Str → MemoryNodeStorage → MemoryNodeStorage
unfolding Dict.remove
deregister id m = record { nodes = Dict.remove id m.nodes }

abbrev pub or_not_found : Str → Option Node → Result Error Node
or_not_found id none = err (node_not_found id)
or_not_found id (some node) = ok node

unfoldable pub get_node : Str → MemoryNodeStorage → Result Error Node
unfolding Dict.get
get_node id m = or_not_found id (Dict.get id m.nodes)

abbrev pub replace :
    Node → Option Node → MemoryNodeStorage → Result Error (Unit {0}) × MemoryNodeStorage
replace node none m = (err (node_not_found node.id), m)
replace node (some old) m = (ok tt, record { nodes = Dict.put node.id node m.nodes })

unfoldable pub update_node : Node → MemoryNodeStorage → Result Error (Unit {0}) × MemoryNodeStorage
unfolding Dict.get Dict.put
update_node node m = replace node (Dict.get node.id m.nodes) m

-- The node that `nodes[id]` points to has its times set in place, under the key `id`.
abbrev pub beat :
    ℕ → ℕ → Str → Option Node → MemoryNodeStorage → Result Error (Unit {0}) × MemoryNodeStorage
beat now seen id none m = (err (node_not_found id), m)
beat now seen id (some node) m = (
  ok tt,
  record { nodes = Dict.put id (record node { heartbeat_at = now; last_seen_at = seen }) m.nodes },
)

unfoldable pub heartbeat :
    ℕ → ℕ → Str → MemoryNodeStorage → Result Error (Unit {0}) × MemoryNodeStorage
unfolding Dict.get Dict.put
heartbeat now seen id m = beat now seen id (Dict.get id m.nodes) m

-- A list that asks for nothing lets every node through.
abbrev pub one_of : Str → List Str → Bool
one_of s allowed = any (λ t. str_eq s t) allowed

abbrev pub passes_status : Node → List Str → Bool
passes_status node [] = true
passes_status node (s ∷ ss) = one_of node.status (s ∷ ss)

abbrev pub passes_capabilities : Node → List Str → Bool
passes_capabilities node [] = true
passes_capabilities node (c ∷ cs) = any (λ cap. one_of cap node.capabilities) (c ∷ cs)

abbrev pub passes_online : Node → Bool → Bool
passes_online node true = str_eq node.status node_status_online
passes_online node false = true

-- What the loop of `ListNodes` lets through.
unfoldable pub passes : NodeFilter → Node → Bool
unfolding any str_eq
passes f node =
    if passes_online node f.online_only
    then (if passes_status node f.status then passes_capabilities node f.capabilities else false)
    else false

abbrev pub passes_filter : Option NodeFilter → Node → Bool
passes_filter none node = true
passes_filter (some f) node = passes f node

abbrev pub paginate_by : ℤ → ℤ → List Node → Page Node
paginate_by (pos zero) offset nodes = page nodes
paginate_by (pos (suc l)) offset nodes = slice offset (pos (suc l)) nodes
paginate_by (negsuc l) offset nodes = page nodes

abbrev pub paginate : Option NodeFilter → List Node → Page Node
paginate none nodes = page nodes
paginate (some f) nodes = paginate_by f.limit f.offset nodes

-- The nodes of the page and the total before paging. The order of the storage stands for that in
-- which the `range` of this call visits the map.
unfoldable pub list_nodes : Option NodeFilter → MemoryNodeStorage → Page Node × ℕ
unfolding keep passes slice
list_nodes filter m =
    let nodes = keep (passes_filter filter) (values m.nodes) in
    (paginate filter nodes, length nodes)

-- Whatever the storage holds.
pub record Stats : Type 0 where
  pub total_nodes : ℕ
  pub online_nodes : ℕ
  pub offline_nodes : ℕ
  pub inactive_nodes : ℕ

unfoldable pub get_stats : MemoryNodeStorage → Stats
get_stats m = record { total_nodes = 0; online_nodes = 0; offline_nodes = 0; inactive_nodes = 0 }
