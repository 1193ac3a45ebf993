-- ===== src/NativeRegistry.antt =====
-- station/frame/core/plugin/native/registry: the registry over libp2p. Its data and keys are here; the
-- bootstrap nodes, what it registers, what it finds, and its options are the children. A metadata value
-- is a text or a list of texts; times and signatures are left out.
pub mod Bootstrap
pub mod Registering
pub mod Queries
pub mod Options
mod Tests
use peers_touch_go.Prelude.{
  ℕ, ◌+◌, Bool, true, false, List, [], ◌∷◌, ◌++◌, Option, none, some, Str, codes, ltb,
  if◌then◌else◌, length, drop, ◌≡◌,
}
use peers_touch_go.Prelude.Dict.{Dict}
use peers_touch_go.Prelude.Text.{has_prefix}

pub data Value : Type 0 where
  text : Str → Value
  texts : List Str → Value

-- `metadata` is `none` for a nil map.
pub record Peer : Type 0 where
  pub id : Str
  pub name : Str
  pub version : Str
  pub metadata : Option (Dict Value)

pub record Registration : Type 0 where
  pub id : Str
  pub name : Str
  pub kind : Str
  pub namespaces : List Str
  pub addresses : List Str
  pub metadata : Option (Dict Value)

-- The nodes that mDNS discovered and the addresses that TURN gave stand in the order in which they came.
pub record NativeRegistry : Type 0 where
  pub peers : Dict Peer
  pub bootstrap_nodes : List Str
  pub discovered : List Str
  pub turn_stun_addresses : List Str
  pub turn_relay_addresses : List Str
  pub turn_update_time : ℕ

abbrev pub network_namespace : Str
network_namespace = codes "/pst"

abbrev pub network_bootstrap_namespace : Str
network_bootstrap_namespace = network_namespace ++ codes ":pb"

-- `fmt.Sprintf(peerKeyFormat, networkNamespace, id)`
abbrev pub peer_key : Str → Str
peer_key id = network_namespace ++ b'/' ∷ id

-- What the registry takes from libp2p, from the DHT and from the encodings of a peer. Multiaddrs and ids
-- are texts.
pub record Network : Type 0 where
  pub self : Str
  pub host_addrs : List Str
  pub decode_id : Str → Option Str
  pub parse_addr : Str → Option Str
  pub encapsulate : Str → Str → Str
  pub peer_of : Str → Option Str
  pub default_bootstrap_peers : List Str
  pub providers : Str → List Str
  pub get_value : Str → Option Str
  pub find_peer : Str → Bool
  pub connected : List Str
  pub peer_addrs : Str → List Str
  pub sort : List Str → List Str
  pub unmarshal : Str → Option Peer

pub data Validated : Type 0 where
  valid invalid_key invalid_peer_id out_of_range : Validated

abbrev pub decoded_id : Option Str → Validated
decoded_id none = invalid_peer_id
decoded_id (some id) = valid

-- `key[len(networkNamespace)+1:]` panics on the bare namespace.
unfoldable pub validate : Network → Str → Validated
unfolding has_prefix
validate n key =
    if has_prefix key network_namespace
    then if ltb (length key) (length network_namespace + 1)
      then out_of_range
      else decoded_id (n.decode_id (drop (length network_namespace + 1) key))
    else invalid_key
