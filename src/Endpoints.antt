-- ===== src/Endpoints.antt =====
-- station/frame/touch/model/activitypub_endpoint.go: the endpoints of a peer and the registry of
-- peers. Times are nanoseconds; all tests of one call read the same time; the comparison of seconds,
-- which the code makes on floats, is exact here. A negative ttl is not modelled.
pub mod Cleanup
mod Tests
use peers_touch_go.Prelude.{
  ℕ, ◌+◌, ◌*◌, ◌^◌, Bool, true, false, List, [], ◌∷◌, ◌++◌, Option, Str, codes, ltb, if◌then◌else◌,
  length, keep, str_eq,
}
use peers_touch_go.Prelude.Dict
use peers_touch_go.Prelude.Dict.{Dict}

pub record EndpointDescriptor : Type 0 where
  pub path : Str
  pub endpoint_type : Str
  pub methods : List Str
  pub content_types : List Str
  pub is_public : Bool
  pub requires_auth : Bool
  pub description : Str

pub record ActivityPubEndpointInfo : Type 0 where
  pub peer_id : Str
  pub base_url : Str
  pub endpoint_count : ℕ
  pub endpoints : List EndpointDescriptor
  pub last_updated : ℕ
  pub ttl : ℕ

pub record PeerEndpointRegistry : Type 0 where
  pub peers : Dict ActivityPubEndpointInfo
  pub last_sync : ℕ
  pub version : Str

unfoldable pub new_endpoint_info : ℕ → Str → Str → ActivityPubEndpointInfo
new_endpoint_info now peer_id base_url = record {
  peer_id = peer_id;
  base_url = base_url;
  endpoint_count = 0;
  endpoints = [];
  last_updated = now;
  ttl = 3600;
}

unfoldable pub add_endpoint :
    ℕ → EndpointDescriptor → ActivityPubEndpointInfo → ActivityPubEndpointInfo
add_endpoint now e info =
    let endpoints = info.endpoints ++ e ∷ [] in
    record info { endpoints = endpoints; endpoint_count = length endpoints; last_updated = now }

unfoldable pub get_endpoints_by_type : Str → ActivityPubEndpointInfo → List EndpointDescriptor
unfolding keep str_eq
get_endpoints_by_type t info = keep (λ e. str_eq e.endpoint_type t) info.endpoints

abbrev pub second : ℕ
second = 10 ^ 9

unfoldable pub is_expired : ℕ → ActivityPubEndpointInfo → Bool
is_expired now info = ltb (info.last_updated + info.ttl * second) now

unfoldable pub new_peer_endpoint_registry : ℕ → PeerEndpointRegistry
new_peer_endpoint_registry now = record { peers = []; last_sync = now; version = codes "1.0" }

unfoldable pub add_peer : ℕ → ActivityPubEndpointInfo → PeerEndpointRegistry → PeerEndpointRegistry
unfolding Dict.put
add_peer now info r = record r { peers = Dict.put info.peer_id info r.peers; last_sync = now }

unfoldable pub get_peer : Str → PeerEndpointRegistry → Option ActivityPubEndpointInfo
unfolding Dict.get
get_peer id r = Dict.get id r.peers

unfoldable pub remove_peer : ℕ → Str → PeerEndpointRegistry → PeerEndpointRegistry
unfolding Dict.remove
remove_peer now id r = record r { peers = Dict.remove id r.peers; last_sync = now }

abbrev pub is_active : ℕ → ActivityPubEndpointInfo → Bool
is_active now info = if is_expired now info then false else true

unfoldable pub get_active_peers : ℕ → PeerEndpointRegistry → Dict ActivityPubEndpointInfo
unfolding Dict.retain is_expired
get_active_peers now r = Dict.retain (is_active now) r.peers

-- How many entries the loop of `CleanupExpired` deletes.
unfoldable pub count_expired : ℕ → Dict ActivityPubEndpointInfo → ℕ
unfolding is_expired
count_expired now [] = 0
count_expired now ((k, info) ∷ m) =
    let rest = count_expired now m in if is_expired now info then rest + 1 else rest

-- `sync` is the reading for `LastSync`, taken only if something was deleted.
unfoldable pub cleanup_expired : ℕ → ℕ → PeerEndpointRegistry → ℕ × PeerEndpointRegistry
unfolding count_expired Dict.retain is_expired
cleanup_expired now sync r =
    let count = count_expired now r.peers in
    (
      count,
      record r {
        peers = Dict.retain (is_active now) r.peers;
        last_sync = if ltb 0 count then sync else r.last_sync;
      },
    )
