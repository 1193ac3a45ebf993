-- ===== src/Endpoints/Tests.antt =====
-- A registry of two peers, one of which has expired.
use peers_touch_go.Prelude.{ℕ, ◌≡◌, refl, [], ◌∷◌, Str, str_eq, codes}
use peers_touch_go.Prelude.Dict
use peers_touch_go.Prelude.Dict.{only_if}
use peers_touch_go.Endpoints.{
  ActivityPubEndpointInfo, PeerEndpointRegistry, is_active, get_peer, cleanup_expired, second,
}
use peers_touch_go.Endpoints.Cleanup.{get_peer-cleanup_expired}

abbrev peer : Str → ℕ → ActivityPubEndpointInfo
peer id updated = record {
  peer_id = id;
  base_url = codes "https://example.org";
  endpoint_count = 0;
  endpoints = [];
  last_updated = updated;
  ttl = 3600;
}

abbrev two_peers : PeerEndpointRegistry
two_peers = record {
  peers = (codes "a", peer (codes "a") 0) ∷ (codes "b", peer (codes "b") second) ∷ [];
  last_sync = 0;
  version = codes "1.0";
}

two_peers-Distinct : Dict.Distinct two_peers.peers
unfolding Dict.get str_eq
two_peers-Distinct = (refl, (refl, tt))

abbrev hour_later : ℕ
hour_later = 3600000000001

kept_after_cleanup :
    get_peer (codes "a") (cleanup_expired hour_later hour_later two_peers).1
    ≡ only_if (is_active hour_later) (get_peer (codes "a") two_peers)
kept_after_cleanup =
    get_peer-cleanup_expired hour_later hour_later (codes "a") two_peers two_peers-Distinct
