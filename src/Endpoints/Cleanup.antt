-- ===== src/Endpoints/Cleanup.antt =====
-- What is in the registry before and after a cleanup.
use peers_touch_go.Prelude.{
  ℕ, ◌+◌, ◌≡◌, refl, List, [], ◌∷◌, some, Str, arith, ltb, if◌then◌else◌, length, str_eq_iff,
}
use peers_touch_go.Prelude.Dict
use peers_touch_go.Prelude.Dict.{
  Dict, Distinct, only_if, get-put, get-remove, get-retain, put-Distinct, remove-Distinct,
  retain-Distinct,
}
use peers_touch_go.Endpoints.{
  ActivityPubEndpointInfo, PeerEndpointRegistry, is_active, add_peer, get_peer, remove_peer,
  get_active_peers, count_expired, cleanup_expired, new_peer_endpoint_registry,
}

count_expired-retain :
    (now : ℕ) (m : Dict ActivityPubEndpointInfo)
    → count_expired now m + length (Dict.retain (is_active now) m) ≡ length m
unfolding count_expired Dict.retain
count_expired-retain now [] = refl
count_expired-retain now ((k, info) ∷ m) = ground (arith, count_expired-retain now m)

-- `CleanupExpired` leaves exactly what `GetActivePeers` returned, returns the number of peers that it
-- deleted, and sets `LastSync` exactly if that is not 0.
pub cleanup_expired_lem :
    (now sync : ℕ) (r : PeerEndpointRegistry)
    → let (count, r') = cleanup_expired now sync r in
      (r'.peers ≡ get_active_peers now r)
      × (count + length r'.peers ≡ length r.peers)
      × (r'.last_sync ≡ (if ltb 0 count then sync else r.last_sync))
unfolding cleanup_expired get_active_peers
cleanup_expired_lem now sync r = (refl, count_expired-retain now r.peers, refl)

-- A peer is found after a cleanup exactly if it was found before and had not expired.
pub get_peer-cleanup_expired :
    (now sync : ℕ) (id : Str) (r : PeerEndpointRegistry)
    → Distinct r.peers
    → get_peer id (cleanup_expired now sync r).1 ≡ only_if (is_active now) (get_peer id r)
unfolding get_peer cleanup_expired
get_peer-cleanup_expired now sync id r d = get-retain (is_active now) id r.peers d

pub data Call : Type 0 where
  adds : ℕ → ActivityPubEndpointInfo → Call
  removes : ℕ → Str → Call
  cleanups : ℕ → ℕ → Call

unfoldable pub step : Call → PeerEndpointRegistry → PeerEndpointRegistry
unfolding add_peer remove_peer cleanup_expired
step (adds now info) r = add_peer now info r
step (removes now id) r = remove_peer now id r
step (cleanups now sync) r = (cleanup_expired now sync r).1

unfoldable pub run : List Call → PeerEndpointRegistry → PeerEndpointRegistry
unfolding step
run [] r = r
run (c ∷ cs) r = run cs (step c r)

-- One entry to a peer, under the peer's own id.
pub record IsValid (r : PeerEndpointRegistry) : Type 0 where
  pub distinct : Distinct r.peers
  pub keyed :
      (id : Str) (info : ActivityPubEndpointInfo) → get_peer id r ≡ some info → info.peer_id ≡ id

step-IsValid : (c : Call) (r : PeerEndpointRegistry) → IsValid r → IsValid (step c r)
unfolding step get_peer add_peer remove_peer cleanup_expired
step-IsValid (adds now info) r v = record {
  distinct = put-Distinct info.peer_id info r.peers v.distinct;
  keyed = λ id x h.
      ground
        (arith, get-put info.peer_id id info r.peers, v.keyed id x, str_eq_iff info.peer_id id);
}
step-IsValid (removes now gone) r v = record {
  distinct = remove-Distinct gone r.peers v.distinct;
  keyed = λ id x h. ground (arith, get-remove gone id r.peers, v.keyed id x);
}
step-IsValid (cleanups now sync) r v = record {
  distinct = retain-Distinct (is_active now) r.peers v.distinct;
  keyed = λ id x h. ground (arith, get-retain (is_active now) id r.peers v.distinct, v.keyed id x);
}

run-IsValid : (cs : List Call) (r : PeerEndpointRegistry) → IsValid r → IsValid (run cs r)
unfolding run
run-IsValid [] r v = v
run-IsValid (c ∷ cs) r v = run-IsValid cs (step c r) (step-IsValid c r v)

-- After any calls on a new registry each peer is stored once, under its own id.
pub run-registry-IsValid :
    (now : ℕ) (cs : List Call) → IsValid (run cs (new_peer_endpoint_registry now))
unfolding new_peer_endpoint_registry get_peer Dict.get
run-registry-IsValid now cs =
    run-IsValid cs (new_peer_endpoint_registry now) (record { distinct = tt; keyed = λ id x h. cc })
