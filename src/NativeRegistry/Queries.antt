-- ===== src/NativeRegistry/Queries.antt =====
-- station/frame/core/plugin/native/registry/native.go: Query and listPeers. The store of the DHT is read
-- through `Network`; the time is an argument in nanoseconds.
pub mod Listed
use peers_touch_go.Prelude.{
  ℕ, ◌+◌, ◌-◌, ◌*◌, ◌^◌, Bool, true, false, ◌||◌, List, [], ◌∷◌, ◌++◌, Option, none, some, Str,
  codes, str_eq, any, ltb, if◌then◌else◌, ◌≡◌,
}
use peers_touch_go.Prelude.Dict
use peers_touch_go.Prelude.Dict.{Dict}
use peers_touch_go.Prelude.Result.{Result, ok, err}
use peers_touch_go.Mdns.Records.{join}
use peers_touch_go.NativeRegistry.{
  Network, NativeRegistry, Registration, Peer, Value, text, texts, network_namespace, peer_key,
}
use peers_touch_go.NativeRegistry.Bootstrap.{is_bootstrap_node}
use peers_touch_go.NativeRegistry.Registering.{or_empty, TurnAnswers, refresh_turn}

-- The text of whose CID the providers are asked for.
abbrev pub listed_text : Str
listed_text = network_namespace ++ codes ":peers-node"

abbrev pub marked_dht : Peer → Peer
marked_dht p = record p {
  metadata = some (Dict.put (codes "registerType") (text (codes "dht")) (or_empty p.metadata));
}

module _ (n : Network) where
  abbrev pub decode_peer : Option Str → Option Peer
  decode_peer none = none
  decode_peer (some data_) = elim (n.unmarshal data_) [ none ↦ none | some p ↦ some (marked_dht p) ]

  abbrev pub lookup : NativeRegistry → List Str → Str → Option Peer
  lookup r seen id =
      if str_eq id n.self || is_bootstrap_node n id r
      then none
      else if any (str_eq id) seen
      then none
      else decode_peer (n.get_value (peer_key id))

  abbrev pub see : Option Peer → Str → List Str → List Str
  see none id seen = seen
  see (some p) id seen = id ∷ seen

  abbrev pub prepend : Option Peer → List Peer → List Peer
  prepend none ps = ps
  prepend (some p) ps = p ∷ ps

  -- The loop over the providers, with the peers found and the ids seen.
  unfoldable pub provided : NativeRegistry → List Str → List Str → List Peer × List Str
  unfolding any str_eq is_bootstrap_node Dict.put
  provided r seen [] = ([], seen)
  provided r seen (id ∷ ids) =
      let p = lookup r seen id in
      let rest = provided r (see p id seen) ids in (prepend p rest.0, rest.1)

  abbrev pub connected_peer : Str → Peer
  connected_peer id = record {
    id = [];
    name = id;
    version = [];
    metadata = some (
        (codes "registerType", text (codes "connected"))
        ∷ (codes "address", texts (n.sort (n.peer_addrs id)))
        ∷ []);
  }

  unfoldable pub direct : List Str → List Str → List Peer
  unfolding any str_eq
  direct seen [] = []
  direct seen (id ∷ ids) =
      let rest = direct seen ids in if any (str_eq id) seen then rest else connected_peer id ∷ rest

  pub data Error : Type 0 where
    no_cid undecodable_id peer_not_found unmarshal_failed : Error

  -- `makes_cid`: the CID can be made.
  unfoldable pub list_peers : Bool → NativeRegistry → Result Error (List Peer)
  unfolding provided direct
  list_peers makes_cid r =
      let (ps, seen) = provided r [] (n.providers listed_text) in
      if makes_cid then ok (ps ++ direct seen n.connected) else err no_cid

  abbrev pub registration_of : Peer → Registration
  registration_of p = record {
    id = p.id;
    name = p.name;
    kind = codes "peer";
    namespaces = codes "dht" ∷ [];
    addresses = [];
    metadata = p.metadata;
  }

  abbrev pub registrations : List Peer → List Registration
  registrations [] = []
  registrations (p ∷ ps) = registration_of p ∷ registrations ps

  abbrev pub listed : Result Error (List Peer) → Result Error (List Registration)
  listed (err e) = err e
  listed (ok ps) = ok (registrations ps)

  -- The registration of the host itself.
  abbrev pub own_registration : Registration
  own_registration = record {
    id = n.self;
    name = n.self;
    kind = codes "peer";
    namespaces = codes "local" ∷ [];
    addresses = n.host_addrs;
    metadata = some ((codes "address", text (join n.host_addrs)) ∷ []);
  }

  -- The options that a query reads.
  pub record QueryOptions : Type 0 where
    pub id : Str
    pub me : Bool
    pub name : Str

  abbrev pub refreshed : ℕ → TurnAnswers → NativeRegistry → NativeRegistry
  refreshed now t r =
      if ltb (8 * 10 ^ 9) (now - r.turn_update_time) then refresh_turn now t r else r

  abbrev pub Answer : Type 0
  Answer = Result Error (List Registration) × NativeRegistry

  abbrev pub with_turn : Registration → NativeRegistry → Answer
  with_turn g r =
      (ok (record g { addresses = r.turn_relay_addresses ++ r.turn_stun_addresses } ∷ []), r)

  abbrev pub found_peer : ℕ → TurnAnswers → NativeRegistry → Option Peer → Answer
  found_peer now t r none = (err unmarshal_failed, r)
  found_peer now t r (some p) = with_turn (registration_of p) (refreshed now t r)

  abbrev pub found_value : ℕ → TurnAnswers → NativeRegistry → Option Str → Answer
  found_value now t r none = (ok [], r)
  found_value now t r (some data_) = found_peer now t r (n.unmarshal data_)

  abbrev pub with_target : ℕ → TurnAnswers → NativeRegistry → Str → Option Str → Answer
  with_target now t r id none = (err undecodable_id, r)
  with_target now t r id (some target) =
      if n.find_peer target
      then found_value now t r (n.get_value (peer_key id))
      else (err peer_not_found, r)

  -- A query by name lists all peers, as one without an id does.
  abbrev pub by_id : Bool → ℕ → TurnAnswers → NativeRegistry → Str → Answer
  by_id makes_cid now t r [] = (listed (list_peers makes_cid r), r)
  by_id makes_cid now t r (c ∷ s) = with_target now t r (c ∷ s) (n.decode_id (c ∷ s))

  unfoldable pub query : Bool → ℕ → TurnAnswers → QueryOptions → NativeRegistry → Answer
  unfolding list_peers refresh_turn join
  query makes_cid now t q r =
      if q.me then (ok (own_registration ∷ []), r) else by_id makes_cid now t r q.id
