-- ===== src/NativeRegistry/Registering.antt =====
-- station/frame/core/plugin/native/registry: what native.go registers and deregisters, the records of
-- store.go, and the refreshing of TURN addresses. The goroutine of Register, which calls `register` at
-- once and then at each tick, is its sequence of calls; errors' texts stand as constructors.
pub mod Keys
pub mod Turn
use peers_touch_go.Prelude.{
  ℕ, ◌+◌, Bool, true, false, List, [], ◌∷◌, ◌++◌, Option, none, some, Str, codes, ◌==◌,
  if◌then◌else◌, ◌≡◌,
}
use peers_touch_go.Prelude.Dict
use peers_touch_go.Prelude.Dict.{Dict}
use peers_touch_go.NativeRegistry.{
  Network, NativeRegistry, Registration, Peer, Value, text, network_namespace,
  network_bootstrap_namespace, peer_key,
}

pub data Error : Type 0 where
  id_required name_required registration_required no_cid marshal_failed put_failed : Error
  record_required no_database database_failed : Error

abbrev pub or_empty : Option (Dict Value) → Dict Value
or_empty none = []
or_empty (some m) = m

abbrev pub with_peer_id : Network → Registration → Registration
with_peer_id n r = record r {
  metadata = some (Dict.put (codes "ptn:peerId") (text n.self) (or_empty r.metadata));
}

-- The registration is changed in place; a nil map is replaced first.
abbrev pub check_name : Network → Registration → Str → Option Error × Registration
check_name n r [] = (some name_required, record r { metadata = some (or_empty r.metadata) })
check_name n r (c ∷ s) = (none, with_peer_id n r)

abbrev pub check_id : Network → Registration → Str → Option Error × Registration
check_id n r [] = (some id_required, record r { metadata = some (or_empty r.metadata) })
check_id n r (c ∷ s) = check_name n r r.name

unfoldable pub before_register : Network → Registration → Option Error × Registration
unfolding Dict.put
before_register n r = check_id n r r.id

pub record RegisterRecord : Type 0 where
  pub id : ℕ
  pub peer_id : Str
  pub peer_name : Str
  pub libp2p_id : Str
  pub version : Str
  pub end_station_map : Dict Value
  pub signature : Str

pub data Row : Type 0 where
  found : RegisterRecord → Row
  not_found failed : Row

-- What is written to the database, or why nothing is.
pub data Write : Type 0 where
  create update : RegisterRecord → Write
  refused : Error → Write

abbrev pub write_row : RegisterRecord → Row → Write
write_row r not_found = create r
write_row r failed = refused database_failed
write_row r (found old) = update (record old {
  peer_name = r.peer_name;
  end_station_map = r.end_station_map;
  version = r.version;
  signature = r.signature;
  libp2p_id = r.libp2p_id;
})

-- With whether the store gives its database, and what the query by peer id finds.
unfoldable pub set_register_record : Bool → (Str → Row) → Option RegisterRecord → Write
set_register_record connected rows none = refused record_required
set_register_record connected rows (some r) =
    if connected then write_row r (rows r.peer_id) else refused no_database

-- What `register` depends on: whether a CID can be made, the database, the size of the routing table, the
-- signed encoding of a peer, and whether the DHT takes a value.
pub record Outside : Type 0 where
  pub makes_cid : Str → Bool
  pub connected : Bool
  pub rows : Str → Row
  pub table_size : ℕ
  pub marshal : Peer → Option Str
  pub takes : Str → Str → Bool

-- What one call announces, writes and puts into the DHT; errors of the first two are only logged.
pub record Registered : Type 0 where
  pub error : Option Error
  pub announced : Option Str
  pub written : Option Write
  pub stored : Option (Str × Str)

abbrev pub stopped : Error → Registered
stopped e = record { error = some e; announced = none; written = none; stored = none }

abbrev pub announcement : Str → Str
announcement id = network_bootstrap_namespace ++ b':' ∷ id

abbrev pub put_data : Outside → Str → Registered → Option Str → Registered
put_data o id done none = record done { error = some marshal_failed }
put_data o id done (some value) =
    if o.takes (peer_key id) value
    then record done { stored = some (peer_key id, value) }
    else record done { error = some put_failed }

abbrev pub peer_of_registration : Registration → Peer
peer_of_registration r = record {
  id = r.id;
  name = r.name;
  version = codes "0.0.1";
  metadata = r.metadata;
}

abbrev pub record_of : Network → Registration → RegisterRecord
record_of n r = record {
  id = 0;
  peer_id = r.id;
  peer_name = r.name;
  libp2p_id = n.self;
  version = codes "0.0.1";
  end_station_map = [];
  signature = [];
}

unfoldable pub register : Network → Outside → Option Registration → Registered
unfolding set_register_record
register n o none = stopped registration_required
register n o (some r) =
    let done : Registered = record {
      error = none;
      announced = some (announcement r.id);
      written = some (set_register_record o.connected o.rows (some (record_of n r)));
      stored = none;
    } in
    if o.makes_cid (announcement r.id)
    then if o.table_size == 0
      then done
      else put_data o r.id done (o.marshal (peer_of_registration r))
    else stopped no_cid

abbrev pub forget : Option Peer → Dict Peer → Dict Peer
forget none m = m
forget (some p) m = Dict.remove p.name m

abbrev pub put_error : Bool → Option Error
put_error true = none
put_error false = some put_failed

-- With whether the DHT takes the empty value.
unfoldable pub deregister :
    (Str → Str → Bool) → Str → NativeRegistry → Option Error × NativeRegistry
unfolding Dict.get Dict.remove
deregister takes id r =
    (put_error (takes (peer_key id) []), record r { peers = forget (Dict.get id r.peers) r.peers })

-- A relay socket, or the two kinds of errors of `Allocate`.
pub data Allocated : Type 0 where
  allocated : Str → Allocated
  already_allocated not_allocated : Allocated

-- What the TURN client answers; `client` is false where there is none yet and where `Get` fails.
pub record TurnAnswers : Type 0 where
  pub client : Bool
  pub allocation : Allocated
  pub mapped : Option Str

abbrev pub with_mapped : ℕ → Option Str → NativeRegistry → NativeRegistry
with_mapped now none r = r
with_mapped now (some a) r = record r {
  turn_stun_addresses = r.turn_stun_addresses ++ a ∷ [];
  turn_update_time = now;
}

abbrev pub with_allocation : ℕ → TurnAnswers → Allocated → NativeRegistry → NativeRegistry
with_allocation now t not_allocated r = r
with_allocation now t already_allocated r = with_mapped now t.mapped r
with_allocation now t (allocated a) r =
    with_mapped now t.mapped (record r { turn_relay_addresses = r.turn_relay_addresses ++ a ∷ [] })

-- The listening on the relay address is left out, since its error is only logged.
unfoldable pub refresh_turn : ℕ → TurnAnswers → NativeRegistry → NativeRegistry
refresh_turn now t r = if t.client then with_allocation now t t.allocation r else r
