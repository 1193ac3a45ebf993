-- ===== src/Bootstrap/Lifecycle.antt =====
-- station/frame/core/plugin/native/subserver/bootstrap/bootstrap.go: making the host, Init, Start and Stop.
-- What libp2p, the store and mDNS do in a call is an argument of its function. The goroutine that bootstraps
-- the DHT at each tick is not modelled. A call on a host or a DHT that was never made is a run-time panic,
-- the error `nil_pointer`.
use peers_touch_go.Prelude.{
  Bool, true, false, List, [], ◌∷◌, Option, none, some, Str, if◌then◌else◌, ◌≡◌, ◌⊎◌, arith, refl,
}
use peers_touch_go.Prelude.Result.{Result, ok, err, ◌>>=◌}
use peers_touch_go.Server.{Status, unset, stopped, running, error, is_running}

pub data Error : Type 0 where
  key_failed listen_address_invalid host_failed dht_failed : Error
  no_store migration_failed mdns_failed already_running dht_close_failed host_close_failed : Error
  nil_pointer : Error

-- The fields of the options that are read here.
pub record HostConfig : Type 0 where
  pub private_key : Option Str
  pub listen_multi_addrs : List Str
  pub listen_addrs : List Str
  pub enable_mdns : Bool

-- The options that libp2p is given: without addresses it takes its own.
pub record HostOptions : Type 0 where
  pub identity : Str
  pub addrs : Option (List Str)

-- libp2p: a new key, the parser of addresses, the host, and a DHT on it.
pub record Libp2p : Type 0 where
  pub generate_key : Option Str
  pub new_multiaddr : Str → Option Str
  pub new_host : HostOptions → Bool
  pub new_dht : HostOptions → Bool

abbrev pub cons_parsed : Option Str → Result Error (List Str) → Result Error (List Str)
cons_parsed none rest = err listen_address_invalid
cons_parsed (some a) rest = rest >>= λ l. ok (a ∷ l)

unfoldable pub parse_all : (Str → Option Str) → List Str → Result Error (List Str)
parse_all parse [] = ok []
parse_all parse (a ∷ l) = cons_parsed (parse a) (parse_all parse l)

abbrev pub some_key : Option Str → Result Error Str
some_key none = err key_failed
some_key (some k) = ok k

abbrev pub identity_of : Libp2p → Option Str → Result Error Str
identity_of l (some k) = ok k
identity_of l none = some_key l.generate_key

abbrev pub listening : Libp2p → List Str → List Str → Result Error (Option (List Str))
listening l (m ∷ ms) texts = ok (some (m ∷ ms))
listening l [] [] = ok none
listening l [] (t ∷ ts) = parse_all l.new_multiaddr (t ∷ ts) >>= λ addrs. ok (some addrs)

-- A host without a DHT is closed again.
unfoldable pub create_host : Libp2p → HostConfig → Result Error HostOptions
unfolding parse_all
create_host l c = identity_of l c.private_key >>= λ k.
    listening l c.listen_multi_addrs c.listen_addrs >>= λ addrs.
    let o : HostOptions = record { identity = k; addrs = addrs } in
    if l.new_host o then (if l.new_dht o then ok o else err dht_failed) else err host_failed

pub record SubServer : Type 0 where
  pub config : HostConfig
  pub host : Option HostOptions
  pub host_open : Bool
  pub dht_open : Bool
  pub mdns_running : Bool
  pub status : Status

unfoldable pub new_bootstrap_server : HostConfig → SubServer
new_bootstrap_server c = record {
  config = c;
  host = none;
  host_open = false;
  dht_open = false;
  mdns_running = false;
  status = unset;
}

-- Whether the store is there, the tables are made, and a service of mDNS is made and starts.
pub record Outside : Type 0 where
  pub store_there : Bool
  pub migrated : Bool
  pub mdns_starts : Bool

abbrev pub start_mdns : Outside → SubServer → Option Error × SubServer
start_mdns w s =
    if s.config.enable_mdns
    then (if w.mdns_starts then (none, record s { mdns_running = true }) else (some mdns_failed, s))
    else (none, s)

abbrev pub with_host : Outside → SubServer → Result Error HostOptions → Option Error × SubServer
with_host w s (err e) = (some e, record s { host = none; host_open = false; dht_open = false })
with_host w s (ok o) = start_mdns w (record s { host = some o; host_open = true; dht_open = true })

unfoldable pub init : Outside → Libp2p → SubServer → Option Error × SubServer
unfolding create_host
init w l s =
    if w.store_there
    then (if w.migrated then with_host w s (create_host l s.config) else (some migration_failed, s))
    else (some no_store, s)

-- The id of the host is logged at the end.
abbrev pub log_id : SubServer → Option HostOptions → Option Error × SubServer
log_id s none = (some nil_pointer, s)
log_id s (some o) = (none, s)

unfoldable pub start : SubServer → Option Error × SubServer
start s =
    if is_running s.status
    then (some already_running, s)
    else log_id (record s { status = running }) s.host

abbrev pub close_host : Bool → SubServer → Option Error × SubServer
close_host true s = (none, record s { host_open = false; status = stopped })
close_host false s = (some host_close_failed, record s { status = error })

-- Whether the DHT and the host close. An error of mDNS is only logged.
abbrev pub close_all : Bool → Bool → SubServer → Option HostOptions → Option Error × SubServer
close_all dht_closes host_closes s none = (some nil_pointer, s)
close_all dht_closes host_closes s (some o) =
    if dht_closes
    then close_host host_closes (record s { dht_open = false; mdns_running = false })
    else (some dht_close_failed, record s { status = error })

unfoldable pub stop : Bool → Bool → SubServer → Option Error × SubServer
stop dht_closes host_closes s = close_all dht_closes host_closes s s.host

-- A server as it is made, and after any calls, whatever they meet.
pub data Reaches : SubServer → Type 0 where
  made : (c : HostConfig) → Reaches (new_bootstrap_server c)
  initialised : (w : Outside) (l : Libp2p) (s : SubServer) → Reaches s → Reaches (init w l s).1
  started : (s : SubServer) → Reaches s → Reaches (start s).1
  stopping : (d h : Bool) (s : SubServer) → Reaches s → Reaches (stop d h s).1

-- A DHT that is open stands on a host that is open, and mDNS runs only where it is enabled.
pub record IsConsistent (s : SubServer) : Type 0 where
  pub dht_on_host : s.dht_open ≡ true → s.host_open ≡ true
  pub mdns_enabled : s.mdns_running ≡ true → s.config.enable_mdns ≡ true

with_host-IsConsistent :
    (w : Outside) (s : SubServer) (r : Result Error HostOptions)
    → IsConsistent s
    → IsConsistent (with_host w s r).1
with_host-IsConsistent w s (err e) c = ground arith
with_host-IsConsistent w s (ok o) c = ground arith

init-IsConsistent :
    (w : Outside) (l : Libp2p) (s : SubServer) → IsConsistent s → IsConsistent (init w l s).1
unfolding init
init-IsConsistent w l s c = ground (arith, with_host-IsConsistent w s (create_host l s.config) c)

log_id-same : (s : SubServer) (o : Option HostOptions) → (log_id s o).1 ≡ s
log_id-same s none = refl
log_id-same s (some o) = refl

start-IsConsistent : (s : SubServer) → IsConsistent s → IsConsistent (start s).1
unfolding start
start-IsConsistent s c = ground (arith, log_id-same (record s { status = running }) s.host)

close_all-IsConsistent :
    (d h : Bool) (s : SubServer) (o : Option HostOptions)
    → IsConsistent s
    → IsConsistent (close_all d h s o).1
close_all-IsConsistent d h s none c = c
close_all-IsConsistent d h s (some o) c = ground arith

stop-IsConsistent : (d h : Bool) (s : SubServer) → IsConsistent s → IsConsistent (stop d h s).1
unfolding stop
stop-IsConsistent d h s c = close_all-IsConsistent d h s s.host c

-- In whatever order Init, Start and Stop are called on a new server, and whatever fails in them, an open
-- DHT stands on an open host, and mDNS runs only where it is enabled.
pub Reaches-IsConsistent : (s : SubServer) → Reaches s → IsConsistent s
unfolding new_bootstrap_server
Reaches-IsConsistent _ (made c) = ground arith
Reaches-IsConsistent _ (initialised w l s r) = init-IsConsistent w l s (Reaches-IsConsistent s r)
Reaches-IsConsistent _ (started s r) = start-IsConsistent s (Reaches-IsConsistent s r)
Reaches-IsConsistent _ (stopping d h s r) = stop-IsConsistent d h s (Reaches-IsConsistent s r)

-- A Start after a Stop of a server with a host, where the Stop has no error, says that the server runs, on
-- a host and a DHT that stay closed.
pub start-stop :
    (d h : Bool) (s : SubServer) (o : HostOptions)
    → s.host ≡ some o
    → (stop d h s).0 ≡ none
    → start (stop d h s).1 ≡ (
      none,
      record s { host_open = false; dht_open = false; mdns_running = false; status = running },
    )
unfolding start stop
start-stop true true s o k e = rw k refl
start-stop true false s o k e = absurd (let z = rw k at e in ground arith)
start-stop false h s o k e = absurd (let z = rw k at e in ground arith)

-- Where the DHT or the host does not close, Stop leaves the state `error`, in which a Start succeeds; where
-- it is the DHT, the host is not closed.
pub stop_failed :
    (d h : Bool) (s : SubServer) (o : HostOptions)
    → s.host ≡ some o
    → (d ≡ false) ⊎ (h ≡ false)
    → ((stop d h s).1.status ≡ error)
      × ((stop d h s).1.host_open ≡ s.host_open)
      × ((start (stop d h s).1).0 ≡ none)
unfolding start stop
stop_failed d h s o k e = rw k (ground arith)
