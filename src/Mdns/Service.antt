-- ===== src/Mdns/Service.antt =====
-- station/frame/core/plugin/native/internal/mdns/mdns.go: Start, Stop, Watch, AdvertiseNode and one
-- discovery. `accepts` says of which zones hashicorp/mdns makes a server; an error of its shutdown is
-- only logged. The calls are taken one after the other, each with its goroutines' ends waited for.
pub mod Lifecycle
pub mod Delivery
use peers_touch_go.Prelude.{
  ℕ, Bool, true, false, List, [], ◌∷◌, ◌++◌, Option, none, some, Str, codes, str_eq, ltb,
  if◌then◌else◌, ◌≡◌,
}
use peers_touch_go.Prelude.Int.{ℤ, pos, negsuc}
use peers_touch_go.NetworkId.{Codec}
use peers_touch_go.Mdns.{
  Options, MdnsService, Zone, Error, already_running, not_running, server_failed, node_required,
  default_port,
}
use peers_touch_go.Mdns.Records.{
  Node, build_txt_records, ServiceEntry, Peer, Converted, skipped, crashed, converted,
  entry_to_peer,
}

-- The error that a call returns, if any, and the service after it.
abbrev pub Called : Type 0
Called = Option Error × MdnsService

abbrev pub server_port : ℤ → ℤ
server_port (pos n) = if ltb 0 n then pos n else pos default_port
server_port (negsuc n) = pos default_port

abbrev pub zone_of : Options → Zone
zone_of o = record {
  namespace = o.namespace;
  service = o.service;
  domain = o.domain;
  host_name = o.host_name;
  port = server_port o.port;
  ips = o.ips;
  txt = o.txt;
}

abbrev pub set_txt : List Str → MdnsService → MdnsService
set_txt records s = record s { options = record s.options { txt = records } }

module _ (c : Codec) (accepts : Zone → Bool) where
  unfoldable pub start : MdnsService → Called
  start s =
      if s.running
      then (some already_running, s)
      else if accepts (zone_of s.options)
      then (none, record s { running = true; ticking = true; announced = some (zone_of s.options) })
      else (some server_failed, s)

  unfoldable pub stop : MdnsService → Called
  stop s =
      if s.running
      then (none, record s { cancelled = true; running = false; ticking = false; announced = none })
      else (some not_running, s)

  unfoldable pub watch : MdnsService → MdnsService
  watch s = record s { watched = true }

  -- `s.Start()` unless `s.Stop()` failed.
  abbrev pub then_start : Called → Called
  then_start (some e, s) = (some e, s)
  then_start (none, s) = start s

  unfoldable pub advertise_node : Option Node → MdnsService → Called
  unfolding start stop build_txt_records
  advertise_node none s = (some node_required, s)
  advertise_node (some n) s =
      let t = set_txt (build_txt_records c n) s in
      if t.running then then_start (stop t) else (none, t)

-- What the `select` of a discovery chooses, one after the other; a closed channel is `finished`.
pub data Choice : Type 0 where
  got : Option ServiceEntry → Choice
  finished shut_down : Choice

pub data Ending : Type 0 where
  completed interrupted panicked waiting : Ending

abbrev pub own_name : Options → Str
own_name o = o.namespace ++ b'.' ∷ o.service ++ b'.' ∷ o.domain

module _ (capacity : ℕ → ℕ) where
  abbrev pub visit : Str → Option ServiceEntry → Converted
  visit own none = skipped
  visit own (some e) = if str_eq e.name own then skipped else entry_to_peer capacity e

  abbrev pub deliver : Bool → Converted → List Peer × Ending → List Peer × Ending
  deliver watched skipped rest = rest
  deliver watched crashed rest = ([], panicked)
  deliver true (converted p) (ps, e) = (p ∷ ps, e)
  deliver false (converted p) rest = rest

  -- The peers given to the callback, in order, and how the discovery ends.
  unfoldable pub perform_discovery : MdnsService → List Choice → List Peer × Ending
  unfolding entry_to_peer str_eq
  perform_discovery s [] = ([], waiting)
  perform_discovery s (finished ∷ l) = ([], completed)
  perform_discovery s (shut_down ∷ l) = ([], interrupted)
  perform_discovery s (got e ∷ l) =
      deliver s.watched (visit (own_name s.options) e) (perform_discovery s l)
