-- ===== src/Mdns.antt =====
-- station/frame/core/plugin/native/internal/mdns: option.go and the service of mdns.go. What
-- hashicorp/mdns answers is an argument of each call: whether its server could be made, and what one
-- discovery delivers. A negative interval is not modelled.
pub mod Records
pub mod Service
pub mod Domain
mod Tests
use peers_touch_go.Prelude.{
  ℕ, ◌*◌, ◌^◌, ◌≤◌, ◌<◌, Bool, true, false, ◌||◌, ◌&&◌, List, [], ◌∷◌, ◌++◌, Str, codes, str_eq,
  ltb, leb, ◌==◌, if◌then◌else◌, length, take, keep, map, ◌+◌, Option, none, some,
}
use peers_touch_go.Prelude.Result.{Result, ok, err}
use peers_touch_go.Prelude.Int.{ℤ, pos, negsuc}

-- The field `node`, which nothing reads, is left out.
pub record Options : Type 0 where
  pub namespace : Str
  pub service : Str
  pub domain : Str
  pub host_name : Str
  pub port : ℤ
  pub ips : List Str
  pub txt : List Str
  pub discovery_interval : ℕ
  pub ttl : ℕ

abbrev pub second : ℕ
second = 10 ^ 9

abbrev pub default_service : Str
default_service = codes "_peers-touch._tcp"

abbrev pub default_domain : Str
default_domain = codes "local."

abbrev pub default_port : ℕ
default_port = 5353

abbrev pub default_discovery_interval : ℕ
default_discovery_interval = 30 * second

abbrev pub default_service_config : Options
default_service_config = record {
  namespace = [];
  service = default_service;
  domain = default_domain;
  host_name = [];
  port = pos 0;
  ips = [];
  txt = [];
  discovery_interval = 30 * second;
  ttl = 120 * second;
}

abbrev pub with_namespace : Str → Options → Options
with_namespace s o = record o { namespace = s }

abbrev pub with_service : Str → Options → Options
with_service s o = record o { service = s }

abbrev pub with_domain : Str → Options → Options
with_domain s o = record o { domain = s }

abbrev pub with_host_name : Str → Options → Options
with_host_name s o = record o { host_name = s }

abbrev pub with_port : ℤ → Options → Options
with_port p o = record o { port = p }

abbrev pub with_ips : List Str → Options → Options
with_ips l o = record o { ips = l }

abbrev pub with_txt : List Str → Options → Options
with_txt l o = record o { txt = l }

abbrev pub with_discovery_interval : ℕ → Options → Options
with_discovery_interval n o = record o { discovery_interval = n }

abbrev pub with_ttl : ℕ → Options → Options
with_ttl n o = record o { ttl = n }

unfoldable pub apply_options : Options → List (Options → Options) → Options
apply_options o [] = o
apply_options o (f ∷ fs) = apply_options (f o) fs

abbrev pub to_lower : ℕ → ℕ
to_lower c = if leb b'A' c && leb c b'Z' then c + 32 else c

abbrev pub is_name_char : ℕ → Bool
is_name_char c = (leb b'a' c && leb c b'z') || (leb b'0' c && leb c b'9')

-- The characters that are written to the builder. The namespace is taken to be ASCII.
unfoldable pub short_name : Str → Str
unfolding keep
short_name namespace =
    let short = if ltb 6 (length namespace) then take 6 namespace else namespace in
    keep is_name_char (map to_lower short)

-- The namespaces that share the standard domain.
abbrev pub is_standard : Str → Bool
is_standard [] = true
is_standard (c ∷ s) = str_eq (c ∷ s) (codes "peers-touch") || str_eq (c ∷ s) (codes "default")

unfoldable pub generate_dynamic_domain : Str → Str
unfolding short_name str_eq
generate_dynamic_domain namespace =
    if is_standard namespace
    then codes "local."
    else if ltb (length (short_name namespace)) 3
    then codes "local."
    else short_name namespace ++ codes ".local."

-- What `mdns.NewMDNSService` is called with.
pub record Zone : Type 0 where
  pub namespace : Str
  pub service : Str
  pub domain : Str
  pub host_name : Str
  pub port : ℤ
  pub ips : List Str
  pub txt : List Str

-- `cancelled`: the service's context is done; `ticking`: its ticker runs; `announced`: what the server
-- announces, until its shutdown.
pub record MdnsService : Type 0 where
  pub options : Options
  pub cancelled : Bool
  pub watched : Bool
  pub running : Bool
  pub ticking : Bool
  pub announced : Option Zone

pub data Error : Type 0 where
  namespace_required already_running not_running server_failed node_required : Error

abbrev pub default_text : Str → Str → Str
default_text [] d = d
default_text (c ∷ s) d = c ∷ s

abbrev pub port_or_default : ℤ → ℤ
port_or_default (pos n) = if n == 0 then pos default_port else pos n
port_or_default (negsuc n) = negsuc n

unfoldable pub with_defaults : Options → Options
unfolding generate_dynamic_domain str_eq
with_defaults o = record o {
  service = default_text o.service default_service;
  domain = if str_eq o.domain default_domain then generate_dynamic_domain o.namespace else o.domain;
  port = port_or_default o.port;
  discovery_interval =
      if o.discovery_interval == 0 then default_discovery_interval else o.discovery_interval;
}

abbrev pub make_service : Options → Str → Result Error MdnsService
make_service o [] = err namespace_required
make_service o (c ∷ s) = ok (record {
  options = with_defaults o;
  cancelled = false;
  watched = false;
  running = false;
  ticking = false;
  announced = none;
})

unfoldable pub new_mdns_service : List (Options → Options) → Result Error MdnsService
unfolding apply_options with_defaults
new_mdns_service opts =
    let o = apply_options default_service_config opts in make_service o o.namespace
