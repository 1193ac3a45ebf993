-- ===== src/Mdns/Records.antt =====
-- station/frame/core/plugin/native/internal/mdns/mdns.go: the TXT records of a node, and the peer that an
-- entry makes.
pub mod RoundTrip
pub mod Bounds
use peers_touch_go.Prelude.{
  ℕ, zero, suc, ◌+◌, ◌-◌, ◌≤◌, ◌<◌, Bool, true, false, List, [], ◌∷◌, ◌++◌, Option, none, some, Str,
  codes, str_eq, ltb, leb, ◌==◌, if◌then◌else◌, length, take, map,
}
use peers_touch_go.Prelude.Dict
use peers_touch_go.Prelude.Dict.{Dict}
use peers_touch_go.Prelude.Int.{ℤ, pos, negsuc}
use peers_touch_go.Prelude.Text.{cut, split, decimal}
use peers_touch_go.NetworkId.{NetworkId, Codec, to_text, version_1, type_peer}

-- `types.Node`, as far as it is read or written here.
pub record Node : Type 0 where
  pub id : Str
  pub kind : Str
  pub network_id : Option NetworkId
  pub name : Str
  pub addresses : List Str
  pub port : ℤ

-- A record `key=value`, unless the value is empty.
abbrev pub record_unless_empty : Str → Str → List Str
record_unless_empty key [] = []
record_unless_empty key (c ∷ s) = (key ++ b'=' ∷ c ∷ s) ∷ []

-- `strings.Join(l, ",")`
unfoldable pub join : List Str → Str
join [] = []
join (s ∷ []) = s
join (s ∷ t ∷ l) = s ++ b',' ∷ join (t ∷ l)

-- The loop over the addresses, with `current` the length so far.
unfoldable pub limit_addresses : ℕ → List Str → List Str
limit_addresses current [] = []
limit_addresses current (a ∷ l) =
    let rest = limit_addresses (current + (length a + 1)) l in
    if ltb 200 (current + length a + 1) then [] else a ∷ rest

unfoldable pub addresses_text : List Str → Str
unfolding join limit_addresses
addresses_text l = if ltb 200 (length (join l)) then join (limit_addresses 0 l) else join l

abbrev pub port_text : ℤ → Str
port_text (pos n) = if ltb 0 n then decimal n else []
port_text (negsuc n) = []

module _ (c : Codec) where
  abbrev pub network_id_text : Option NetworkId → Str
  network_id_text none = []
  network_id_text (some n) = to_text c n

  -- The texts of network ids and of ports are not empty. The final test of the total size only logs.
  unfoldable pub build_txt_records : Node → List Str
  unfolding addresses_text to_text decimal
  build_txt_records n =
      record_unless_empty (codes "nd_id") n.id
      ++ (record_unless_empty (codes "nd_tp") n.kind
          ++ (record_unless_empty (codes "nd_nm") n.name
              ++ (record_unless_empty (codes "nt_id") (network_id_text n.network_id)
                  ++ (record_unless_empty (codes "nd_pt") (port_text n.port)
                      ++ record_unless_empty (codes "addrs") (addresses_text n.addresses)))))

-- The `switch` of the parser.
unfoldable pub standard_key : Str → Str
unfolding str_eq
standard_key k =
    if str_eq k (codes "nd_id")
    then codes "node_id"
    else if str_eq k (codes "nd_tp")
    then codes "node_type"
    else if str_eq k (codes "nd_nm")
    then codes "node_name"
    else if str_eq k (codes "nt_id")
    then codes "network_id"
    else if str_eq k (codes "nd_pt")
    then codes "node_port"
    else if str_eq k (codes "addrs")
    then codes "addresses"
    else k

abbrev pub add_field : Option (Str × Str) → Dict Str → Dict Str
add_field none info = info
add_field (some (k, v)) info = Dict.put (standard_key k) v info

-- The loop of the parser: a later field takes the place of an earlier one with its key.
unfoldable pub parse_from : Dict Str → List Str → Dict Str
unfolding cut standard_key Dict.put
parse_from info [] = info
parse_from info (f ∷ fs) = parse_from (add_field (cut b'=' f) info) fs

unfoldable pub parse_txt_records : List Str → Dict Str
unfolding parse_from
parse_txt_records fields = parse_from [] fields

-- The text of each address that the entry has, and its port.
pub record ServiceEntry : Type 0 where
  pub name : Str
  pub addr_v4 : Option Str
  pub addr_v6 : Option Str
  pub port : ℕ
  pub info_fields : List Str

-- `types.Peer` without the version, which is "1.0.0", and the metadata that repeat the entry's name
-- and the time; `addresses` is that of the metadata.
pub record Peer : Type 0 where
  pub id : Str
  pub name : Str
  pub network_id : Option NetworkId
  pub nodes : List Node
  pub entry_name : Str
  pub addresses : List Str

pub data Converted : Type 0 where
  skipped crashed : Converted
  converted : Peer → Converted

-- `info[key]` of a `map[string]string`.
abbrev pub text_or_empty : Option Str → Str
text_or_empty none = []
text_or_empty (some s) = s

unfoldable pub field : Str → Dict Str → Str
unfolding Dict.get
field k info = text_or_empty (Dict.get k info)

abbrev pub address_text : Str → ℕ → Option Str → List Str
address_text start port none = []
address_text start port (some a) = (start ++ (a ++ (codes "/tcp/" ++ decimal port))) ∷ []

unfoldable pub entry_addresses : ServiceEntry → List Str
unfolding decimal
entry_addresses e =
    address_text (codes "/ip4/") e.port e.addr_v4 ++ address_text (codes "/ip6/") e.port e.addr_v6

abbrev pub zeros : ℕ → Str
zeros zero = []
zeros (suc n) = 0 ∷ zeros n

-- `capacity n`: that of the bytes which a conversion of a text of `n` bytes gives.
module _ (capacity : ℕ → ℕ) where
  -- `[]byte(s)[:20]` reaches to the capacity, over bytes that are 0, and panics past it. `none` within:
  -- no network id.
  abbrev pub network_id_of : Str → Option (Option NetworkId)
  network_id_of [] = some none
  network_id_of (x ∷ s) =
      let t = x ∷ s in
      if ltb (capacity (length t)) 20
      then none
      else some
          (some (record { version = version_1; kind = type_peer; hash = take 20 (t ++ zeros 20) }))

  abbrev pub split_unless_empty : Str → List Str
  split_unless_empty [] = []
  split_unless_empty (x ∷ s) = split b',' (x ∷ s)

  abbrev pub port_if_given : Str → ℕ → ℤ
  port_if_given [] port = pos 0
  port_if_given (x ∷ s) port = pos port

  abbrev pub nodes_of : ServiceEntry → Dict Str → Option NetworkId → Str → List Node
  nodes_of e info nid [] = []
  nodes_of e info nid (x ∷ kind) =
      record {
        id = field (codes "node_id") info;
        kind = x ∷ kind;
        network_id = nid;
        name = field (codes "node_name") info;
        addresses = split_unless_empty (field (codes "addresses") info);
        port = port_if_given (field (codes "node_port") info) e.port;
      }
      ∷ []

  abbrev pub peer_of : ServiceEntry → Dict Str → Option (Option NetworkId) → Converted
  peer_of e info none = crashed
  peer_of e info (some nid) = converted (record {
    id = field (codes "node_id") info;
    name = field (codes "node_name") info;
    network_id = nid;
    nodes = nodes_of e info nid (field (codes "node_type") info);
    entry_name = e.name;
    addresses = entry_addresses e;
  })

  abbrev pub convert : ServiceEntry → Dict Str → Str → Converted
  convert e info [] = skipped
  convert e info (x ∷ id) = peer_of e info (network_id_of (field (codes "network_id") info))

  unfoldable pub entry_to_peer : ServiceEntry → Converted
  unfolding parse_txt_records field entry_addresses split
  entry_to_peer e =
      let info = parse_txt_records e.info_fields in convert e info (field (codes "node_id") info)
