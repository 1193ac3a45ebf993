-- ===== src/PeerRoutes.antt =====
-- station/frame/touch: the routes of a peer. model/peer.go and SetPeerAddr of peer/peer.go are here, with
-- their handler in peer_router.go; Sessions is the connections that TouchHiTo opens, and Nodes the
-- handlers of nodes in peer_router.go. The database and the library's SplitHostPort are arguments; what
-- binding a request gives is one too.
pub mod Sessions
pub mod Nodes
mod Tests
use peers_touch_go.Prelude.{
  ℕ, ◌+◌, Bool, true, false, ◌||◌, ◌&&◌, List, [], ◌∷◌, ◌++◌, Option, none, some, Str, codes,
  str_eq, leb, if◌then◌else◌, map, ◌≡◌,
}
use peers_touch_go.Prelude.Result.{Result, ok, err}
use peers_touch_go.Prelude.Text.{trim_space, split}

pub record PeerAddressParam : Type 0 where
  pub peer_id : Str
  pub addr : Str
  pub kind : Str

pub data Error : Type 0 where
  empty_addr invalid_addr empty_kind invalid_kind : Error
  no_database peer_addr_exists database_failed : Error
  query_failed no_peer : Error

-- `strings.ToLower` of ASCII.
abbrev pub to_lower : Str → Str
to_lower s = map (λ c. if leb b'A' c && leb c b'Z' then c + 32 else c) s

abbrev pub is_valid_kind : Str → Bool
is_valid_kind k = str_eq k (codes "stun") || (str_eq k (codes "turn") || str_eq k (codes "http"))

abbrev pub check_kind : Str → Option Error
check_kind [] = some empty_kind
check_kind (c ∷ s) =
    if is_valid_kind (to_lower (trim_space (c ∷ s))) then none else some invalid_kind

-- With whether SplitHostPort splits a text.
abbrev pub check_addr : (Str → Bool) → Str → Str → Option Error
check_addr splits [] kind = some empty_addr
check_addr splits (c ∷ s) kind =
    if splits (trim_space (c ∷ s)) then check_kind kind else some invalid_addr

unfoldable pub check_peer_address : (Str → Bool) → PeerAddressParam → Option Error
unfolding trim_space str_eq
check_peer_address splits p = check_addr splits p.addr p.kind

-- The address is stored as it was sent, though it is checked without the spaces around it.
pub data Row : Type 0 where
  found not_found failed : Row

pub record AddressTable (S : Type 0) : Type 0 where
  pub connected : S → Bool
  pub first : PeerAddressParam → S → Row
  pub create : PeerAddressParam → S → Bool × S

module _ {S : Type 0} (d : AddressTable S) where
  abbrev pub created : Bool × S → Option Error × S
  created (true, s) = (none, s)
  created (false, s) = (some database_failed, s)

  abbrev pub with_first : PeerAddressParam → S → Row → Option Error × S
  with_first p s found = (some peer_addr_exists, s)
  with_first p s failed = (some database_failed, s)
  with_first p s not_found = created (d.create p s)

  unfoldable pub set_peer_addr : PeerAddressParam → S → Option Error × S
  set_peer_addr p s = if d.connected s then with_first p s (d.first p s) else (some no_database, s)

  -- The status of the answer, and its error; `none` for a body that does not bind.
  pub record Answer : Type 0 where
    pub status : ℕ
    pub error : Option Error

  abbrev pub set_answer : Option Error × S → Answer × S
  set_answer (none, s) = (record { status = 200; error = none }, s)
  set_answer (some peer_addr_exists, s) =
      (record { status = 409; error = some peer_addr_exists }, s)
  set_answer (some e, s) = (record { status = 500; error = some e }, s)

  abbrev pub checked_answer : PeerAddressParam → Option Error → S → Answer × S
  checked_answer p (some e) s = (record { status = 400; error = some e }, s)
  checked_answer p none s = set_answer (set_peer_addr p s)

  unfoldable pub set_peer_addr_handler : (Str → Bool) → Option PeerAddressParam → S → Answer × S
  unfolding check_peer_address set_peer_addr
  set_peer_addr_handler splits none s = (record { status = 400; error = none }, s)
  set_peer_addr_handler splits (some p) s = checked_answer p (check_peer_address splits p) s

-- `PeerAddrInfo`
pub record PeerAddrInfo : Type 0 where
  pub peer_id : Str
  pub addrs : List Str

-- What the registry's query for the host gives: ids with the text of their addresses.
unfoldable pub get_my_peer_infos : Result Error (List (Str × Str)) → Result Error PeerAddrInfo
unfolding split
get_my_peer_infos (err e) = err query_failed
get_my_peer_infos (ok []) = err no_peer
get_my_peer_infos (ok ((id, address) ∷ l)) =
    ok (record { peer_id = id; addrs = split b',' address })
