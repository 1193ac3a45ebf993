-- ===== src/NativeRegistry/Bootstrap.antt =====
-- station/frame/core/plugin/native/registry/native.go: the bootstrap nodes that mDNS finds, and who is one.
-- The callback's connecting to a peer is left out, since its result is only logged.
pub mod Discovered
use peers_touch_go.Prelude.{
  ℕ, Bool, true, false, List, [], ◌∷◌, ◌++◌, Option, none, some, Str, codes, str_eq, if◌then◌else◌,
  any, ◌≡◌,
}
use peers_touch_go.Mdns.Records
use peers_touch_go.NativeRegistry.{Network, NativeRegistry}

-- The search and `append` of each loop over addresses.
unfoldable pub add_new : Str → List Str → List Str
unfolding any str_eq
add_new addr l = if any (str_eq addr) l then l else l ++ addr ∷ []

unfoldable pub add_all : List Str → List Str → List Str
unfolding add_new
add_all [] l = l
add_all (a ∷ addrs) l = add_all addrs (add_new a l)

module _ (n : Network) where
  abbrev pub full_addrs : Str → List Str → List Str
  full_addrs id [] = []
  full_addrs id (a ∷ addrs) = n.encapsulate a (codes "/p2p/" ++ id) ∷ full_addrs id addrs

  -- A `peer.AddrInfo` is an id with addresses.
  unfoldable pub add_bootstrap_node : Str → List Str → NativeRegistry → NativeRegistry
  unfolding add_all
  add_bootstrap_node id addrs r = record r {
    discovered = add_all (full_addrs id addrs) r.discovered;
  }

  abbrev pub parsed : List Str → List Str
  parsed [] = []
  parsed (a ∷ l) = elim (n.parse_addr a) [ none ↦ parsed l | some b ↦ b ∷ parsed l ]

  abbrev pub add_decoded : Option Str → List Str → NativeRegistry → NativeRegistry
  add_decoded none addrs r = r
  add_decoded (some id) addrs r = add_bootstrap_node id (parsed addrs) r

  -- The callback, on the type of each node of the peer.
  unfoldable pub on_discovered_nodes :
      Records.Peer → List Records.Node → NativeRegistry → NativeRegistry
  unfolding add_bootstrap_node str_eq
  on_discovered_nodes p [] r = r
  on_discovered_nodes p (x ∷ nodes) r = on_discovered_nodes p nodes (
      if str_eq x.kind (codes "bootstrap") then add_decoded (n.decode_id p.id) p.addresses r else r)

  abbrev pub on_discovered : Records.Peer → NativeRegistry → NativeRegistry
  on_discovered p r = on_discovered_nodes p p.nodes r

  abbrev pub all_bootstrap_nodes : NativeRegistry → List Str
  all_bootstrap_nodes r = r.bootstrap_nodes ++ n.default_bootstrap_peers

  -- The addresses that `BootstrapPeersFunc` turns into peers.
  unfoldable pub bootstrap_addrs : Bool → NativeRegistry → List Str
  unfolding add_all
  bootstrap_addrs mdns_enable r =
      if mdns_enable then add_all r.discovered (all_bootstrap_nodes r) else all_bootstrap_nodes r

  abbrev pub is_peer : Str → Option Str → Bool
  is_peer id none = false
  is_peer id (some j) = str_eq j id

  unfoldable pub is_bootstrap_node : Str → NativeRegistry → Bool
  unfolding any str_eq
  is_bootstrap_node id r = any (λ a. is_peer id (n.peer_of a)) (all_bootstrap_nodes r)
