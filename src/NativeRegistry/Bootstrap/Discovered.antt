-- ===== src/NativeRegistry/Bootstrap/Discovered.antt =====
-- station/frame/core/plugin/native/registry/native.go: the discovered bootstrap nodes stand once each.
use peers_touch_go.Prelude.{
  Bool, true, false, List, [], ◌∷◌, ◌++◌, Option, none, some, Str, str_eq, str_eq_iff,
  if◌then◌else◌, any, ◌≡◌, arith, refl,
}
use peers_touch_go.Mdns.Records
use peers_touch_go.NativeRegistry.{Network, NativeRegistry}
use peers_touch_go.NativeRegistry.Bootstrap.{
  add_new, add_all, full_addrs, add_bootstrap_node, add_decoded, on_discovered_nodes, on_discovered,
}

abbrev pub holds : Str → List Str → Bool
unfolding any str_eq
holds a l = any (str_eq a) l

-- No text stands twice.
abbrev pub Once : List Str → Type 0
Once [] = Unit
Once (a ∷ l) = (any (str_eq a) l ≡ false) × Once l

any-append :
    (a b : Str) (l : List Str)
    → any (str_eq a) (l ++ b ∷ []) ≡ (if any (str_eq a) l then true else str_eq a b)
unfolding any
any-append a b [] = ground arith
any-append a b (x ∷ l) = ground (arith, any-append a b l)

append-Once : (a : Str) (l : List Str) → any (str_eq a) l ≡ false → Once l → Once (l ++ a ∷ [])
unfolding any
append-Once a [] h o = (refl, tt)
append-Once a (x ∷ l) h o =
    ground (arith, append-Once a l, any-append x a l, str_eq_iff x a, str_eq_iff a x)

add_new-Once : (a : Str) (l : List Str) → Once l → Once (add_new a l)
unfolding add_new
add_new-Once a l o = ground (arith, append-Once a l)

add_all-Once : (addrs l : List Str) → Once l → Once (add_all addrs l)
unfolding add_all
add_all-Once [] l o = o
add_all-Once (a ∷ addrs) l o = add_all-Once addrs (add_new a l) (add_new-Once a l o)

holds-add_new :
    (a b : Str) (l : List Str)
    → any (str_eq a) (add_new b l) ≡ (if any (str_eq a) l then true else str_eq a b)
unfolding add_new
holds-add_new a b l = ground (arith, any-append a b l, str_eq_iff a b)

-- One of the two lists holds it.
pub holds-add_all :
    (a : Str) (addrs l : List Str)
    → any (str_eq a) (add_all addrs l) ≡ (if any (str_eq a) l then true else any (str_eq a) addrs)
unfolding add_all any
holds-add_all a [] l = ground arith
holds-add_all a (b ∷ addrs) l =
    ground (arith, holds-add_all a addrs (add_new b l), holds-add_new a b l)

module _ (n : Network) where
  -- A registry as `NewRegistry` makes it, and after any discoveries.
  pub data Discovers : NativeRegistry → Type 0 where
    fresh : (r : NativeRegistry) → r.discovered ≡ [] → Discovers r
    added :
        (id : Str) (addrs : List Str) (r : NativeRegistry)
        → Discovers r
        → Discovers (add_bootstrap_node n id addrs r)
    watched :
        (p : Records.Peer) (r : NativeRegistry) → Discovers r → Discovers (on_discovered n p r)

  add_bootstrap_node-Once :
      (id : Str) (addrs : List Str) (r : NativeRegistry)
      → Once r.discovered
      → Once (add_bootstrap_node n id addrs r).discovered
  unfolding add_bootstrap_node
  add_bootstrap_node-Once id addrs r o = add_all-Once (full_addrs n id addrs) r.discovered o

  add_decoded-Once :
      (d : Option Str) (addrs : List Str) (r : NativeRegistry)
      → Once r.discovered
      → Once (add_decoded n d addrs r).discovered
  add_decoded-Once none addrs r o = o
  add_decoded-Once (some id) addrs r o = add_bootstrap_node-Once id _ r o

  on_discovered_nodes-Once :
      (p : Records.Peer) (nodes : List Records.Node) (r : NativeRegistry)
      → Once r.discovered
      → Once (on_discovered_nodes n p nodes r).discovered
  unfolding on_discovered_nodes
  on_discovered_nodes-Once p [] r o = o
  on_discovered_nodes-Once p (x ∷ nodes) r o =
      on_discovered_nodes-Once p nodes _
        (ground (arith, add_decoded-Once (n.decode_id p.id) p.addresses r))

  -- However often and in whatever order peers are discovered, each address stands once among the
  -- discovered bootstrap nodes.
  pub Discovers-Once : (r : NativeRegistry) → Discovers r → Once r.discovered
  Discovers-Once _ (fresh r e) = rw e tt
  Discovers-Once _ (added id addrs r d) = add_bootstrap_node-Once id addrs r (Discovers-Once r d)
  Discovers-Once _ (watched p r d) = on_discovered_nodes-Once p p.nodes r (Discovers-Once r d)
