-- ===== src/PeerRoutes/Nodes/Overwritten.antt =====
-- station/frame/touch/peer_router.go: nodes that are registered one after the other.
use peers_touch_go.Prelude.{[], ◌∷◌, none, some, Str, str_eq_refl, ◌≡◌, refl, arith, ap}
use peers_touch_go.Prelude.Dict
use peers_touch_go.Prelude.Dict.{Dict}
use peers_touch_go.Registry.{Node, MemoryNodeStorage, register}
use peers_touch_go.PeerRoutes.Nodes.{NodeRequest, routed_node, check_request, register_node_route}

remove-remove : (k : Str) (m : Dict Node) → Dict.remove k (Dict.remove k m) ≡ Dict.remove k m
unfolding Dict.remove
remove-remove k [] = refl
remove-remove k ((j, v) ∷ m) = ground (arith, remove-remove k m)

put-put : (k : Str) (v w : Node) (m : Dict Node) → Dict.put k w (Dict.put k v m) ≡ Dict.put k w m
unfolding Dict.put Dict.remove
put-put k v w m = ground (arith, str_eq_refl k, remove-remove k m)

register-register :
    (a b : NodeRequest) (m : MemoryNodeStorage)
    → register (routed_node b) (register (routed_node a) m) ≡ register (routed_node b) m
unfolding register
register-register a b m =
    let f : Dict Node → MemoryNodeStorage = λ d. record { nodes = d } in
    ap f (put-put [] (routed_node a) (routed_node b) m.nodes)

-- A second node that this handler registers takes the place of the first, since both have an empty id: the
-- storage is what the second alone makes of it.
pub register_node_route_again :
    (a b : NodeRequest) (m : MemoryNodeStorage)
    → check_request a.name a ≡ none
    → check_request b.name b ≡ none
    → (register_node_route (some b) (register_node_route (some a) m).1).1
      ≡ (register_node_route (some b) m).1
unfolding register_node_route
register_node_route_again a b m h k = rw h (rw k (register-register a b m))
