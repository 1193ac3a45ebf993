-- ===== src/Registry/Order.antt =====
-- A `range` over the map visits the nodes in any order: what of `ListNodes` does not depend on it.
use mathlib.Core.List.{Permᴰ}
use peers_touch_go.Prelude.{◌≡◌, refl, ◌∙◌, Bool, List, Option, arith, keep, length}
use peers_touch_go.Prelude.Dict.{values}
use peers_touch_go.Registry.{Node, NodeFilter, MemoryNodeStorage, passes_filter, list_nodes}

length-keep_perm :
    (p : Node → Bool) {xs ys : List Node} → Permᴰ xs ys → length (keep p xs) ≡ length (keep p ys)
unfolding keep
length-keep_perm p Permᴰ.nil = refl
length-keep_perm p (Permᴰ.cons {a = a} {b = b} e d) = ground (arith, length-keep_perm p d, e)
length-keep_perm p (Permᴰ.swap {a = a} {b = b} e f) = ground (arith, e, f)
length-keep_perm p (Permᴰ.trans d e) = length-keep_perm p d ∙ length-keep_perm p e

-- The total that `ListNodes` reports is the same in whatever order the map is visited.
pub total-list_nodes :
    (filter : Option NodeFilter) (m n : MemoryNodeStorage)
    → Permᴰ (values m.nodes) (values n.nodes)
    → (list_nodes filter m).1 ≡ (list_nodes filter n).1
unfolding list_nodes
total-list_nodes filter m n d = length-keep_perm (passes_filter filter) d
