-- ===== src/Registry/Listing.antt =====
-- Which nodes `ListNodes` returns.
use peers_touch_go.Prelude.{
  ℕ, suc, ◌+◌, ◌<◌, ◌≡◌, refl, ◌↔◌, ◌⊎◌, inl, inr, true, Bool-cases, List, [], ◌∷◌, some, Str,
  arith, str_eq_iff, any, keep, length, take, drop,
}
use peers_touch_go.Prelude.Dict.{values}
use peers_touch_go.Prelude.Int.{pos}
use peers_touch_go.Paging.{page, slice_lem, max_int}
use peers_touch_go.Registry.{
  Node, NodeFilter, node_status_online, MemoryNodeStorage, passes, one_of, passes_status,
  passes_capabilities, list_nodes,
}

-- `s` is in the list.
abbrev pub Has : Str → List Str → Type 0
Has s [] = ⊥
Has s (x ∷ xs) = (s ≡ x) ⊎ Has s xs

-- The two lists have a member in common.
abbrev pub Meets : List Str → List Str → Type 0
Meets [] ys = ⊥
Meets (x ∷ xs) ys = Has x ys ⊎ Meets xs ys

-- What a filter asks of a node: to be online if only such are wanted, to have one of the statuses,
-- and one of the capabilities, where any are given.
pub record Matches (f : NodeFilter) (node : Node) : Type 0 where
  pub online : f.online_only ≡ true → node.status ≡ node_status_online
  pub status : (f.status ≡ []) ⊎ Has node.status f.status
  pub capable : (f.capabilities ≡ []) ⊎ Meets f.capabilities node.capabilities

one_of-Has : (s : Str) (xs : List Str) → (one_of s xs ≡ true) ↔ Has s xs
unfolding any
one_of-Has s [] = (λ h. cc, λ h. absurd h)
one_of-Has s (x ∷ xs) = (
  λ h. ground (arith, str_eq_iff s x, one_of-Has s xs),
  λ h. ground (arith, str_eq_iff s x, one_of-Has s xs),
)

any-Meets : (xs ys : List Str) → (any (λ x. one_of x ys) xs ≡ true) ↔ Meets xs ys
unfolding any
any-Meets [] ys = (λ h. cc, λ h. absurd h)
any-Meets (x ∷ xs) ys = (
  λ h. ground (arith, one_of-Has x ys, any-Meets xs ys),
  λ h. ground (arith, one_of-Has x ys, any-Meets xs ys),
)

passes_status-Has :
    (node : Node) (ss : List Str)
    → (passes_status node ss ≡ true) ↔ ((ss ≡ []) ⊎ Has node.status ss)
passes_status-Has node [] = (λ h. inl refl, λ h. refl)
passes_status-Has node (s ∷ ss) = (
  λ h. inr ((one_of-Has node.status (s ∷ ss)).0 h),
  λ h. ground (arith, one_of-Has node.status (s ∷ ss)),
)

passes_capabilities-Meets :
    (node : Node) (cs : List Str)
    → (passes_capabilities node cs ≡ true) ↔ ((cs ≡ []) ⊎ Meets cs node.capabilities)
passes_capabilities-Meets node [] = (λ h. inl refl, λ h. refl)
passes_capabilities-Meets node (c ∷ cs) = (
  λ h. inr ((any-Meets (c ∷ cs) node.capabilities).0 h),
  λ h. ground (arith, any-Meets (c ∷ cs) node.capabilities),
)

module _ (f : NodeFilter) (node : Node) where
  passes_sound : passes f node ≡ true → Matches f node
  unfolding passes
  passes_sound h = record {
    online = λ o. ground (arith, str_eq_iff node.status node_status_online);
    status = (passes_status-Has node f.status).0 (ground arith);
    capable = (passes_capabilities-Meets node f.capabilities).0 (ground arith);
  }

  passes_complete : Matches f node → passes f node ≡ true
  unfolding passes
  passes_complete m =
      let s = (passes_status-Has node f.status).1 m.status in
      let c = (passes_capabilities-Meets node f.capabilities).1 m.capable in
      elim (Bool-cases f.online_only) [
        | inl wants ↦ ground (arith, str_eq_iff node.status node_status_online, m.online wants)
        | inr any_status ↦ ground arith
      ]

  -- The loop of `ListNodes` lets exactly the nodes through that match the filter: that are online if
  -- only such are wanted, and have one of the statuses and one of the capabilities, if any are given.
  pub passes-Matches : (passes f node ≡ true) ↔ Matches f node
  passes-Matches = (passes_sound, passes_complete)

-- For a limit above 0 and an offset that is not negative, whose sum is an `int`, the page is that
-- part of the nodes that match, in the order of the visit, and the total is their number.
pub list_nodes-page :
    (f : NodeFilter) (l o : ℕ) (m : MemoryNodeStorage)
    → f.limit ≡ pos (suc l)
    → f.offset ≡ pos o
    → o + suc l < max_int
    → let found = keep (passes f) (values m.nodes) in
      list_nodes (some f) m ≡ (page (take (suc l) (drop o found)), length found)
unfolding list_nodes
list_nodes-page f l o m p q h =
    ground (arith, slice_lem o (suc l) (keep (passes f) (values m.nodes)))
