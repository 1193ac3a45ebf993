-- ===== src/Registry/Handlers/Lists.antt =====
-- `GET /nodes` for any query.
use peers_touch_go.Prelude.{
  ℕ, zero, suc, ◌+◌, ◌/◌, ◌≤◌, ◌<◌, ◌≡◌, refl, List, Option, none, some, Str, arith, keep, length,
  take, drop,
}
use peers_touch_go.Prelude.Dict.{values}
use peers_touch_go.Prelude.Int.{ℤ, pos, negsuc}
use peers_touch_go.Prelude.Text.{atoi}
use peers_touch_go.Paging.{slice, slice_short, max_int}
use peers_touch_go.Registry.{Node, MemoryNodeStorage, passes, paginate_by, list_nodes}
use peers_touch_go.Registry.Handlers.{
  node_list, json, ListQuery, limit_or_default, parse_limit, parse_offset, build_filter,
  list_nodes_handler,
}

-- Whatever the text of the parameter, the limit is from 1 to 100.
pub parse_limit_bounds : (s : Str) → (1 ≤ parse_limit s) × (parse_limit s ≤ 100)
unfolding parse_limit
parse_limit_bounds s = go (atoi s)
  where
    go : (n : Option ℤ) → (1 ≤ limit_or_default n) × (limit_or_default n ≤ 100)
    go none = omega arith
    go (some (pos n)) = ground arith
    go (some (negsuc n)) = omega arith

-- The nodes of the page of a query.
abbrev pub page_of : ListQuery → List Node → List Node
page_of q found = take (parse_limit q.limit) (drop (parse_offset q.offset) found)

paginate_by_pos :
    (n : ℕ) (offset : ℤ) (xs : List Node)
    → 1 ≤ n
    → paginate_by (pos n) offset xs ≡ slice offset (pos n) xs
paginate_by_pos zero offset xs h = absurd (omega arith)
paginate_by_pos (suc n) offset xs h = refl

list_nodes_found :
    (q : ListQuery) (m : MemoryNodeStorage)
    → let found = keep (passes (build_filter q)) (values m.nodes) in
      list_nodes (some (build_filter q)) m
      ≡ (paginate_by (pos (parse_limit q.limit)) (pos (parse_offset q.offset)) found, length found)
unfolding list_nodes build_filter
list_nodes_found q m = refl

-- The nodes that pass the filter of a query, in the order of the visit.
abbrev pub matching : ListQuery → MemoryNodeStorage → List Node
matching q m = keep (passes (build_filter q)) (values m.nodes)

-- For every query, however malformed, `GET /nodes` answers 200 and does not panic, while the nodes
-- that pass the filter are fewer than 2 ^ 63 - 100: it gives their page for the limit and the
-- offset that were read, and their number before paging as the total.
pub list_nodes_handler_lem :
    (q : ListQuery) (m : MemoryNodeStorage)
    → length (matching q m) + 100 < max_int
    → list_nodes_handler q m
      ≡ json 200 (
          node_list (record {
            nodes = page_of q (matching q m);
            total = length (matching q m);
            page = parse_offset q.offset / parse_limit q.limit + 1;
            size = length (page_of q (matching q m));
          }))
unfolding list_nodes_handler
list_nodes_handler_lem q m h =
    let found = keep (passes (build_filter q)) (values m.nodes) in
    let b = parse_limit_bounds q.limit in
    ground (
      arith,
      paginate_by_pos (parse_limit q.limit) (pos (parse_offset q.offset)) found b.0,
      slice_short (parse_offset q.offset) (parse_limit q.limit) found,
      list_nodes_found q m,
    )
