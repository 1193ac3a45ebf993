-- ===== src/Social/Box/Counted.antt =====
-- `TotalItems` counts the items, and removal takes out one.
use mathlib.Core.List.{Mem, mem-cons_self, mem-cons_of_mem}
use peers_touch_go.Prelude.{
  suc, ◌+◌, ◌<◌, ◌≡◌, true, false, List, [], ◌∷◌, ◌++◌, some, Option-cases, inl, inr, Str, arith,
  str_eq, length,
}
use peers_touch_go.Social.Box.{Box, uint_mod, prepend, without, shrink, remove_from}

module _ (Activity : Type 0) (activity_id : Activity → Str) where
  abbrev pub IsCounted : Box Activity activity_id → Type 0
  IsCounted b = (b.total_items ≡ length b.ordered_items) × (length b.ordered_items < uint_mod)

  pub prepend-IsCounted :
      (a : Activity) (b : Box Activity activity_id)
      → IsCounted b
      → length b.ordered_items + 1 < uint_mod
      → IsCounted (prepend Activity activity_id a b)
  unfolding prepend
  prepend-IsCounted a b v h = ground arith

  length-without :
      (id : Str) (xs r : List Activity)
      → without Activity activity_id id xs ≡ some r
      → length xs ≡ suc (length r)
  unfolding without
  length-without id [] r h = cc
  length-without id (x ∷ xs) r h = elim (Option-cases (without Activity activity_id id xs)) [
    | inl n ↦ ground arith
    | inr (q, e) ↦ ground (arith, length-without id xs q e)
  ]

  -- Removal keeps the count right, whether or not it finds the id: one less, or the same.
  pub remove_from-IsCounted :
      (id : Str) (b : Box Activity activity_id)
      → IsCounted b
      → IsCounted (remove_from Activity activity_id id b).1
  unfolding remove_from
  remove_from-IsCounted id b v =
      elim (Option-cases (without Activity activity_id id b.ordered_items)) [
        | inl n ↦ rw (n, shrink) v
        | inr (r, e) ↦ rw (e, shrink) (ground (arith, length-without id b.ordered_items r e))
      ]

  without-append :
      (id : Str) (xs ys : List Activity) (a : Activity)
      → ((x : Activity) → Mem x xs → str_eq (activity_id x) id ≡ false)
      → str_eq (activity_id a) id ≡ true
      → without Activity activity_id id (xs ++ a ∷ ys) ≡ some (xs ++ ys)
  unfolding without
  without-append id [] ys a other hit = ground arith
  without-append id (x ∷ xs) ys a other hit = ground (
    arith,
    other x mem-cons_self,
    without-append id xs ys a (λ z m. other z (mem-cons_of_mem x m)) hit,
  )

  -- In a box whose count is right, removal takes out the first activity that has the id, keeps the
  -- order of all others, and reports that it was found; the count falls by one.
  pub remove_from-first :
      (id : Str) (xs ys : List Activity) (a : Activity) (b : Box Activity activity_id)
      → IsCounted b
      → b.ordered_items ≡ xs ++ a ∷ ys
      → ((x : Activity) → Mem x xs → str_eq (activity_id x) id ≡ false)
      → str_eq (activity_id a) id ≡ true
      → let (found, b') = remove_from Activity activity_id id b in
        (found ≡ true) × (b'.ordered_items ≡ xs ++ ys) × (b'.total_items + 1 ≡ b.total_items)
  unfolding remove_from
  remove_from-first id xs ys a b v e other hit =
      ground
        (arith, without-append id xs ys a other hit, length-without id b.ordered_items (xs ++ ys))
