-- ===== src/Paging.antt =====
-- Pages of a slice: station/frame/touch/model/actor/liked.go, inbox.go and outbox.go, and, for a limit
-- above 0, station/frame/core/registry/node_registry.go. An `int` has 64 bits: `offset + limit` wraps
-- to a negative number from 2 ^ 63 on.
mod Tests
use Prim.Native.Nat.{zero, suc}
use peers_touch_go.Prelude.{
  ℕ, ◌+◌, ◌-◌, ◌^◌, ◌≤◌, ◌<◌, min, ◌≡◌, refl, ap, inl, inr, Bool, Bool-cases, true, false, List, [],
  ◌∷◌, ◌++◌, arith, ltb, leb, if◌then◌else◌, length, take, drop, length-drop, take_all, drop_all,
}
use peers_touch_go.Prelude.Int.{ℤ, pos, negsuc}

-- A page, or the run-time panic of a bad `make` or of an index out of range.
pub data Page (A : Type 0) : Type 0 where
  page : List A → Page A
  panic : Page A

abbrev pub map_page : {A B : Type 0} → (List A → List B) → Page A → Page B
map_page f (page xs) = page (f xs)
map_page f panic = panic

abbrev pub max_int : ℕ
max_int = 2 ^ 63

module _ {A : Type 0} where
  -- `end := offset + limit; if end > len(items) { end = len(items) }` and the loop to `end`.
  abbrev pub cut : ℕ → ℕ → List A → List A
  cut offset limit items =
      let n = length items in
      let e = if ltb n (offset + limit) then n else offset + limit in
      take (e - offset) (drop offset items)

  -- The page of a call: `make` panics on a negative capacity, and the loop on a negative index.
  unfoldable pub slice : ℤ → ℤ → List A → Page A
  slice (pos o) (pos l) items =
      if leb (length items) o
      then page []
      else if leb max_int (o + l)
      then panic
      else page (cut o l items)
  slice (pos o) (negsuc l) items = if leb (length items) o then page [] else panic
  slice (negsuc o) (pos zero) items = page []
  slice (negsuc o) (pos (suc l)) items = panic
  slice (negsuc o) (negsuc l) items = panic

  -- For an `offset` and a `limit` that are not negative and whose sum is an `int`, the page is the
  -- items from `offset` on, at most `limit` of them, and nothing panics.
  pub slice_lem :
      (o l : ℕ) (items : List A)
      → o + l < max_int
      → slice (pos o) (pos l) items ≡ page (take l (drop o items))
  unfolding slice
  slice_lem o l items h =
      let e : o + l - o ≡ l = omega arith in
      ground (
        arith,
        e,
        drop_all o items,
        take_all {A = A} l [],
        length-drop o items,
        take_all (length items - o) (drop o items),
        take_all l (drop o items),
      )

  -- The same for any `offset` that is an `int`, also past the end, where the length and the limit
  -- together are an `int`.
  pub slice_short :
      (o l : ℕ) (items : List A)
      → length items + l < max_int
      → slice (pos o) (pos l) items ≡ page (take l (drop o items))
  unfolding slice
  slice_short o l items h = elim (Bool-cases (leb (length items) o)) [
    | inl past ↦ ground (arith, drop_all o items, take_all {A = A} l [])
    | inr inside ↦ slice_lem o l items (ground arith)
  ]

  take-add : (m n : ℕ) (xs : List A) → take m xs ++ take n (drop m xs) ≡ take (m + n) xs
  take-add zero n xs = let e : n ≡ 0 + n = omega arith in ap (λ k. take k xs) e
  take-add (suc m) zero [] = let e : suc m + 0 ≡ suc m = omega arith in ground (arith, e)
  take-add (suc m) (suc n) [] =
      let e : suc m + suc n ≡ suc (m + suc n) = omega arith in ground (arith, e)
  take-add (suc m) n (x ∷ xs) =
      let e : suc m + n ≡ suc (m + n) = omega arith in ground (arith, e, take-add m n xs)

  drop-add : (m n : ℕ) (xs : List A) → drop n (drop m xs) ≡ drop (m + n) xs
  drop-add zero n xs = let e : n ≡ 0 + n = omega arith in ap (λ k. drop k xs) e
  drop-add (suc m) zero [] = let e : suc m + 0 ≡ suc m = omega arith in ground (arith, e)
  drop-add (suc m) (suc n) [] =
      let e : suc m + suc n ≡ suc (m + suc n) = omega arith in ground (arith, e)
  drop-add (suc m) n (x ∷ xs) =
      let e : suc m + n ≡ suc (m + n) = omega arith in ground (arith, e, drop-add m n xs)

  -- For an offset and two limits that are not negative and whose sum is an `int`, two consecutive
  -- pages make up the page of both limits together: a reader who goes on at the end of a page
  -- misses no item and meets none twice.
  pub slice_join :
      (o l l' : ℕ) (items p q : List A)
      → o + l + l' < max_int
      → slice (pos o) (pos l) items ≡ page p
      → slice (pos (o + l)) (pos l') items ≡ page q
      → slice (pos o) (pos (l + l')) items ≡ page (p ++ q)
  slice_join o l l' items p q h e f = ground (
    arith,
    slice_lem o l items,
    slice_lem (o + l) l' items,
    slice_lem o (l + l') items,
    take-add l l' (drop o items),
    drop-add o l items,
  )
