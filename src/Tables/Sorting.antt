-- ===== src/Tables/Sorting.antt =====
-- Rows in the order of a column: insertion sort, and what is left of a sorted list by a limit.
use peers_touch_go.Prelude.{
  ℕ, zero, suc, ◌≤◌, ◌<◌, Bool, true, List, [], ◌∷◌, ◌++◌, Option, none, some, keep, length, take,
  any, leb, if◌then◌else◌, ◌≡◌, arith, refl, ap, sym, ◌∙◌, Bool-cases, inl, inr,
}
use peers_touch_go.Tables.{not, SameRows, All, IsSorted, limited, Inserted}

module _ {R : Type 0} where
  take-All : (P : R → Type 0) (n : ℕ) (xs : List R) → All P xs → All P (take n xs)
  take-All P zero xs a = tt
  take-All P (suc n) [] a = tt
  take-All P (suc n) (x ∷ xs) a = (a.0, take-All P n xs a.1)

  module _ (key : R → ℕ) where
    unfoldable pub insert : R → List R → List R
    insert r [] = r ∷ []
    insert r (x ∷ xs) =
        let rest = x ∷ insert r xs in if leb (key r) (key x) then r ∷ x ∷ xs else rest

    unfoldable pub sort : List R → List R
    unfolding insert
    sort [] = []
    sort (x ∷ xs) = insert x (sort xs)

    keep-insert :
        (q : R → Bool) (r : R) (xs : List R)
        → length (keep q (insert r xs)) ≡ length (keep q (r ∷ xs))
    unfolding insert keep
    keep-insert q r [] = refl
    keep-insert q r (x ∷ xs) = ground (arith, keep-insert q r xs)

    pub sort-SameRows : (xs : List R) → SameRows (sort xs) xs
    unfolding sort keep
    sort-SameRows [] q = refl
    sort-SameRows (x ∷ xs) q = ground (arith, keep-insert q x (sort xs), sort-SameRows xs q)

    All-le : (m n : ℕ) (xs : List R) → m ≤ n → All (λ y. n ≤ key y) xs → All (λ y. m ≤ key y) xs
    All-le m n [] h a = tt
    All-le m n (x ∷ xs) h a = (omega arith, All-le m n xs h a.1)

    insert-All :
        (n : ℕ) (r : R) (xs : List R)
        → n ≤ key r
        → All (λ y. n ≤ key y) xs
        → All (λ y. n ≤ key y) (insert r xs)
    unfolding insert
    insert-All n r [] h a = (h, tt)
    insert-All n r (x ∷ xs) h a = elim (Bool-cases (leb (key r) (key x))) [
      | inl y ↦ rw y (h, a)
      | inr z ↦ rw z (a.0, insert-All n r xs h a.1)
    ]

    insert-IsSorted : (r : R) (xs : List R) → IsSorted key xs → IsSorted key (insert r xs)
    unfolding insert
    insert-IsSorted r [] s = (tt, tt)
    insert-IsSorted r (x ∷ xs) s = elim (Bool-cases (leb (key r) (key x))) [
      | inl y ↦
          let h : key r ≤ key x = ground arith in rw y ((h, All-le (key r) (key x) xs h s.0), s)
      | inr z ↦
          let h : key x ≤ key r = ground arith in
          rw z (insert-All (key x) r xs h s.0, insert-IsSorted r xs s.1)
    ]

    pub sort-IsSorted : (xs : List R) → IsSorted key (sort xs)
    unfolding sort
    sort-IsSorted [] = tt
    sort-IsSorted (x ∷ xs) = insert-IsSorted x (sort xs) (sort-IsSorted xs)

    take-IsSorted : (n : ℕ) (xs : List R) → IsSorted key xs → IsSorted key (take n xs)
    take-IsSorted zero xs s = tt
    take-IsSorted (suc n) [] s = tt
    take-IsSorted (suc n) (x ∷ xs) s =
        (take-All (λ y. key x ≤ key y) n xs s.0, take-IsSorted n xs s.1)

    pub limited-IsSorted :
        (n : Option ℕ) (xs : List R) → IsSorted key xs → IsSorted key (limited n xs)
    limited-IsSorted none xs s = s
    limited-IsSorted (some n) xs s = take-IsSorted n xs s

  keep_none-All :
      (p : R → Bool) (xs : List R)
      → length (keep (λ r. not (p r)) xs) ≡ 0
      → All (λ r. p r ≡ true) xs
  unfolding keep
  keep_none-All p [] h = tt
  keep_none-All p (x ∷ xs) h = elim (Bool-cases (p x)) [
    | inl y ↦ (y, keep_none-All p xs (ground arith))
    | inr n ↦ absurd (ground arith)
  ]

  keep-not-keep : (p : R → Bool) (ys : List R) → length (keep (λ r. not (p r)) (keep p ys)) ≡ 0
  unfolding keep
  keep-not-keep p [] = refl
  keep-not-keep p (y ∷ ys) = ground (arith, keep-not-keep p ys)

  -- What is found meets the condition, with a limit or not.
  pub limited-All :
      (p : R → Bool) (n : Option ℕ) (xs ys : List R)
      → SameRows xs (keep p ys)
      → All (λ r. p r ≡ true) (limited n xs)
  limited-All p none xs ys h =
      keep_none-All p xs (omega (arith, h (λ r. not (p r)), keep-not-keep p ys))
  limited-All p (some n) xs ys h =
      take-All (λ r. p r ≡ true) n xs
        (keep_none-All p xs (omega (arith, h (λ r. not (p r)), keep-not-keep p ys)))

  length-keep_all : (xs : List R) → length (keep (λ x. true) xs) ≡ length xs
  unfolding keep
  length-keep_all [] = refl
  length-keep_all (x ∷ xs) = ap suc (length-keep_all xs)

  pub length-SameRows : (xs ys : List R) → SameRows xs ys → length xs ≡ length ys
  length-SameRows xs ys h = sym (length-keep_all xs) ∙ (h (λ x. true) ∙ length-keep_all ys)

  pub any-keep : (q : R → Bool) (xs : List R) → 0 < length (keep q xs) → any q xs ≡ true
  unfolding any keep
  any-keep q [] h = absurd (omega arith)
  any-keep q (x ∷ xs) h = ground (arith, any-keep q xs)

  kept_middle :
      (p q : R → Bool) (r : R) (xs ys : List R)
      → p r ≡ true
      → q r ≡ true
      → 0 < length (keep q (keep p (xs ++ r ∷ ys)))
  unfolding keep
  kept_middle p q r [] ys h k = ground arith
  kept_middle p q r (x ∷ xs) ys h k = ground (arith, kept_middle p q r xs ys h k)

  -- A row that was put there is found by a condition that it meets.
  pub any-Inserted :
      (p q : R → Bool) (r : R) (b a xs : List R)
      → Inserted r b a
      → p r ≡ true
      → q r ≡ true
      → SameRows xs (keep p a)
      → any q xs ≡ true
  any-Inserted p q r b a xs (l, m, e, f) h k same =
      any-keep q xs (rw (same q) (rw f (kept_middle p q r l m h k)))
