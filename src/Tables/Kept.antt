-- ===== src/Tables/Kept.antt =====
-- The rows that meet a condition, before and after a change of a table.
use peers_touch_go.Prelude.{
  Bool, true, false, List, [], ◌∷◌, ◌++◌, map, keep, ◌≡◌, arith, refl, if◌then◌else◌, ap, sym, ◌∙◌,
}
use peers_touch_go.Tables.{not_found, found, first_of, not, Inserted, replace}

module _ {R : Type 0} where
  pub keep-append : (p : R → Bool) (xs ys : List R) → keep p (xs ++ ys) ≡ keep p xs ++ keep p ys
  unfolding keep
  keep-append p [] ys = refl
  keep-append p (x ∷ xs) ys = ground (arith, keep-append p xs ys)

  append-eq-nil : (xs ys : List R) → xs ++ ys ≡ [] → (xs ≡ []) × (ys ≡ [])
  append-eq-nil [] ys h = (refl, h)
  append-eq-nil (x ∷ xs) ys h = absurd (ground arith)

  keep-middle :
      (p : R → Bool) (r : R) (xs ys : List R)
      → keep p (xs ++ r ∷ ys) ≡ (if p r then keep p xs ++ r ∷ keep p ys else keep p xs ++ keep p ys)
  unfolding keep
  keep-middle p r xs ys = ground (arith, keep-append p xs (r ∷ ys))

  -- A row that does not meet the condition is not seen.
  pub keep-Inserted_other :
      (p : R → Bool) (r : R) (b a : List R) → Inserted r b a → p r ≡ false → keep p a ≡ keep p b
  keep-Inserted_other p r b a (xs, ys, e, f) h =
      ground (arith, keep-middle p r xs ys, keep-append p xs ys)

  -- A row that meets it is the only one where there was none.
  pub keep-Inserted_alone :
      (p : R → Bool) (r : R) (b a : List R)
      → Inserted r b a
      → p r ≡ true
      → keep p b ≡ []
      → keep p a ≡ r ∷ []
  keep-Inserted_alone p r b a (xs, ys, e, f) h k =
      let (n, m) =
        append-eq-nil (keep p xs) (keep p ys)
          (sym (keep-append p xs ys) ∙ (sym (ap (keep p) e) ∙ k)) in
      ground (arith, keep-middle p r xs ys)

  pub keep-keep-not : (p : R → Bool) (xs : List R) → keep p (keep (λ r. not (p r)) xs) ≡ []
  unfolding keep
  keep-keep-not p [] = refl
  keep-keep-not p (x ∷ xs) = ground (arith, keep-keep-not p xs)

  pub keep_again : (p : R → Bool) (xs : List R) → keep p (keep p xs) ≡ keep p xs
  unfolding keep
  keep_again p [] = refl
  keep_again p (x ∷ xs) = ground (arith, keep_again p xs)

  -- A saved row that meets the condition is the first that does, where the row with its key was.
  pub first_of-replace :
      (p : R → Bool) (same : R → R → Bool) (r e : R) (xs : List R)
      → first_of p xs ≡ found e
      → same e r ≡ true
      → p r ≡ true
      → first_of p (map (replace same r) xs) ≡ found r
  first_of-replace p same r e [] h k q = ground arith
  first_of-replace p same r e (x ∷ xs) h k q = ground (arith, first_of-replace p same r e xs)

  pub first_of-true : (p : R → Bool) (e : R) (xs : List R) → first_of p xs ≡ found e → p e ≡ true
  first_of-true p e [] h = ground arith
  first_of-true p e (x ∷ xs) h = ground (arith, first_of-true p e xs)

  -- What a weaker condition keeps is all there is for a stronger one.
  pub keep-keep_implied :
      (p q : R → Bool) (xs : List R)
      → ((x : R) → p x ≡ true → q x ≡ true)
      → keep p (keep q xs) ≡ keep p xs
  unfolding keep
  keep-keep_implied p q [] h = refl
  keep-keep_implied p q (x ∷ xs) h = ground (arith, h x, keep-keep_implied p q xs h)

  pub keep-keep_none : (p q : R → Bool) (xs : List R) → keep p xs ≡ [] → keep p (keep q xs) ≡ []
  unfolding keep
  keep-keep_none p q [] h = refl
  keep-keep_none p q (x ∷ xs) h = ground (arith, keep-keep_none p q xs)

  pub keep-none_cases :
      (p q r : R → Bool) (xs : List R)
      → ((x : R) → p x ≡ true → q x ≡ false → r x ≡ true)
      → keep q xs ≡ []
      → keep r xs ≡ []
      → keep p xs ≡ []
  unfolding keep
  keep-none_cases p q r [] h f g = refl
  keep-none_cases p q r (x ∷ xs) h f g = ground (arith, h x, keep-none_cases p q r xs h)

  pub keep_never : (p : R → Bool) (xs : List R) → ((x : R) → p x ≡ false) → keep p xs ≡ []
  unfolding keep
  keep_never p [] h = refl
  keep_never p (x ∷ xs) h = ground (arith, h x, keep_never p xs h)

  first_of-middle :
      (p : R → Bool) (r : R) (xs ys : List R)
      → p r ≡ true
      → first_of p (xs ++ ys) ≡ not_found
      → first_of p (xs ++ r ∷ ys) ≡ found r
  first_of-middle p r [] ys h f = ground arith
  first_of-middle p r (x ∷ xs) ys h f = ground (arith, first_of-middle p r xs ys h)

  -- A row that was put where no row met the condition is the first that does.
  pub first_of-Inserted :
      (p : R → Bool) (r : R) (b a : List R)
      → Inserted r b a
      → p r ≡ true
      → first_of p b ≡ not_found
      → first_of p a ≡ found r
  first_of-Inserted p r b a (xs, ys, e, f) h k =
      rw f (first_of-middle p r xs ys h (ap (first_of p) (sym e) ∙ k))

  pub keep-replace :
      (p : R → Bool) (same : R → R → Bool) (r : R) (xs : List R)
      → ((x : R) → same x r ≡ true → p x ≡ false)
      → p r ≡ false
      → keep p (map (replace same r) xs) ≡ keep p xs
  unfolding keep
  keep-replace p same r [] h f = refl
  keep-replace p same r (x ∷ xs) h f = ground (arith, h x, keep-replace p same r xs h f)

  pub first_of-keep_none : (p : R → Bool) (xs : List R) → keep p xs ≡ [] → first_of p xs ≡ not_found
  unfolding keep
  first_of-keep_none p [] h = refl
  first_of-keep_none p (x ∷ xs) h = ground (arith, first_of-keep_none p xs)
