-- ===== src/Tables.antt =====
-- gorm.io/gorm, as far as the code of this program relies on it: a table of the rows `R` in a database
-- whose state is `S`. A condition of `Where` is a test of rows. The laws are what gorm and SQL document;
-- `rows` lists the contents in the order of the primary key, in which `First` looks. A query without an
-- order gives its rows in any, which may be another one in each call.
pub mod Kept
pub mod Lists
pub mod Sorting
use peers_touch_go.Prelude.{
  ℕ, suc, ◌≤◌, Bool, true, false, List, [], ◌∷◌, ◌++◌, map, Option, none, some, keep, length, take,
  drop, ◌≡◌, if◌then◌else◌,
}
use peers_touch_go.Prelude.Int.{ℤ, pos}

-- `First`: a row, `ErrRecordNotFound`, or another error.
pub data First (R : Type 0) : Type 0 where
  found : R → First R
  not_found failed : First R

pub record Table (S R : Type 0) : Type 0 where
  pub first : (R → Bool) → S → First R
  -- `Find` with neither an order nor a limit; `none` is an error.
  pub find : (R → Bool) → S → Option (List R)
  -- Whether there was no error, and the database after it.
  pub create : R → S → Bool × S
  pub save : R → S → Bool × S
  -- `RowsAffected`, or an error.
  pub delete : (R → Bool) → S → Option ℕ × S
  -- `UpdateColumn` of the rows that meet a condition.
  pub update : (R → Bool) → (R → R) → S → Bool × S
  -- `Find` with `Order` of a column, ascending, and maybe `Limit`.
  pub find_sorted : (R → Bool) → (R → ℕ) → Option ℕ → S → Option (List R)
  -- `Count`, and `Find` with `Limit` and `Offset`.
  pub count : (R → Bool) → S → Option ℕ
  pub find_page : (R → Bool) → ℤ → ℤ → S → Option (List R)

abbrev pub first_of : {R : Type 0} → (R → Bool) → List R → First R
first_of p [] = not_found
first_of p (x ∷ xs) = if p x then found x else first_of p xs

abbrev pub not : Bool → Bool
not true = false
not false = true

-- A row is put somewhere.
abbrev pub Inserted : {R : Type 0} → R → List R → List R → Type 0
Inserted {R} r before after =
    (xs : List R) × (ys : List R) × (before ≡ xs ++ ys) × (after ≡ xs ++ r ∷ ys)

-- An `UPDATE` of the row with the key of `r`.
abbrev pub replace : {R : Type 0} → (R → R → Bool) → R → R → R
replace same_key r q = if same_key q r then r else q

-- The same rows, each as often, in any order.
abbrev pub SameRows : {R : Type 0} → List R → List R → Type 0
SameRows {R} xs ys = (q : R → Bool) → length (keep q xs) ≡ length (keep q ys)

abbrev pub All : {R : Type 0} → (R → Type 0) → List R → Type 0
All P [] = Unit
All P (x ∷ xs) = P x × All P xs

abbrev pub IsSorted : {R : Type 0} → (R → ℕ) → List R → Type 0
IsSorted key [] = Unit
IsSorted key (x ∷ xs) = All (λ y. key x ≤ key y) xs × IsSorted key xs

abbrev pub limited : {R : Type 0} → Option ℕ → List R → List R
limited none xs = xs
limited (some n) xs = take n xs

pub record Laws {S R : Type 0} (t : Table S R) (same_key : R → R → Bool) : Type 0 where
  pub rows : S → List R
  pub first-found :
      (p : R → Bool) (s : S) (r : R) → t.first p s ≡ found r → first_of p (rows s) ≡ found r
  pub first-not_found :
      (p : R → Bool) (s : S) → t.first p s ≡ not_found → first_of p (rows s) ≡ not_found
  pub find-found :
      (p : R → Bool) (s : S) (rs : List R) → t.find p s ≡ some rs → SameRows rs (keep p (rows s))
  pub create-Inserted :
      (r : R) (s : S) → (t.create r s).0 ≡ true → Inserted r (rows s) (rows (t.create r s).1)
  pub save-saved :
      (r e : R) (p : R → Bool) (s : S)
      → first_of p (rows s) ≡ found e
      → same_key e r ≡ true
      → (t.save r s).0 ≡ true
      → rows (t.save r s).1 ≡ map (replace same_key r) (rows s)
  pub delete-deleted :
      (p : R → Bool) (s : S) (n : ℕ)
      → (t.delete p s).0 ≡ some n
      → (n ≡ length (keep p (rows s))) × (rows (t.delete p s).1 ≡ keep (λ r. not (p r)) (rows s))
  pub update-updated :
      (p : R → Bool) (f : R → R) (s : S)
      → (t.update p f s).0 ≡ true
      → rows (t.update p f s).1 ≡ map (λ r. if p r then f r else r) (rows s)
  pub find_sorted-found :
      (p : R → Bool) (key : R → ℕ) (n : Option ℕ) (s : S) (rs : List R)
      → t.find_sorted p key n s ≡ some rs
      → (xs : List R) × (rs ≡ limited n xs) × SameRows xs (keep p (rows s)) × IsSorted key xs
  pub count-counted :
      (p : R → Bool) (s : S) (n : ℕ) → t.count p s ≡ some n → n ≡ length (keep p (rows s))
  -- A limit that is positive, and an offset that is not negative; of others nothing is said. The page is
  -- cut out of the rows in some order.
  pub find_page-found :
      (p : R → Bool) (limit offset : ℕ) (s : S) (rs : List R)
      → t.find_page p (pos (suc limit)) (pos offset) s ≡ some rs
      → (xs : List R) × SameRows xs (keep p (rows s)) × (rs ≡ take (suc limit) (drop offset xs))

-- What is done to one table leaves another as it is.
pub record Leaves {S R Q : Type 0} (t : Table S R) (rows : S → List Q) : Type 0 where
  pub create_leaves : (r : R) (s : S) → rows (t.create r s).1 ≡ rows s
  pub save_leaves : (r : R) (s : S) → rows (t.save r s).1 ≡ rows s
  pub delete_leaves : (p : R → Bool) (s : S) → rows (t.delete p s).1 ≡ rows s
