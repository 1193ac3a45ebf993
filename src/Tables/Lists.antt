-- ===== src/Tables/Lists.antt =====
-- A table as the list of its rows, which has the laws of a table, and two tables beside one another.
use peers_touch_go.Prelude.{
  Bool, true, List, [], ◌∷◌, map, some, keep, length, take, drop, suc, if◌then◌else◌, ◌≡◌, arith,
  refl, sym, ap,
}
use peers_touch_go.Prelude.Int.{ℤ, pos, negsuc}
use peers_touch_go.Tables.Sorting.{sort, sort-SameRows, sort-IsSorted}
use peers_touch_go.Tables.{limited, Table, first_of, not, replace, Laws, Leaves}

-- `LIMIT` and `OFFSET`, which a negative number leaves out.
abbrev pub cut_page : {R : Type 0} → ℤ → ℤ → List R → List R
cut_page (pos n) (pos k) xs = take n (drop k xs)
cut_page (pos n) (negsuc k) xs = take n xs
cut_page (negsuc n) (pos k) xs = drop k xs
cut_page (negsuc n) (negsuc k) xs = xs

module _ {R : Type 0} (same_key : R → R → Bool) where
  abbrev pub list_table : Table (List R) R
  unfolding keep
  list_table = record {
    first = first_of;
    find = λ p s. some (keep p s);
    create = λ r s. (true, r ∷ s);
    save = λ r s. (true, map (replace same_key r) s);
    delete = λ p s. (some (length (keep p s)), keep (λ r. not (p r)) s);
    update = λ p f s. (true, map (λ r. if p r then f r else r) s);
    find_sorted = λ p key n s. some (limited n (sort key (keep p s)));
    count = λ p s. some (length (keep p s));
    find_page = λ p limit offset s. some (cut_page limit offset (keep p s));
  }

  pub some_injective : {A : Type 0} (x y : A) → some x ≡ some y → x ≡ y
  some_injective x y h = ground arith

  abbrev pub list_table-Laws : Laws list_table same_key
  unfolding list_table
  list_table-Laws = record {
    rows = λ s. s;
    first-found = λ p s r h. h;
    first-not_found = λ p s h. h;
    find-found = λ p s rs h q. ap (λ l. length (keep q l)) (sym (some_injective (keep p s) rs h));
    create-Inserted = λ r s h. ([], s, refl, refl);
    save-saved = λ r e p s h k z. refl;
    delete-deleted = λ p s n h. (sym (some_injective (length (keep p s)) n h), refl);
    update-updated = λ p f s h. refl;
    find_sorted-found = λ p key n s rs h. (
      sort key (keep p s),
      sym (some_injective (limited n (sort key (keep p s))) rs h),
      sort-SameRows key (keep p s),
      sort-IsSorted key (keep p s),
    );
    count-counted = λ p s n h. sym (some_injective (length (keep p s)) n h);
    find_page-found = λ p limit offset s rs h. (
      keep p s,
      (λ q. refl),
      sym (some_injective (take (suc limit) (drop offset (keep p s))) rs h),
    );
  }

module _ {S T R : Type 0} (t : Table S R) where
  abbrev pub on_first : Table (S × T) R
  on_first = record {
    first = λ p s. t.first p s.0;
    find = λ p s. t.find p s.0;
    create = λ r s. ((t.create r s.0).0, ((t.create r s.0).1, s.1));
    save = λ r s. ((t.save r s.0).0, ((t.save r s.0).1, s.1));
    delete = λ p s. ((t.delete p s.0).0, ((t.delete p s.0).1, s.1));
    update = λ p f s. ((t.update p f s.0).0, ((t.update p f s.0).1, s.1));
    find_sorted = λ p key n s. t.find_sorted p key n s.0;
    count = λ p s. t.count p s.0;
    find_page = λ p l o s. t.find_page p l o s.0;
  }

  abbrev pub on_second : Table (T × S) R
  on_second = record {
    first = λ p s. t.first p s.1;
    find = λ p s. t.find p s.1;
    create = λ r s. ((t.create r s.1).0, (s.0, (t.create r s.1).1));
    save = λ r s. ((t.save r s.1).0, (s.0, (t.save r s.1).1));
    delete = λ p s. ((t.delete p s.1).0, (s.0, (t.delete p s.1).1));
    update = λ p f s. ((t.update p f s.1).0, (s.0, (t.update p f s.1).1));
    find_sorted = λ p key n s. t.find_sorted p key n s.1;
    count = λ p s. t.count p s.1;
    find_page = λ p l o s. t.find_page p l o s.1;
  }

  abbrev pub on_first-Laws : (k : R → R → Bool) → Laws t k → Laws on_first k
  on_first-Laws k law = record {
    rows = λ s. law.rows s.0;
    first-found = λ p s. law.first-found p s.0;
    first-not_found = λ p s. law.first-not_found p s.0;
    find-found = λ p s. law.find-found p s.0;
    create-Inserted = λ r s. law.create-Inserted r s.0;
    save-saved = λ r e p s. law.save-saved r e p s.0;
    delete-deleted = λ p s. law.delete-deleted p s.0;
    update-updated = λ p f s. law.update-updated p f s.0;
    find_sorted-found = λ p key n s. law.find_sorted-found p key n s.0;
    count-counted = λ p s. law.count-counted p s.0;
    find_page-found = λ p l o s. law.find_page-found p l o s.0;
  }

  abbrev pub on_second-Laws : (k : R → R → Bool) → Laws t k → Laws on_second k
  on_second-Laws k law = record {
    rows = λ s. law.rows s.1;
    first-found = λ p s. law.first-found p s.1;
    first-not_found = λ p s. law.first-not_found p s.1;
    find-found = λ p s. law.find-found p s.1;
    create-Inserted = λ r s. law.create-Inserted r s.1;
    save-saved = λ r e p s. law.save-saved r e p s.1;
    delete-deleted = λ p s. law.delete-deleted p s.1;
    update-updated = λ p f s. law.update-updated p f s.1;
    find_sorted-found = λ p key n s. law.find_sorted-found p key n s.1;
    count-counted = λ p s. law.count-counted p s.1;
    find_page-found = λ p l o s. law.find_page-found p l o s.1;
  }

  pub on_first-Leaves : {Q : Type 0} (rows : T → List Q) → Leaves on_first (λ s. rows s.1)
  on_first-Leaves rows = record {
    create_leaves = λ r s. refl;
    save_leaves = λ r s. refl;
    delete_leaves = λ p s. refl;
  }

  pub on_second-Leaves : {Q : Type 0} (rows : T → List Q) → Leaves on_second (λ s. rows s.0)
  on_second-Leaves rows = record {
    create_leaves = λ r s. refl;
    save_leaves = λ r s. refl;
    delete_leaves = λ p s. refl;
  }
