-- ===== src/Messages/Listed.antt =====
-- station/frame/touch/message: the messages that are listed.
use peers_touch_go.Prelude.{
  ℕ, zero, suc, ◌<◌, min, ltb, ◌&&◌, [], ◌∷◌, keep, Bool, true, false, List, Option, none, some,
  Str, str_eq, str_eq_refl, str_eq_iff, refl, length, any, length-take, ◌≡◌, arith, ap, ◌∙◌,
  Bool-cases, inl, inr, ◌==◌,
}
use peers_touch_go.Prelude.Int.{ℤ, pos, negsuc}
use peers_touch_go.Prelude.Result.{Result, ok, err}
use peers_touch_go.Tables.{Laws, Inserted, All, IsSorted, limited}
use peers_touch_go.Tables.Sorting.{limited-All, limited-IsSorted, any-Inserted, length-SameRows}
use peers_touch_go.Messages.{Message, Error, no_database, Database}
use peers_touch_go.Messages.Services.{
  AppendReq, positive, is_after, is_listed, of_find, of_write, giving, message_of, append, list,
}

abbrev pub same_message : Message → Message → Bool
same_message a b = a.id == b.id

-- A time after a number, which may be negative.
abbrev pub IsLater : ℤ → ℕ → Type 0
IsLater (pos a) t = a < t
IsLater (negsuc a) t = Unit

abbrev pub later : ℤ → ℕ → Bool
later (pos a) t = ltb a t
later (negsuc a) t = true

-- How many are listed of a number of messages: a limit that is not positive is none.
abbrev pub listed_number : ℤ → ℕ → ℕ
listed_number (pos zero) n = n
listed_number (pos (suc k)) n = min (suc k) n
listed_number (negsuc k) n = n

abbrev pub later_in : Str → ℤ → Message → Bool
later_in conv_id after m = str_eq m.conv_id conv_id && later after m.ts

is_listed-later_in : (conv_id : Str) (after : ℤ) → is_listed conv_id after ≡ later_in conv_id after
is_listed-later_in conv_id (pos a) = refl
is_listed-later_in conv_id (negsuc a) = refl

is_listed_lem :
    (conv_id : Str) (after : ℤ) (m : Message)
    → is_listed conv_id after m ≡ true
    → (m.conv_id ≡ conv_id) × IsLater after m.ts
is_listed_lem conv_id (pos a) m h = (ground (arith, str_eq_iff m.conv_id conv_id), ground arith)
is_listed_lem conv_id (negsuc a) m h = (ground (arith, str_eq_iff m.conv_id conv_id), tt)

All-All :
    {P Q : Message → Type 0} (f : (m : Message) → P m → Q m) (l : List Message) → All P l → All Q l
All-All f [] h = tt
All-All f (m ∷ l) h = (f m h.0, All-All f l h.1)

length-limited :
    (limit : ℤ) (xs : List Message)
    → length (limited (positive limit) xs) ≡ listed_number limit (length xs)
length-limited (pos zero) xs = refl
length-limited (pos (suc k)) xs =
    let e : ltb 0 (suc k) ≡ true = ground arith in rw e (length-take (suc k) xs)
length-limited (negsuc k) xs = refl

module _ {S : Type 0} (d : Database S) (law : Laws d.messages same_message) where
  of_find-ok : (o : Option (List Message)) (l : List Message) → of_find o ≡ ok l → o ≡ some l
  of_find-ok none l h = absurd (ground arith)
  of_find-ok (some m) l h = ground arith

  list-found :
      (conv_id : Str) (after limit : ℤ) (s : S) (l : List Message)
      → list d conv_id after limit s ≡ ok l
      → d.messages.find_sorted (is_listed conv_id after) (λ m. m.ts) (positive limit) s ≡ some l
  unfolding list
  list-found conv_id after limit s l h = elim (Bool-cases (d.connected s)) [
    | inl y ↦ of_find-ok _ l (rw y at h)
    | inr n ↦
        absurd
          (let z : Path (Result Error (List Message)) (err no_database) (ok l) = rw n at h in cc)
  ]

  -- What List gives are messages of the conversation, all of them later than the time, from the earliest
  -- to the latest, and as many as there are in the table, or as a positive limit allows.
  pub list_lem :
      (conv_id : Str) (after limit : ℤ) (s : S) (l : List Message)
      → list d conv_id after limit s ≡ ok l
      → All (λ m. (m.conv_id ≡ conv_id) × IsLater after m.ts) l
        × IsSorted (λ m. m.ts) l
        × (length l ≡ listed_number limit (length (keep (later_in conv_id after) (law.rows s))))
  list_lem conv_id after limit s l h =
      let p = is_listed conv_id after in
      let (xs, e, same, sorted) =
        law.find_sorted-found p (λ m. m.ts) (positive limit) s l
          (list-found conv_id after limit s l h) in
      (
        All-All (is_listed_lem conv_id after) l
            (rw e (limited-All p (positive limit) xs (law.rows s) same)),
        rw e (limited-IsSorted (λ m. m.ts) (positive limit) xs sorted),
        ap length e
            ∙ (length-limited limit xs
                ∙ ap (listed_number limit) (
                    length-SameRows xs _ same
                    ∙ ap (λ q. length (keep q (law.rows s))) (is_listed-later_in conv_id after))),
      )

  giving-ok :
      (m n : Message) (r : Bool × S) (t : S)
      → giving m (of_write r) ≡ (ok n, t)
      → (m ≡ n) × (r.0 ≡ true) × (r.1 ≡ t)
  giving-ok m n (true, s) t h = ground arith
  giving-ok m n (false, s) t h = absurd (ground arith)

  append-Inserted :
      (q : AppendReq) (i : ℕ) (s t : S) (m : Message)
      → append d q i s ≡ (ok m, t)
      → Inserted (message_of q i) (law.rows s) (law.rows t)
  unfolding append
  append-Inserted q i s t m h = elim (Bool-cases (d.connected s)) [
    | inl y ↦
        let (e, w, z) =
          giving-ok (message_of q i) m (d.messages.create (message_of q i) s) t (rw y at h) in
        rw (← z) (law.create-Inserted (message_of q i) s w)
    | inr n ↦
        absurd
          (let z : Path (Result Error Message × S) (err no_database, s) (ok m, t) = rw n at h in cc)
  ]

  -- A message that was appended is listed by every List of its conversation without a limit, from an earlier
  -- time, in the database after it.
  pub list-append :
      (q : AppendReq) (i : ℕ) (s t : S) (m : Message) (after limit : ℤ) (l : List Message)
      → append d q i s ≡ (ok m, t)
      → is_after after q.ts ≡ true
      → positive limit ≡ none
      → list d q.conv_id after limit t ≡ ok l
      → any (λ x. str_eq x.ulid q.ulid) l ≡ true
  list-append q i s t m after limit l h a z g =
      let p = is_listed q.conv_id after in
      let (xs, e, same, sorted) =
        law.find_sorted-found p (λ m. m.ts) (positive limit) t l
          (list-found q.conv_id after limit t l g) in
      let f : l ≡ xs = e ∙ ap (λ n. limited n xs) z in
      rw f (
        any-Inserted p (λ x. str_eq x.ulid q.ulid) (message_of q i) (law.rows s) (law.rows t) xs
          (append-Inserted q i s t m h) (rw (str_eq_refl q.conv_id) a) (str_eq_refl q.ulid) same)
