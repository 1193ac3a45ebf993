-- ===== src/Identifiers/Texts.antt =====
-- The form of the ids.
use Prim.Native.Nat.{zero, suc}
use mathlib.Core.Bool.{false≢true}
use mathlib.Core.Path.{subst, sym}
use peers_touch_go.Prelude.{
  Bool-cases, ℕ, ◌+◌, ◌<◌, ◌≡◌, refl, inl, inr, Bool, true, false, ◌||◌, ◌&&◌, List, [], ◌∷◌, ◌++◌,
  some, Str, get_elem?, length, leb, if◌then◌else◌, arith, append-nil,
}
use peers_touch_go.Prelude.Result.{Result, ok, err, ◌>>=◌}
use peers_touch_go.Prelude.Int.{pos}
use peers_touch_go.Identifiers.{
  IdOptions, Panic, Sources, StoreMode, db, real_time, readable, random, with_prefix, with_suffix,
  apply_from, apply_options, byte_at, draw_bytes, random_charset, next_ids, next_random_id,
  generate_random_id, generate_readable_id, handle_db_store_id, handle_db_store_string_id, next_id,
  next_id_of, next_ids_in, check_store, text_of, to_text, next_id_in, IdType, timing, sonyflake,
  default_options,
}

abbrev pub is_alphanumeric : ℕ → Bool
is_alphanumeric c =
    (leb b'0' c && leb c b'9') || ((leb b'a' c && leb c b'z') || (leb b'A' c && leb c b'Z'))

abbrev pub all_alphanumeric : Str → Bool
all_alphanumeric [] = true
all_alphanumeric (c ∷ s) = if is_alphanumeric c then all_alphanumeric s else false

abbrev pub AllAlphanumeric : Str → Type 0
AllAlphanumeric s = all_alphanumeric s ≡ true

get_elem?-AllAlphanumeric :
    (s : Str) (n c : ℕ) → AllAlphanumeric s → get_elem? s n ≡ some c → is_alphanumeric c ≡ true
get_elem?-AllAlphanumeric [] n c a h = cc
get_elem?-AllAlphanumeric (x ∷ s) zero c a h = elim (Bool-cases (is_alphanumeric x)) [
  | inl t ↦ cc
  | inr t ↦ absurd (false≢true (rw t at a))
]
get_elem?-AllAlphanumeric (x ∷ s) (suc n) c a h = elim (Bool-cases (is_alphanumeric x)) [
  | inl t ↦ get_elem?-AllAlphanumeric s n c (rw t at a) h
  | inr t ↦ absurd (false≢true (rw t at a))
]

get_elem?_in : (s : Str) (n : ℕ) → n < length s → (c : ℕ) × (get_elem? s n ≡ some c)
get_elem?_in [] n h = absurd (omega arith)
get_elem?_in (x ∷ s) zero h = (x, refl)
get_elem?_in (x ∷ s) (suc n) h = get_elem?_in s n (omega arith)

module _ (src : Sources) (draws : (i : ℕ) → (n : ℕ) × (src.draw i ≡ some n) × (n < 62)) where
  -- What the loop draws from an alphabet of 62 letters and digits.
  draw_bytes_lem :
      (charset : Str) (n i : ℕ)
      → AllAlphanumeric charset
      → length charset ≡ 62
      → (s : Str) × (draw_bytes src charset n i ≡ ok s) × (length s ≡ n) × AllAlphanumeric s
  unfolding draw_bytes
  draw_bytes_lem charset zero i a l = ([], refl, refl, refl)
  draw_bytes_lem charset (suc n) i a l =
      let (k, e, b) = draws i in
      let (c, g) = get_elem?_in charset k (omega arith) in
      let (s, d, m, q) = draw_bytes_lem charset n (i + 1) a l in
      (c ∷ s, rw (e, byte_at, g, d), omega arith, rw (get_elem?-AllAlphanumeric charset k c a g) q)

  -- `NextRandomID(n)` for an `n` that is not negative gives a text of `n` letters and digits, when the
  -- random numbers are given and below 62.
  pub next_random_id_lem :
      (n : ℕ)
      → (s : Str) × (next_random_id src (pos n ∷ []) ≡ ok s) × (length s ≡ n) × AllAlphanumeric s
  unfolding next_random_id next_ids generate_random_id apply_options
  next_random_id_lem n =
      let (s, d, l, a) = draw_bytes_lem (random_charset src) n 0 refl refl in
      (s, rw (next_random_id, next_ids, generate_random_id, d, append-nil), l, a)

apply_from-append :
    (xs ys : List (IdOptions → IdOptions)) (o : IdOptions)
    → apply_from (xs ++ ys) o ≡ apply_from ys (apply_from xs o)
unfolding apply_from
apply_from-append [] ys o = refl
apply_from-append (f ∷ xs) ys o = apply_from-append xs ys (f o)

abbrev pub affix : Str → Str → Result Panic Str → Result Panic Str
affix p s (ok t) = ok (p ++ (t ++ s))
affix p s (err e) = err e

abbrev pub affixed : Str → Str → List (IdOptions → IdOptions) → List (IdOptions → IdOptions)
affixed p s opts = opts ++ with_prefix p ∷ with_suffix s ∷ []

bind-affix :
    (p s : Str) (x : Result Panic Str)
    → (x >>= λ t. ok (p ++ (t ++ s))) ≡ affix p s (x >>= λ t. ok (t ++ []))
bind-affix p s (ok t) = rw append-nil
bind-affix p s (err e) = refl

module _ (src : Sources) where
  -- What `NextIDS` makes of the options that are applied.
  abbrev ids_of : IdOptions → IdType → StoreMode → Result Panic Str
  ids_of o t db = check_store src o.has_context >>= λ _. text_of src o t (handle_db_store_id src o)
  ids_of o t real_time =
      text_of src o t (next_id_of src o t) >>= λ x. ok (o.prefix ++ (x ++ o.suffix))

  next_ids-ids_of :
      (opts : List (IdOptions → IdOptions))
      → let o = apply_options opts in next_ids src opts ≡ ids_of o o.id_type o.store_mode
  unfolding next_ids next_id handle_db_store_string_id
  next_ids-ids_of opts = go (apply_options opts).store_mode
    where
      go :
          (m : StoreMode)
          → next_ids_in src opts (apply_options opts) m
            ≡ ids_of (apply_options opts) (apply_options opts).id_type m
      go real_time = refl
      go db = refl

  apply_options-affixed :
      (p s : Str) (opts : List (IdOptions → IdOptions))
      → apply_options (affixed p s opts) ≡ record (apply_options opts) { prefix = p; suffix = s }
  unfolding apply_options apply_from
  apply_options-affixed p s opts =
      apply_from-append opts (with_prefix p ∷ with_suffix s ∷ []) default_options

  numeric-affix :
      (p s : Str) (o : IdOptions) (m : StoreMode)
      → next_id_in src (record o { prefix = p; suffix = s }) m
        ≡ next_id_in src (record o { prefix = []; suffix = [] }) m
  unfolding handle_db_store_id
  numeric-affix p s o real_time = refl
  numeric-affix p s o db = refl

  real_time-affix :
      (p s : Str) (o : IdOptions) (t : IdType)
      → ids_of (record o { prefix = p; suffix = s }) t real_time
        ≡ affix p s (ids_of (record o { prefix = []; suffix = [] }) t real_time)
  unfolding generate_readable_id generate_random_id handle_db_store_id
  real_time-affix p s o timing = rw (numeric-affix p s o o.store_mode) (
      bind-affix p s
        (to_text src (next_id_in src (record o { prefix = []; suffix = [] }) o.store_mode)))
  real_time-affix p s o sonyflake = rw (numeric-affix p s o o.store_mode) (
      bind-affix p s
        (to_text src (next_id_in src (record o { prefix = []; suffix = [] }) o.store_mode)))
  real_time-affix p s o readable = bind-affix p s (generate_readable_id src o)
  real_time-affix p s o random = bind-affix p s (generate_random_id src o)

  db-affix :
      (p s : Str) (o : IdOptions) (t : IdType)
      → ids_of (record o { prefix = p; suffix = s }) t db
        ≡ ids_of (record o { prefix = []; suffix = [] }) t db
  unfolding generate_readable_id generate_random_id handle_db_store_id
  db-affix p s o timing = refl
  db-affix p s o sonyflake = refl
  db-affix p s o readable = refl
  db-affix p s o random = refl

  -- In the mode without a store, `NextIDS` puts the prefix before and the suffix behind the text that
  -- it gives without them, and panics where it does without them.
  pub next_ids-affixed :
      (opts : List (IdOptions → IdOptions)) (p s : Str)
      → (apply_options opts).store_mode ≡ real_time
      → next_ids src (affixed p s opts) ≡ affix p s (next_ids src (affixed [] [] opts))
  next_ids-affixed opts p s h =
      rw
        (
          next_ids-ids_of,
          next_ids-ids_of,
          apply_options-affixed p s opts,
          apply_options-affixed [] [] opts,
        )
        (let o = apply_options opts in
          subst
            (λ m.
              ids_of (record o { prefix = p; suffix = s }) o.id_type m
              ≡ affix p s (ids_of (record o { prefix = []; suffix = [] }) o.id_type m))
            (sym h) (real_time-affix p s o o.id_type))

  -- In the mode with a store, `NextIDS` drops the prefix and the suffix.
  pub next_ids_db_drops :
      (opts : List (IdOptions → IdOptions)) (p s : Str)
      → (apply_options opts).store_mode ≡ db
      → next_ids src (affixed p s opts) ≡ next_ids src (affixed [] [] opts)
  next_ids_db_drops opts p s h =
      rw
        (
          next_ids-ids_of,
          next_ids-ids_of,
          apply_options-affixed p s opts,
          apply_options-affixed [] [] opts,
        )
        (let o = apply_options opts in
          subst
            (λ m.
              ids_of (record o { prefix = p; suffix = s }) o.id_type m
              ≡ ids_of (record o { prefix = []; suffix = [] }) o.id_type m)
            (sym h) (db-affix p s o o.id_type))
