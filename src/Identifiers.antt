-- ===== src/Identifiers.antt =====
-- station/frame/core/util/id/id.go: numeric and text ids. What sonyflake, the store, the clock and
-- `crypto/rand` give in one call is the parameter `Sources`. A panic is a result.
pub mod Texts
mod Tests
use Prim.Native.Nat.{zero, suc}
use peers_touch_go.Prelude.{
  ℕ, ◌+◌, ◌<◌, ◌≡◌, Bool, true, false, List, [], ◌∷◌, ◌++◌, Option, none, some, Str, codes,
  get_elem?, if◌then◌else◌, ltb, ◌==◌,
}
use peers_touch_go.Prelude.Result.{Result, ok, err, ◌>>=◌}
use peers_touch_go.Prelude.Int.{ℤ, pos, negsuc}
use peers_touch_go.Prelude.Text.{decimal}

pub data IdType : Type 0 where
  timing readable random sonyflake : IdType

pub data StoreMode : Type 0 where
  real_time db : StoreMode

pub record IdOptions : Type 0 where
  pub id_type : IdType
  pub store_mode : StoreMode
  pub prefix : Str
  pub suffix : Str
  pub length : ℤ
  pub timestamp : Bool
  pub separator : Str
  pub has_context : Bool

pub data Panic : Type 0 where
  wrong_type : IdType → Panic
  flake_failed context_required store_failed random_failed bad_length bad_index : Panic

-- `flake`: the next sonyflake id, if there is no error; `draw i`: the i-th random number below 62;
-- `now_text`: the time in the layout 20060102-150405.
pub record Sources : Type 0 where
  pub flake : Option ℕ
  pub store_ok : Bool
  pub draw : ℕ → Option ℕ
  pub now_text : Str

-- An option is a function on the options, as in the code.
abbrev pub with_timing : IdOptions → IdOptions
with_timing o = record o { id_type = timing }

abbrev pub with_readable : IdOptions → IdOptions
with_readable o = record o { id_type = readable }

abbrev pub with_random : IdOptions → IdOptions
with_random o = record o { id_type = random }

abbrev pub with_sonyflake : IdOptions → IdOptions
with_sonyflake o = record o { id_type = sonyflake }

abbrev pub with_store_mode : StoreMode → IdOptions → IdOptions
with_store_mode m o = record o { store_mode = m }

abbrev pub with_prefix : Str → IdOptions → IdOptions
with_prefix s o = record o { prefix = s }

abbrev pub with_suffix : Str → IdOptions → IdOptions
with_suffix s o = record o { suffix = s }

abbrev pub with_length : ℤ → IdOptions → IdOptions
with_length n o = record o { length = n }

abbrev pub with_timestamp : IdOptions → IdOptions
with_timestamp o = record o { timestamp = true }

abbrev pub with_separator : Str → IdOptions → IdOptions
with_separator s o = record o { separator = s }

-- A nil context is none.
abbrev pub with_context : Bool → IdOptions → IdOptions
with_context c o = record o { has_context = c }

abbrev pub default_options : IdOptions
default_options = record {
  id_type = sonyflake;
  store_mode = real_time;
  prefix = [];
  suffix = [];
  length = pos 8;
  timestamp = false;
  separator = codes "-";
  has_context = true;
}

unfoldable pub apply_from : List (IdOptions → IdOptions) → IdOptions → IdOptions
apply_from [] o = o
apply_from (f ∷ fs) o = apply_from fs (f o)

unfoldable pub apply_options : List (IdOptions → IdOptions) → IdOptions
unfolding apply_from
apply_options opts = apply_from opts default_options

module _ (src : Sources) where
  abbrev pub next_flake : Option ℕ → Result Panic ℕ
  next_flake none = err flake_failed
  next_flake (some n) = ok n

  abbrev pub check_store : Bool → Result Panic (Unit {0})
  check_store true = if src.store_ok then ok tt else err store_failed
  check_store false = err context_required

  unfoldable pub handle_db_store_id : IdOptions → Result Panic ℕ
  handle_db_store_id o = check_store o.has_context >>= λ _. next_flake src.flake

  abbrev pub next_id_in : IdOptions → StoreMode → Result Panic ℕ
  next_id_in o db = handle_db_store_id o
  next_id_in o real_time = next_flake src.flake

  abbrev pub next_id_of : IdOptions → IdType → Result Panic ℕ
  next_id_of o readable = err (wrong_type readable)
  next_id_of o random = err (wrong_type random)
  next_id_of o _ = next_id_in o o.store_mode

  unfoldable pub next_id : List (IdOptions → IdOptions) → Result Panic ℕ
  unfolding apply_options handle_db_store_id
  next_id opts = let o = apply_options opts in next_id_of o o.id_type

  abbrev pub byte_at : Str → Option ℕ → Result Panic ℕ
  byte_at charset none = err random_failed
  byte_at charset (some n) = elim (get_elem? charset n) [ none ↦ err bad_index | some c ↦ ok c ]

  -- The loop that draws the bytes from `i` on, `n` of them.
  unfoldable pub draw_bytes : Str → ℕ → ℕ → Result Panic Str
  draw_bytes charset zero i = ok []
  draw_bytes charset (suc n) i =
      byte_at charset (src.draw i) >>= λ c. (draw_bytes charset n (i + 1) >>= λ rest. ok (c ∷ rest))

  -- `make` panics on a negative length.
  abbrev pub draw_text : Str → ℤ → Result Panic Str
  draw_text charset (pos n) = draw_bytes charset n 0
  draw_text charset (negsuc n) = err bad_length

  abbrev pub readable_charset : Str
  readable_charset = codes "abcdefghijklmnopqrstuvwxyzABCDEFGHIJKLMNOPQRSTUVWXYZ0123456789"

  abbrev pub random_charset : Str
  random_charset = codes "0123456789abcdefghijklmnopqrstuvwxyzABCDEFGHIJKLMNOPQRSTUVWXYZ"

  -- `strings.Join` of the random part and, if it is wanted, the time.
  unfoldable pub generate_readable_id : IdOptions → Result Panic Str
  unfolding draw_bytes
  generate_readable_id o = draw_text readable_charset o.length >>= λ part.
      ok (if o.timestamp then part ++ (o.separator ++ src.now_text) else part)

  unfoldable pub generate_random_id : IdOptions → Result Panic Str
  unfolding draw_bytes
  generate_random_id o = draw_text random_charset o.length

  abbrev pub to_text : Result Panic ℕ → Result Panic Str
  to_text n = n >>= λ k. ok (decimal k)

  -- The `switch` of both modes; a numeric id comes from `numeric`.
  abbrev pub text_of : IdOptions → IdType → Result Panic ℕ → Result Panic Str
  text_of o timing numeric = to_text numeric
  text_of o sonyflake numeric = to_text numeric
  text_of o readable numeric = generate_readable_id o
  text_of o random numeric = generate_random_id o

  unfoldable pub handle_db_store_string_id : IdOptions → Result Panic Str
  unfolding handle_db_store_id generate_readable_id generate_random_id decimal
  handle_db_store_string_id o =
      check_store o.has_context >>= λ _. text_of o o.id_type (handle_db_store_id o)

  -- Adding an empty prefix or suffix changes nothing, so the tests for them are left out.
  abbrev pub next_ids_in : List (IdOptions → IdOptions) → IdOptions → StoreMode → Result Panic Str
  next_ids_in opts o db = handle_db_store_string_id o
  next_ids_in opts o real_time =
      text_of o o.id_type (next_id opts) >>= λ s. ok (o.prefix ++ (s ++ o.suffix))

  unfoldable pub next_ids : List (IdOptions → IdOptions) → Result Panic Str
  unfolding apply_options next_id handle_db_store_string_id generate_readable_id generate_random_id
      decimal
  next_ids opts = let o = apply_options opts in next_ids_in opts o o.store_mode

  unfoldable pub next_sonyflake_id : Result Panic ℕ
  unfolding next_id
  next_sonyflake_id = next_id (with_sonyflake ∷ [])

  unfoldable pub next_timing_id : Result Panic ℕ
  unfolding next_id
  next_timing_id = next_id (with_timing ∷ [])

  unfoldable pub next_readable_id : List Str → Result Panic Str
  unfolding next_ids
  next_readable_id [] = next_ids (with_readable ∷ [])
  next_readable_id (p ∷ ps) = next_ids (with_readable ∷ with_prefix p ∷ [])

  unfoldable pub next_random_id : List ℤ → Result Panic Str
  unfolding next_ids
  next_random_id [] = next_ids (with_random ∷ with_length (pos 8) ∷ [])
  next_random_id (n ∷ ns) = next_ids (with_random ∷ with_length n ∷ [])

  unfoldable pub next_id_with_context : Bool → List (IdOptions → IdOptions) → Result Panic ℕ
  unfolding next_id
  next_id_with_context c opts = next_id (opts ++ with_context c ∷ [])

  unfoldable pub next_ids_with_context : Bool → List (IdOptions → IdOptions) → Result Panic Str
  unfolding next_ids
  next_ids_with_context c opts = next_ids (opts ++ with_context c ∷ [])
