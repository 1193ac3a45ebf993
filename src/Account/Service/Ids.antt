-- ===== src/Account/Service/Ids.antt =====
-- station/frame/touch/actor: what the generated ids are, and that the loop over them ends.
use peers_touch_go.Prelude.{
  ℕ, zero, suc, ◌+◌, ◌*◌, ◌/◌, ◌%◌, ◌<◌, ◌≤◌, Bool, true, List, [], ◌∷◌, ◌++◌, Option, none, some,
  Str, codes, leb, if◌then◌else◌, length, length-append, length-take, take, keep, ◌≡◌, arith, refl,
}
use peers_touch_go.Prelude.Text.{decimal, decimal_from}
use peers_touch_go.Account.ProfileChecks.{is_peers_id_char, validate_peers_id}
use peers_touch_go.Account.Validation.{all_of}
use peers_touch_go.Account.Service.{
  is_alphanumeric, or_default, generate_id, generate_peers_actor_id, generate_peers_id, drawn,
  unique_id,
}

all_of-append :
    (p : ℕ → Bool) (s t : Str) → all_of p s ≡ true → all_of p t ≡ true → all_of p (s ++ t) ≡ true
all_of-append p [] t h k = k
all_of-append p (c ∷ s) t h k = ground (arith, all_of-append p s t)

keep-all_of : (s : Str) → all_of is_peers_id_char (keep is_alphanumeric s) ≡ true
unfolding keep
keep-all_of [] = refl
keep-all_of (c ∷ s) = ground (arith, keep-all_of s)

length-keep_le : (s : Str) → length (keep is_alphanumeric s) ≤ length s
unfolding keep
length-keep_le [] = omega arith
length-keep_le (c ∷ s) = ground (arith, length-keep_le s)

abbrev tens : ℕ → ℕ
tens zero = 1
tens (suc k) = 10 * tens k

length-decimal_from :
    (k fuel n : ℕ) (rest : Str)
    → n < tens (suc k)
    → (length rest + 1 ≤ length (decimal_from (suc fuel) n rest))
      × (length (decimal_from (suc fuel) n rest) ≤ length rest + suc k)
unfolding decimal_from
length-decimal_from k zero n rest h = ground arith
length-decimal_from zero (suc fuel) n rest h = ground arith
length-decimal_from (suc k) (suc fuel) n rest h =
    ground (arith, length-decimal_from k fuel (n / 10) ((b'0' + n % 10) ∷ rest))

decimal_from-all_of :
    (fuel n : ℕ) (rest : Str)
    → all_of is_peers_id_char rest ≡ true
    → all_of is_peers_id_char (decimal_from fuel n rest) ≡ true
unfolding decimal_from
decimal_from-all_of zero n rest h = h
decimal_from-all_of (suc fuel) n rest h =
    ground (arith, decimal_from-all_of fuel (n / 10) ((b'0' + n % 10) ∷ rest))

-- A clean prefix of one to three characters.
abbrev IsPrefix : Str → Type 0
IsPrefix s = (1 ≤ length s) × (length s ≤ 3) × (all_of is_peers_id_char s ≡ true)

or_default-IsPrefix :
    (d s : Str)
    → IsPrefix d
    → length s ≤ 3
    → all_of is_peers_id_char s ≡ true
    → IsPrefix (or_default d s)
or_default-IsPrefix d [] h l a = h
or_default-IsPrefix d (c ∷ s) h l a = (omega arith, l, a)

validate_peers_id-given :
    (t : Str)
    → 3 ≤ length t
    → length t ≤ 50
    → all_of is_peers_id_char t ≡ true
    → validate_peers_id t ≡ none
unfolding validate_peers_id
validate_peers_id-given [] h k a = absurd (omega arith)
validate_peers_id-given (c ∷ t) h k a = ground arith

generate_id-valid :
    (d name : Str) (n : ℕ)
    → IsPrefix d
    → (validate_peers_id (generate_id d name n) ≡ none) × (length (generate_id d name n) ≤ 10)
unfolding generate_id decimal
generate_id-valid d name n h =
    let prefix = if leb 3 (length name) then take 3 name else name in
    let short : length prefix ≤ 3 = ground (arith, length-take 3 name) in
    let (l, k, a) =
      or_default-IsPrefix d (keep is_alphanumeric prefix) h (omega (arith, length-keep_le prefix))
        (keep-all_of prefix) in
    let clean = or_default d (keep is_alphanumeric prefix) in
    let number = decimal (n % 1000000) in
    let (low, high) = length-decimal_from 5 19 (n % 1000000) [] (omega arith) in
    let e = length-append clean (b'_' ∷ number) in
    let c =
      all_of-append is_peers_id_char clean (b'_' ∷ number) a
        (decimal_from-all_of 20 (n % 1000000) [] refl) in
    (validate_peers_id-given _ (omega arith) (omega arith) c, omega arith)

-- Whatever the name and the snowflake id, the id made of them passes the check of peers ids, for an actor
-- as for a profile, and has ten bytes at most.
pub validate_peers_id-generate :
    (name : Str) (n : ℕ)
    → ((validate_peers_id (generate_peers_actor_id name n) ≡ none)
        × (length (generate_peers_actor_id name n) ≤ 10))
      × ((validate_peers_id (generate_peers_id name n) ≡ none)
          × (length (generate_peers_id name n) ≤ 10))
validate_peers_id-generate name n = (
  generate_id-valid (codes "act") name n (omega arith, omega arith, refl),
  generate_id-valid (codes "usr") name n (omega arith, omega arith, refl),
)

-- Each of the ids made of the snowflake ids is found in some row.
abbrev pub AllTaken : (Str → Option ℕ) → (ℕ → Str) → List ℕ → Type 0
AllTaken count make [] = Unit
AllTaken count make (n ∷ ids) =
    ((k : ℕ) × (count (make n) ≡ some (suc k))) × AllTaken count make ids

-- The loop ends as soon as a snowflake id gives an id that no row has, however many before it gave taken
-- ones: it returns that id, and the snowflake ids after it are left.
pub unique_id-free :
    (count : Str → Option ℕ) (make : ℕ → Str) (before : List ℕ) (n : ℕ) (after : List ℕ)
    → AllTaken count make before
    → count (make n) ≡ some 0
    → unique_id count make (before ++ n ∷ after) ≡ drawn (make n) after
unfolding unique_id
unique_id-free count make [] n after t f = rw f refl
unique_id-free count make (m ∷ before) n after ((k, e), t) f =
    rw e (unique_id-free count make before n after t f)
