-- ===== src/Account/Tests.antt =====
-- A table of actors, and the sign-up of "hanna".
use mathlib.Core.Bool.{false≢true}
use peers_touch_go.Prelude.{
  ℕ, zero, suc, ◌+◌, ◌*◌, ◌/◌, ◌≤◌, Bool, true, false, List, [], ◌∷◌, ◌++◌, Option, none, some, Str,
  codes, str_eq, str_eq_refl, length, keep, ◌≡◌, ◌↔◌, arith, refl, if◌then◌else◌,
}
use peers_touch_go.Prelude.Result.{ok}
use peers_touch_go.Prelude.Text.{decimal, decimal_from}
use peers_touch_go.Account.{SignParams}
use peers_touch_go.Account.ProfileChecks.{validate_peers_id}
use peers_touch_go.Account.Validation.{
  TextLibrary, validate_password, validate_email, validate_name,
}
use peers_touch_go.Account.Validation.Passwords.{IsPassword, validate_password_iff}
use peers_touch_go.Account.Validation.Emails.{IsEmail, validate_email_iff}
use peers_touch_go.Account.Service.{
  Database, Bcrypt, ActorRow, drawn, unique_id, generate_id, generate_peers_actor_id,
  generate_peers_id, sign_up, login,
}
use peers_touch_go.Account.Service.Ids.{validate_peers_id-generate, unique_id-free}
use peers_touch_go.Account.Service.Login.{Laws, HashMatches, login-sign_up}

abbrev Table : Type 0
Table = List ActorRow

unfoldable first_in : Str → Table → Option ActorRow
first_in e [] = none
first_in e (a ∷ t) = if str_eq a.email e then some a else first_in e t

unfoldable count_in : Str → Str → Table → ℕ
count_in n e [] = 0
count_in n e (a ∷ t) =
    let rest = count_in n e t in
    if str_eq a.email e then suc rest else if str_eq a.name n then suc rest else rest

unfoldable count_ids : Str → Table → ℕ
count_ids i [] = 0
count_ids i (a ∷ t) =
    let rest = count_ids i t in if str_eq a.peers_actor_id i then suc rest else rest

abbrev insert_if : Option ActorRow → ActorRow → Table → Bool × Table
insert_if none a t = (true, a ∷ t)
insert_if (some b) a t = (false, t)

abbrev table : Database Table
unfolding first_in count_in count_ids
table = record {
  connected = λ t. true;
  count_existing = λ n e t. some (count_in n e t);
  count_peers_id = λ i t. some (count_ids i t);
  first_by_email = first_in;
  create_actor = λ a t. insert_if (first_in a.email t) a t;
  create_profile = λ p t. (true, t);
}

first_in-insert_if :
    (a : ActorRow) (r : Option ActorRow) (t : Table)
    → (insert_if r a t).0 ≡ true
    → first_in a.email (insert_if r a t).1 ≡ some a
unfolding first_in
first_in-insert_if a none t h = ground (arith, str_eq_refl a.email)
first_in-insert_if a (some b) t h = absurd (false≢true h)

first_in-count_in : (n e : Str) (t : Table) → count_in n e t ≡ 0 → first_in e t ≡ none
unfolding first_in count_in
first_in-count_in n e [] h = refl
first_in-count_in n e (a ∷ t) h = ground (arith, first_in-count_in n e t)

table-Laws : Laws table
unfolding table first_in
table-Laws = record {
  first-create_actor = λ a t. first_in-insert_if a (first_in a.email t) t;
  first-create_profile = λ p e t. refl;
  connected-create_actor = λ a t. refl;
  connected-create_profile = λ p t. refl;
  counted = λ n e t h. first_in-count_in n e t (ground arith);
}

abbrev plain : Bcrypt
plain = record { generate = λ p. some (b'$' ∷ p); matches = λ h p. str_eq h (b'$' ∷ p) }

plain_matches : HashMatches plain
plain_matches = λ p h e. ground (arith, str_eq_refl (b'$' ∷ p))

abbrev hanna : SignParams
hanna = record { name = codes "hanna"; email = codes "h@ex.org"; password = codes "secret-42" }

abbrev hanna_row : ActorRow
hanna_row = record {
  id = 8;
  peers_actor_id = codes "han_7";
  name = codes "hanna";
  email = codes "h@ex.org";
  password_hash = codes "$secret-42";
}

hanna_signed_up : sign_up table plain hanna (7 ∷ 8 ∷ 9 ∷ []) [] ≡ (none, hanna_row ∷ [])
unfolding sign_up table first_in count_in count_ids unique_id generate_id keep decimal decimal_from
    str_eq
hanna_signed_up = refl

login-sign_up_example :
    (a : ActorRow) × (login table plain
        (record { email = codes "h@ex.org"; password = codes "secret-42" })
        (hanna_row ∷ [])
      ≡ ok a)
    × (a.name ≡ codes "hanna")
    × (a.email ≡ codes "h@ex.org")
login-sign_up_example =
    login-sign_up table plain table-Laws plain_matches hanna (7 ∷ 8 ∷ 9 ∷ []) [] (hanna_row ∷ [])
      hanna_signed_up

hanna_found : table.first_by_email (codes "h@ex.org") (hanna_row ∷ []) ≡ some hanna_row
unfolding table first_in str_eq
hanna_found = refl

validate_peers_id-generate_example :
    ((validate_peers_id (generate_peers_actor_id (codes "a.b") 1234567) ≡ none)
      × (length (generate_peers_actor_id (codes "a.b") 1234567) ≤ 10))
    × ((validate_peers_id (generate_peers_id (codes "a.b") 1234567) ≡ none)
        × (length (generate_peers_id (codes "a.b") 1234567) ≤ 10))
validate_peers_id-generate_example = validate_peers_id-generate (codes "a.b") 1234567

abbrev taken_seven : Str → Option ℕ
unfolding str_eq
taken_seven i = if str_eq i (codes "7") then some 1 else some 0

abbrev one_digit : ℕ → Str
one_digit n = (b'0' + n) ∷ []

seven_taken : taken_seven (one_digit 7) ≡ some 1
unfolding taken_seven str_eq
seven_taken = refl

eight_free : taken_seven (one_digit 8) ≡ some 0
unfolding taken_seven str_eq
eight_free = refl

unique_id-free_example :
    unique_id taken_seven one_digit ((7 ∷ []) ++ 8 ∷ 9 ∷ []) ≡ drawn (codes "8") (9 ∷ [])
unique_id-free_example =
    unique_id-free taken_seven one_digit (7 ∷ []) 8 (9 ∷ []) ((0, seven_taken), tt) eight_free

validate_password_iff_example :
    (validate_password (codes "secret-42") none ≡ none) ↔ IsPassword (codes "secret-42")
validate_password_iff_example = validate_password_iff (codes "secret-42")

validate_email_iff_example :
    (validate_email (codes "h@ex.org") ≡ none) ↔ IsEmail false (codes "h@ex.org")
validate_email_iff_example = validate_email_iff (codes "h@ex.org")

-- Four bytes for three, the last of which tells how many of the three there are.
abbrev in_fours : Str → Str
in_fours [] = []
in_fours (a ∷ []) = a ∷ 0 ∷ 0 ∷ 2 ∷ []
in_fours (a ∷ b ∷ []) = a ∷ b ∷ 0 ∷ 1 ∷ []
in_fours (a ∷ b ∷ c ∷ s) = a ∷ b ∷ c ∷ 0 ∷ in_fours s

abbrev cons_three : ℕ → ℕ → ℕ → Option Str → Option Str
cons_three a b c none = none
cons_three a b c (some s) = some (a ∷ b ∷ c ∷ s)

abbrev from_fours : Str → Option Str
from_fours [] = some []
from_fours (a ∷ b ∷ c ∷ zero ∷ s) = cons_three a b c (from_fours s)
from_fours (a ∷ b ∷ c ∷ suc zero ∷ s) = some (a ∷ b ∷ [])
from_fours (a ∷ b ∷ c ∷ suc (suc zero) ∷ s) = some (a ∷ [])
from_fours _ = none

from_fours-in_fours : (s : Str) → from_fours (in_fours s) ≡ some s
from_fours-in_fours [] = refl
from_fours-in_fours (a ∷ []) = refl
from_fours-in_fours (a ∷ b ∷ []) = refl
from_fours-in_fours (a ∷ b ∷ c ∷ s) = rw (from_fours-in_fours s)

length-in_fours : (s : Str) → length (in_fours s) ≡ (length s + 2) / 3 * 4
length-in_fours [] = refl
length-in_fours (a ∷ []) = refl
length-in_fours (a ∷ b ∷ []) = refl
length-in_fours (a ∷ b ∷ c ∷ s) = let h = length-in_fours s in omega arith

abbrev fours : TextLibrary
fours = record {
  rune_count = length;
  encode = in_fours;
  decode = from_fours;
  decode-encode = from_fours-in_fours;
  length-encode = length-in_fours;
}

hanna_encoded : validate_name fours (codes "hanna") ≡ ok (in_fours (codes "hanna"))
unfolding validate_name
hanna_encoded = refl
