-- ===== src/Account/Validation/Passwords.antt =====
-- station/frame/touch/util/validation.go: which passwords the default configuration takes.
use peers_touch_go.Prelude.{
  ◌≤◌, Bool, true, false, [], ◌∷◌, ◌++◌, none, Str, codes, length, any, ◌≡◌, ◌↔◌, arith,
}
use peers_touch_go.Prelude.Text.{is_digit}
use peers_touch_go.Account.Validation.{
  all_of, is_letter, is_symbol, is_password_char, validate_password, named_unless, missing_error,
}

-- Eight to twenty characters, each of them allowed, with one at least of each kind.
abbrev pub IsPassword : Str → Type 0
IsPassword s =
    (8 ≤ length s)
    × (length s ≤ 20)
    × (all_of is_password_char s ≡ true)
    × (any is_digit s ≡ true)
    × (any is_letter s ≡ true)
    × (any is_symbol s ≡ true)

check_kinds_iff :
    (d l y : Bool)
    → (missing_error (
          named_unless d (codes "numbers")
          ++ (named_unless l (codes "English letters") ++ named_unless y (codes "symbols")))
        ≡ none)
      ↔ ((d ≡ true) × (l ≡ true) × (y ≡ true))
check_kinds_iff true true true = ground arith
check_kinds_iff true true false = ground arith
check_kinds_iff true false y = ground arith
check_kinds_iff false l y = ground arith

-- Without a configuration, exactly the passwords of eight to twenty allowed characters are taken that
-- have a digit, an English letter and a symbol.
pub validate_password_iff : (s : Str) → (validate_password s none ≡ none) ↔ IsPassword s
unfolding validate_password
validate_password_iff [] = ground arith
validate_password_iff (c ∷ s) =
    let t = c ∷ s in
    ground (arith, check_kinds_iff (any is_digit t) (any is_letter t) (any is_symbol t))
