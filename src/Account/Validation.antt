-- ===== src/Account/Validation.antt =====
-- station/frame/touch/util/validation.go and model/actor.go: the checks of what a client sends. Go's regular expressions are written out as tests of bytes. The texts of errors stand
-- as constructors; a negative length in a password's configuration is not modelled.
pub mod Passwords
pub mod Emails
pub mod Names
use peers_touch_go.Prelude.{
  ℕ, zero, suc, ◌+◌, ◌*◌, ◌/◌, Bool, true, false, ◌&&◌, ◌||◌, List, [], ◌∷◌, ◌++◌, Option, none,
  some, Str, codes, ltb, leb, ◌==◌, if◌then◌else◌, length, any, str_eq, ◌≡◌,
}
use peers_touch_go.Prelude.Result.{Result, ok, err}
use peers_touch_go.Prelude.Text.{is_digit}
use peers_touch_go.Account.{SignParams, LoginParams}

abbrev pub all_of : (ℕ → Bool) → Str → Bool
all_of p [] = true
all_of p (c ∷ s) = p c && all_of p s

abbrev pub one_of : Str → ℕ → Bool
one_of [] c = false
one_of (d ∷ s) c = c == d || one_of s c

abbrev pub is_letter : ℕ → Bool
is_letter c = (leb b'a' c && leb c b'z') || (leb b'A' c && leb c b'Z')

-- `[!@#$%^&*()_+\-=\[\]{};':"\|,.<>/?]`
abbrev pub is_symbol : ℕ → Bool
is_symbol = one_of (34 ∷ codes "!@#$%^&*()_+-=[]{};':|,.<>/?")

abbrev pub is_password_char : ℕ → Bool
is_password_char c = is_letter c || (is_digit c || is_symbol c)

-- `pattern`: the test that the expression compiles to, if it does.
pub record PasswordConfig : Type 0 where
  pub pattern : Option (Str → Bool)
  pub min_length : ℕ
  pub max_length : ℕ

abbrev pub default_pattern : Str → Bool
default_pattern s = all_of is_password_char s && (leb 8 (length s) && leb (length s) 20)

abbrev pub default_config : PasswordConfig
default_config = record { pattern = some default_pattern; min_length = 8; max_length = 20 }

pub data PasswordError : Type 0 where
  empty too_short too_long invalid_pattern invalid_characters : PasswordError
  missing : List Str → PasswordError

abbrev pub named_unless : Bool → Str → List Str
named_unless true kind = []
named_unless false kind = kind ∷ []

abbrev pub missing_error : List Str → Option PasswordError
missing_error [] = none
missing_error (k ∷ ks) = some (missing (k ∷ ks))

abbrev pub check_kinds : Str → Option PasswordError
check_kinds s = missing_error (
    named_unless (any is_digit s) (codes "numbers")
    ++ (named_unless (any is_letter s) (codes "English letters")
        ++ named_unless (any is_symbol s) (codes "symbols")))

abbrev pub check_pattern : Str → Option (Str → Bool) → Option PasswordError
check_pattern s none = some invalid_pattern
check_pattern s (some matches) = if matches s then check_kinds s else some invalid_characters

abbrev pub check_password : Str → PasswordConfig → Option PasswordError
check_password s f =
    if ltb (length s) f.min_length
    then some too_short
    else if ltb f.max_length (length s)
    then some too_long
    else check_pattern s f.pattern

abbrev pub config_or_default : Option PasswordConfig → PasswordConfig
config_or_default none = default_config
config_or_default (some f) = f

unfoldable pub validate_password : Str → Option PasswordConfig → Option PasswordError
unfolding any
validate_password [] config = some empty
validate_password (c ∷ s) config = check_password (c ∷ s) (config_or_default config)

pub data NameError : Type 0 where
  empty_name too_few too_many invalid_base64 : NameError

-- `utf8.RuneCountInString` and `base64.StdEncoding`.
pub record TextLibrary : Type 0 where
  pub rune_count : Str → ℕ
  pub encode : Str → Str
  pub decode : Str → Option Str
  pub decode-encode : (s : Str) → decode (encode s) ≡ some s
  pub length-encode : (s : Str) → length (encode s) ≡ (length s + 2) / 3 * 4

module _ (l : TextLibrary) where
  abbrev pub encode_counted : ℕ → Str → Result NameError Str
  encode_counted n s =
      if ltb n 5 then err too_few else if ltb 20 n then err too_many else ok (l.encode s)

  unfoldable pub validate_name : Str → Result NameError Str
  validate_name [] = err empty_name
  validate_name (c ∷ s) = encode_counted (l.rune_count (c ∷ s)) (c ∷ s)

  abbrev pub decoded : Option Str → Result NameError Str
  decoded none = err invalid_base64
  decoded (some s) = ok s

  unfoldable pub decode_name : Str → Result NameError Str
  decode_name [] = err empty_name
  decode_name (c ∷ s) = decoded (l.decode (c ∷ s))

abbrev pub is_local_char : ℕ → Bool
is_local_char c = is_letter c || (is_digit c || one_of (codes "._%+-") c)

abbrev pub is_domain_char : ℕ → Bool
is_domain_char c = is_letter c || (is_digit c || one_of (codes ".-") c)

-- `[a-zA-Z]{2,}$`
abbrev pub is_top_level : Str → Bool
is_top_level s = leb 2 (length s) && all_of is_letter s

-- `[a-zA-Z0-9.-]+\.` before it; `seen`: at least one character of the domain is read.
unfoldable pub domain_matches : Bool → Str → Bool
domain_matches seen [] = false
domain_matches seen (c ∷ s) =
    let more = domain_matches true s in
    (seen && (c == b'.' && is_top_level s)) || (is_domain_char c && more)

-- `^[a-zA-Z0-9._%+-]+@` before that.
unfoldable pub local_matches : Bool → Str → Bool
unfolding domain_matches
local_matches seen [] = false
local_matches seen (c ∷ s) =
    let more = local_matches true s in
    (seen && (c == b'@' && domain_matches false s)) || (is_local_char c && more)

pub data EmailError : Type 0 where
  empty_email invalid_format : EmailError

unfoldable pub validate_email : Str → Option EmailError
unfolding local_matches
validate_email [] = some empty_email
validate_email (c ∷ s) = if local_matches false (c ∷ s) then none else some invalid_format

-- `invalid_passport` is the shared error value, whose message `ReplaceMsg` writes over.
pub data CheckError : Type 0 where
  invalid_name : NameError → CheckError
  invalid_email invalid_passport invalid_password : CheckError

abbrev pub checked_password :
    Option PasswordError → Option PasswordError → Option CheckError × Option PasswordError
checked_password none message = (none, message)
checked_password (some e) message = (some invalid_passport, some e)

abbrev pub then_password :
    Option EmailError → Str → Option PasswordError → Option CheckError × Option PasswordError
then_password (some e) password message = (some invalid_email, message)
then_password none password message =
    checked_password (validate_password password (some default_config)) message

abbrev pub then_email :
    Result NameError Str
    → SignParams
    → Option PasswordError
    → Option CheckError × Option PasswordError
then_email (err e) p message = (some (invalid_name e), message)
then_email (ok encoded) p message = then_password (validate_email p.email) p.password message

-- With the message of the shared error before and after, which is `none` until the first replacement.
-- The encoded name goes into a copy of the parameters.
unfoldable pub check_sign :
    TextLibrary → SignParams → Option PasswordError → Option CheckError × Option PasswordError
unfolding validate_name validate_email validate_password
check_sign l p message = then_email (validate_name l p.name) p message

abbrev pub login_password : Option PasswordError → Option CheckError
login_password none = none
login_password (some e) = some invalid_password

abbrev pub login_email : Option EmailError → Str → Option CheckError
login_email (some e) password = some invalid_email
login_email none password = login_password (validate_password password (some default_config))

unfoldable pub check_login : LoginParams → Option CheckError
unfolding validate_email validate_password
check_login p = login_email (validate_email p.email) p.password
