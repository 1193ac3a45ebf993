-- ===== src/Account/ProfileChecks.antt =====
-- station/frame/touch/model/profile.go: the checks of a profile's changes and of peers ids, with Go's regular
-- expressions written out as tests of bytes.
use peers_touch_go.Prelude.{
  ℕ, Bool, true, false, ◌&&◌, ◌||◌, [], ◌∷◌, Option, none, some, Str, codes, leb, ◌==◌,
  if◌then◌else◌, length, str_eq,
}
use peers_touch_go.Prelude.Text.{is_digit}
use peers_touch_go.Account.Validation.{all_of, is_letter, local_matches}

pub record ProfileUpdate : Type 0 where
  pub profile_photo : Option Str
  pub gender : Option Str
  pub region : Option Str
  pub email : Option Str
  pub whats_up : Option Str

pub data ProfileError : Type 0 where
  invalid_gender invalid_profile_email region_too_long whats_up_too_long photo_too_long :
      ProfileError
  empty_peers_id invalid_peers_id : ProfileError

abbrev pub gender_allowed : Option Str → Bool
gender_allowed none = true
gender_allowed (some g) =
    str_eq g (codes "male") || (str_eq g (codes "female") || str_eq g (codes "other"))

abbrev pub email_allowed : Option Str → Bool
email_allowed none = true
email_allowed (some []) = true
email_allowed (some (c ∷ s)) = local_matches false (c ∷ s)

abbrev pub within : ℕ → Option Str → Bool
within limit none = true
within limit (some s) = leb (length s) limit

unfoldable pub validate_update : ProfileUpdate → Option ProfileError
unfolding str_eq local_matches
validate_update p =
    if gender_allowed p.gender
    then if email_allowed p.email
      then if within 100 p.region
        then if within 1000 p.whats_up
          then if within 500 p.profile_photo then none else some photo_too_long
          else some whats_up_too_long
        else some region_too_long
      else some invalid_profile_email
    else some invalid_gender

abbrev pub is_peers_id_char : ℕ → Bool
is_peers_id_char c = is_letter c || (is_digit c || c == b'_')

-- `^[a-zA-Z0-9_]{3,50}$`
unfoldable pub validate_peers_id : Str → Option ProfileError
validate_peers_id [] = some empty_peers_id
validate_peers_id (c ∷ s) =
    let t = c ∷ s in
    if leb 3 (length t) && (leb (length t) 50 && all_of is_peers_id_char t)
    then none
    else some invalid_peers_id
