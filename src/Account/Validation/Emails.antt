-- ===== src/Account/Validation/Emails.antt =====
-- station/frame/touch/util/validation.go: which email addresses are taken.
use mathlib.Core.Bool.{false≢true}
use peers_touch_go.Prelude.{
  ℕ, ◌≤◌, Bool, true, false, ◌&&◌, [], ◌∷◌, ◌++◌, none, Str, ◌==◌, length, ◌≡◌, ◌≢◌, ◌↔◌, arith,
  refl, ap, Bool-cases, inl, inr,
}
use peers_touch_go.Account.Validation.{
  all_of, is_letter, is_local_char, is_domain_char, is_top_level, domain_matches, local_matches,
  validate_email,
}

abbrev pub Ready : Bool → Str → Type 0
Ready true s = Unit
Ready false s = s ≢ []

abbrev pub IsDomain : Bool → Str → Type 0
IsDomain seen t =
    (s : Str) × (top : Str) × (t ≡ s ++ b'.' ∷ top)
    × (Ready seen s)
    × (all_of is_domain_char s ≡ true)
    × (2 ≤ length top)
    × (all_of is_letter top ≡ true)

dot_here :
    (seen : Bool) (c : ℕ) (t : Str)
    → seen && (c == b'.' && is_top_level t) ≡ true
    → IsDomain seen (c ∷ t)
dot_here false c t h = absurd (false≢true h)
dot_here true c t h = ([], t, ground arith, tt, refl, ground arith, ground arith)

Ready-cons : (seen : Bool) (c : ℕ) (s : Str) → Ready seen (c ∷ s)
Ready-cons true c s = tt
Ready-cons false c s = λ e. cc

dot_there :
    (seen : Bool) (c : ℕ) (t : Str)
    → is_domain_char c ≡ true
    → IsDomain true t
    → IsDomain seen (c ∷ t)
dot_there seen c t h (s, top, e, r, a, l, b) =
    (c ∷ s, top, ap (λ z. c ∷ z) e, Ready-cons seen c s, ground arith, l, b)

domain_matches_sound : (seen : Bool) (t : Str) → domain_matches seen t ≡ true → IsDomain seen t
unfolding domain_matches
domain_matches_sound seen [] h = absurd (false≢true h)
domain_matches_sound seen (c ∷ t) h = elim (Bool-cases (seen && (c == b'.' && is_top_level t))) [
  | inl y ↦ dot_here seen c t y
  | inr n ↦ dot_there seen c t (ground arith) (domain_matches_sound true t (ground arith))
]

domain_matches_complete :
    (seen : Bool) (s top : Str)
    → Ready seen s
    → all_of is_domain_char s ≡ true
    → 2 ≤ length top
    → all_of is_letter top ≡ true
    → domain_matches seen (s ++ b'.' ∷ top) ≡ true
unfolding domain_matches
domain_matches_complete true [] top r a l b = ground arith
domain_matches_complete false [] top r a l b = absurd (r refl)
domain_matches_complete seen (c ∷ s) top r a l b =
    ground (arith, domain_matches_complete true s top tt)

-- A local part, `@`, a domain, a dot and a top level of letters.
abbrev pub IsEmail : Bool → Str → Type 0
IsEmail seen t =
    (s : Str) × (d : Str) × (t ≡ s ++ b'@' ∷ d)
    × (Ready seen s)
    × (all_of is_local_char s ≡ true)
    × IsDomain false d

at_here :
    (seen : Bool) (c : ℕ) (t : Str)
    → seen && (c == b'@' && domain_matches false t) ≡ true
    → IsEmail seen (c ∷ t)
at_here false c t h = absurd (false≢true h)
at_here true c t h = ([], t, ground arith, tt, refl, domain_matches_sound false t (ground arith))

at_there :
    (seen : Bool) (c : ℕ) (t : Str) → is_local_char c ≡ true → IsEmail true t → IsEmail seen (c ∷ t)
at_there seen c t h (s, d, e, r, a, b) =
    (c ∷ s, d, ap (λ z. c ∷ z) e, Ready-cons seen c s, ground arith, b)

local_matches_sound : (seen : Bool) (t : Str) → local_matches seen t ≡ true → IsEmail seen t
unfolding local_matches
local_matches_sound seen [] h = absurd (false≢true h)
local_matches_sound seen (c ∷ t) h =
    elim (Bool-cases (seen && (c == b'@' && domain_matches false t))) [
      | inl y ↦ at_here seen c t y
      | inr n ↦ at_there seen c t (ground arith) (local_matches_sound true t (ground arith))
    ]

domain_matches_given : (d : Str) → IsDomain false d → domain_matches false d ≡ true
domain_matches_given d (s, top, e, r, a, l, b) = rw e (domain_matches_complete false s top r a l b)

local_matches_complete :
    (seen : Bool) (s d : Str)
    → Ready seen s
    → all_of is_local_char s ≡ true
    → IsDomain false d
    → local_matches seen (s ++ b'@' ∷ d) ≡ true
unfolding local_matches
local_matches_complete true [] d r a i = ground (arith, domain_matches_given d i)
local_matches_complete false [] d r a i = absurd (r refl)
local_matches_complete seen (c ∷ s) d r a i =
    let b : all_of is_local_char s ≡ true = ground arith in
    ground (arith, local_matches_complete true s d tt b i)

email-given : (t : Str) → IsEmail false t → local_matches false t ≡ true
email-given t (s, d, e, r, a, i) = rw e (local_matches_complete false s d r a i)

-- An address is taken exactly when it is a non-empty local part, an `@`, a non-empty domain, a dot and at
-- least two letters, each part of its own characters: what the regular expression describes.
pub validate_email_iff : (t : Str) → (validate_email t ≡ none) ↔ IsEmail false t
unfolding validate_email local_matches
validate_email_iff [] = (λ h. cc, λ h. absurd (false≢true (email-given [] h)))
validate_email_iff (c ∷ t) =
    (λ h. local_matches_sound false (c ∷ t) (ground arith), λ h. rw (email-given (c ∷ t) h) refl)
