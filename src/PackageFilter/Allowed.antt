-- ===== src/PackageFilter/Allowed.antt =====
-- station/frame/core/plugin/logger/logrus/pkg_filter.go: what a pattern matches.
use peers_touch_go.Prelude.{
  true, [], ◌∷◌, ◌++◌, Option, none, some, Str, str_eq, str_eq_iff, ◌≡◌, ◌≢◌, ◌↔◌, arith, refl, sym,
  ap, ◌∙◌,
}
use peers_touch_go.Prelude.Text.{has_prefix}
use peers_touch_go.PackageFilter.{trim_star, match_with, matches}

trim_star-star : (p : Str) → trim_star (p ++ b'*' ∷ []) ≡ some p
unfolding trim_star
trim_star-star [] = refl
trim_star-star (c ∷ []) = refl
trim_star-star (c ∷ d ∷ p) = rw (trim_star-star (d ∷ p)) refl

has_prefix-append : (p r : Str) → has_prefix (p ++ r) p ≡ true
unfolding has_prefix
has_prefix-append [] r = refl
has_prefix-append (c ∷ p) r = ground (arith, has_prefix-append p r)

has_prefix-rest : (s p : Str) → has_prefix s p ≡ true → (r : Str) × (s ≡ p ++ r)
unfolding has_prefix
has_prefix-rest s [] h = (s, refl)
has_prefix-rest [] (c ∷ p) h = absurd (ground arith)
has_prefix-rest (d ∷ s) (c ∷ p) h =
    let (r, e) = has_prefix-rest s p (ground arith) in (r, ground arith)

star_matches : (p s : Str) → matches (p ++ b'*' ∷ []) s ≡ has_prefix s p
unfolding matches trim_star
star_matches [] s = refl
star_matches (c ∷ p) s =
    ap (λ (o : Option Str). match_with o (c ∷ p ++ b'*' ∷ []) s) (trim_star-star (c ∷ p))

-- A pattern that ends with a star matches exactly the packages that begin with what stands before the
-- star.
pub matches-star_iff :
    (p s : Str) → (matches (p ++ b'*' ∷ []) s ≡ true) ↔ ((r : Str) × (s ≡ p ++ r))
matches-star_iff p s = (
  (λ h. has_prefix-rest s p (sym (star_matches p s) ∙ h)),
  (λ h. let (r, e) = h in rw e (star_matches p (p ++ r) ∙ has_prefix-append p r)),
)

plain_matches : (p s : Str) → p ≢ [] → trim_star p ≡ none → matches p s ≡ str_eq s p
unfolding matches
plain_matches [] s n h = absurd (n refl)
plain_matches (c ∷ p) s n h = rw h refl

-- Any other pattern that is not empty matches exactly itself.
pub matches-plain_iff : (p s : Str) → p ≢ [] → trim_star p ≡ none → (matches p s ≡ true) ↔ (s ≡ p)
matches-plain_iff p s n h = (
  (λ e. (str_eq_iff s p).0 (sym (plain_matches p s n h) ∙ e)),
  (λ e. plain_matches p s n h ∙ (str_eq_iff s p).1 e),
)
