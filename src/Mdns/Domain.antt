-- ===== src/Mdns/Domain.antt =====
-- station/frame/core/plugin/native/internal/mdns/mdns.go: the domains that namespaces have.
use peers_touch_go.Prelude.{
  ℕ, ◌≤◌, Bool, Bool-cases, true, false, [], ◌∷◌, ◌++◌, ◌≡◌, refl, arith, Str, codes, ltb,
  if◌then◌else◌, length, take, length-take, keep, map, ◌⊎◌, inl, inr,
}
use peers_touch_go.Mdns.{to_lower, is_name_char, short_name, is_standard, generate_dynamic_domain}

abbrev pub AllNameChar : Str → Type 0
AllNameChar [] = Unit
AllNameChar (c ∷ s) = (is_name_char c ≡ true) × AllNameChar s

keep-AllNameChar : (s : Str) → AllNameChar (keep is_name_char s)
unfolding keep
keep-AllNameChar [] = tt
keep-AllNameChar (c ∷ s) = ground (arith, keep-AllNameChar s)

length-keep_le : (p : ℕ → Bool) (s : Str) → length (keep p s) ≤ length s
unfolding keep
length-keep_le p [] = omega arith
length-keep_le p (c ∷ s) = ground (arith, length-keep_le p s)

length-map : (f : ℕ → ℕ) (s : Str) → length (map f s) ≡ length s
length-map f [] = refl
length-map f (c ∷ s) = omega (arith, length-map f s)

length-short_name : (s : Str) → length (short_name s) ≤ 6
unfolding short_name
length-short_name s =
    let short = if ltb 6 (length s) then take 6 s else s in
    let h : length short ≤ 6 = ground (arith, length-take 6 s) in
    let k : length (keep is_name_char (map to_lower short)) ≤ length (map to_lower short) =
      length-keep_le is_name_char (map to_lower short) in
    omega (arith, length-map to_lower short)

short_name-AllNameChar : (s : Str) → AllNameChar (short_name s)
unfolding short_name
short_name-AllNameChar s =
    keep-AllNameChar (map to_lower (if ltb 6 (length s) then take 6 s else s))

abbrev pub HasLabel : Str → Str → Type 0
HasLabel domain label =
    (domain ≡ label ++ codes ".local.")
    × (3 ≤ length label)
    × (length label ≤ 6)
    × AllNameChar label

if-HasLabel :
    (b : Bool) (s : Str)
    → length s ≤ 6
    → AllNameChar s
    → let d =
        if b
        then codes "local."
        else if ltb (length s) 3
        then codes "local."
        else s ++ codes ".local." in
      (d ≡ codes "local.") ⊎ HasLabel d s
if-HasLabel true s h a = inl refl
if-HasLabel false s h a = elim (Bool-cases (ltb (length s) 3)) [
  | inl l ↦ inl (rw l refl)
  | inr g ↦ inr (rw g refl, ground arith, h, a)
]

-- The domain of a namespace is the standard one, or has one label before it, of three to six lower-case
-- letters and digits.
pub generate_dynamic_domain_bounds :
    (s : Str)
    → (generate_dynamic_domain s ≡ codes "local.")
      ⊎ HasLabel (generate_dynamic_domain s) (short_name s)
unfolding generate_dynamic_domain
generate_dynamic_domain_bounds s =
    if-HasLabel (is_standard s) (short_name s) (length-short_name s) (short_name-AllNameChar s)
