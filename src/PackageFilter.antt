-- ===== src/PackageFilter.antt =====
-- station/frame/core/plugin/logger/logrus/pkg_filter.go: which packages may log, and the package of a caller.
-- `ToSlash` changes nothing where paths have slashes. The inner formatter is a parameter.
pub mod Allowed
mod Tests
use peers_touch_go.Prelude.{
  ℕ, Bool, true, false, List, [], ◌∷◌, Option, none, some, Str, codes, str_eq, any, ◌==◌,
  if◌then◌else◌,
}
use peers_touch_go.Prelude.Dict
use peers_touch_go.Prelude.Dict.{Dict}
use peers_touch_go.Prelude.Text.{has_prefix}

pub record Filter : Type 0 where
  pub inclusions : List Str
  pub exclusions : List Str

-- What stands before a star at the end, if there is one.
unfoldable pub trim_star : Str → Option Str
trim_star [] = none
trim_star (c ∷ []) = if c == b'*' then some [] else none
trim_star (c ∷ d ∷ s) = elim (trim_star (d ∷ s)) [ none ↦ none | some r ↦ some (c ∷ r) ]

abbrev pub match_with : Option Str → Str → Str → Bool
match_with none pattern s = str_eq s pattern
match_with (some prefix) pattern s = has_prefix s prefix

unfoldable pub matches : Str → Str → Bool
unfolding trim_star has_prefix str_eq
matches [] s = false
matches (c ∷ p) s = match_with (trim_star (c ∷ p)) (c ∷ p) s

abbrev pub is_nil : {A : Type 0} → List A → Bool
is_nil [] = true
is_nil (x ∷ l) = false

unfoldable pub allow_package : Filter → Str → Bool
unfolding matches any
allow_package f s =
    if any (λ p. matches p s) f.exclusions
    then false
    else if is_nil f.inclusions
    then true
    else any (λ p. matches p s) f.inclusions

-- `s[:strings.LastIndex(s, sep)]` and `s[LastIndex + 1:]` of a byte, where it occurs.
unfoldable pub cut_last : ℕ → Str → Option (Str × Str)
cut_last sep [] = none
cut_last sep (c ∷ s) = elim (cut_last sep s) [
  | some (a, b) ↦ some (c ∷ a, b)
  | none ↦ if c == sep then some ([], s) else none
]

abbrev pub before_last : ℕ → Str → Str
before_last sep s = elim (cut_last sep s) [ none ↦ s | some (a, b) ↦ a ]

abbrev pub after_last : ℕ → Str → Str
after_last sep s = elim (cut_last sep s) [ none ↦ s | some (a, b) ↦ b ]

-- The function of the caller, if it is known.
unfoldable pub caller_package_path : Option Str → Str
unfolding cut_last
caller_package_path none = []
caller_package_path (some fn) = before_last b'.' fn

unfoldable pub tail_package : Str → Str
unfolding cut_last
tail_package s = after_last b'/' s

pub record Entry : Type 0 where
  pub caller : Option Str
  pub fields : Option (Dict Str)

abbrev pub with_package : Str → Option (Dict Str) → Option (Dict Str)
with_package path none = none
with_package path (some m) =
    some (Dict.put (codes "pkg_path") path (Dict.put (codes "pkg") (tail_package path) m))

-- Both the hook and the formatter add the package to the fields, where there are fields.
unfoldable pub fire : Entry → Entry
unfolding caller_package_path tail_package
fire e = record e { fields = with_package (caller_package_path e.caller) e.fields }

module _ {A : Type 0} (inner : Entry → A) (suppressed : A) where
  unfoldable pub format : Filter → Entry → A
  unfolding fire allow_package
  format f e =
      if (if is_nil f.inclusions then is_nil f.exclusions else false)
      then inner e
      else if allow_package f (caller_package_path e.caller)
      then inner (fire e)
      else suppressed
