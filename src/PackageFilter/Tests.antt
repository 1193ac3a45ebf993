-- ===== src/PackageFilter/Tests.antt =====
-- Some packages and filters.
use peers_touch_go.Prelude.{true, false, [], ◌∷◌, some, codes, str_eq, any, ◌≡◌, refl}
use peers_touch_go.Prelude.Text.{has_prefix}
use peers_touch_go.PackageFilter.{
  Filter, trim_star, matches, allow_package, cut_last, caller_package_path, tail_package,
}

abbrev only_core : Filter
only_core = record { inclusions = codes "a/core*" ∷ []; exclusions = codes "a/core/x" ∷ [] }

allowed : allow_package only_core (codes "a/core/y") ≡ true
unfolding allow_package matches trim_star has_prefix str_eq any
allowed = refl

excluded : allow_package only_core (codes "a/core/x") ≡ false
unfolding allow_package matches trim_star has_prefix str_eq any
excluded = refl

package_of_caller : caller_package_path (some (codes "a/core/x.(T).Run")) ≡ codes "a/core/x.(T)"
unfolding caller_package_path cut_last
package_of_caller = refl

tail_of_package : tail_package (codes "a/core/x") ≡ codes "x"
unfolding tail_package cut_last
tail_of_package = refl
