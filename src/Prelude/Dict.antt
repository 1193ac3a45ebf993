-- ===== src/Prelude/Dict.antt =====
-- Go maps with string keys, as association lists. The order of the list stands for the order in
-- which one `range` over the map visits it.
use mathlib.Core.Path.{◌≡◌, refl}
use mathlib.Core.Bool.{Bool}
use mathlib.Core.Option.{Option, none, some}
use mathlib.Core.List.{List, [], ◌∷◌}
use Prim.Native.Nat.{◌≤◌}
use native.Mathlib.Omega.{arith}
use peers_touch_go.Prelude.Tests.{if◌then◌else◌}
use peers_touch_go.Prelude.Lists.{length}
use peers_touch_go.Prelude.Bytes.{Str, str_eq, str_eq_iff}

abbrev pub Dict {ℓ} : Type ℓ → Type ℓ
Dict V = List (Str × V)

module _ {ℓ} {V : Type ℓ} where
  -- `v, ok := m[k]`
  unfoldable pub get : Str → Dict V → Option V
  get k [] = none
  get k ((j, v) ∷ m) = if str_eq j k then some v else get k m

  -- `delete(m, k)`
  unfoldable pub remove : Str → Dict V → Dict V
  remove k [] = []
  remove k ((j, v) ∷ m) = let rest = remove k m in if str_eq j k then rest else (j, v) ∷ rest

  -- `m[k] = v`
  unfoldable pub put : Str → V → Dict V → Dict V
  unfolding remove
  put k v m = (k, v) ∷ remove k m

  -- `for k, v := range m { if !p(v) { delete(m, k) } }`
  unfoldable pub retain : (V → Bool) → Dict V → Dict V
  retain p [] = []
  retain p ((j, v) ∷ m) = let rest = retain p m in if p v then (j, v) ∷ rest else rest

  -- The values in the order of a `range`.
  abbrev pub values : Dict V → List V
  values [] = []
  values ((j, v) ∷ m) = v ∷ values m

  -- Every key occurs once, as in a map.
  abbrev pub Distinct : Dict V → Type ℓ
  Distinct [] = Unit
  Distinct ((k, v) ∷ m) = (get k m ≡ none) × Distinct m

  abbrev pub only_if : (V → Bool) → Option V → Option V
  only_if p none = none
  only_if p (some v) = if p v then some v else none

  pub get-remove :
      (k j : Str) (m : Dict V) → get j (remove k m) ≡ (if str_eq k j then none else get j m)
  unfolding get remove
  get-remove k j [] = ground arith
  get-remove k j ((i, v) ∷ m) =
      ground (arith, get-remove k j m, str_eq_iff i k, str_eq_iff i j, str_eq_iff k j)

  pub get-put :
      (k j : Str) (v : V) (m : Dict V)
      → get j (put k v m) ≡ (if str_eq k j then some v else get j m)
  unfolding get put
  get-put k j v m = ground (arith, get-remove k j m)

  pub get-retain-none :
      (p : V → Bool) (k : Str) (m : Dict V) → get k m ≡ none → get k (retain p m) ≡ none
  unfolding get retain
  get-retain-none p k [] h = refl
  get-retain-none p k ((j, v) ∷ m) h = ground (arith, get-retain-none p k m)

  pub get-retain :
      (p : V → Bool) (k : Str) (m : Dict V) → Distinct m → get k (retain p m) ≡ only_if p (get k m)
  unfolding get retain
  get-retain p k [] d = refl
  get-retain p k ((j, v) ∷ m) d =
      ground (arith, get-retain p k m d.1, get-retain-none p j m, str_eq_iff j k)

  pub remove-Distinct : (k : Str) (m : Dict V) → Distinct m → Distinct (remove k m)
  unfolding remove
  remove-Distinct k [] d = tt
  remove-Distinct k ((j, v) ∷ m) d = ground (arith, remove-Distinct k m d.1, get-remove k j m)

  pub put-Distinct : (k : Str) (v : V) (m : Dict V) → Distinct m → Distinct (put k v m)
  unfolding put
  put-Distinct k v m d = ground (arith, remove-Distinct k m d, get-remove k k m, str_eq_iff k k)

  pub retain-Distinct : (p : V → Bool) (m : Dict V) → Distinct m → Distinct (retain p m)
  unfolding retain
  retain-Distinct p [] d = tt
  retain-Distinct p ((j, v) ∷ m) d =
      ground (arith, retain-Distinct p m d.1, get-retain-none p j m d.0)

  pub length-retain_le : (p : V → Bool) (m : Dict V) → length (retain p m) ≤ length m
  unfolding retain
  length-retain_le p [] = omega arith
  length-retain_le p ((j, v) ∷ m) = ground (arith, length-retain_le p m)
