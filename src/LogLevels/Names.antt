-- ===== src/LogLevels/Names.antt =====
-- station/frame/core/logger/level.go: a level and its name.
use peers_touch_go.Prelude.{
  zero, suc, true, [], Str, codes, str_eq, str_eq_iff, ◌≡◌, ◌≢◌, refl, arith,
}
use peers_touch_go.Prelude.Int.{ℤ, pos, negsuc}
use peers_touch_go.LogLevels.{to_text, get_level}

-- GetLevel reads the name of a level that has one as this level.
pub get_level-to_text : (l : ℤ) → to_text l ≢ [] → get_level (to_text l) ≡ (l, true)
unfolding get_level to_text str_eq
get_level-to_text (pos zero) h = refl
get_level-to_text (pos (suc zero)) h = refl
get_level-to_text (pos (suc (suc zero))) h = refl
get_level-to_text (pos (suc (suc (suc zero)))) h = refl
get_level-to_text (pos (suc (suc (suc (suc n))))) h = absurd (h (ground arith))
get_level-to_text (negsuc zero) h = refl
get_level-to_text (negsuc (suc zero)) h = refl
get_level-to_text (negsuc (suc (suc n))) h = absurd (h (ground arith))

-- A text that GetLevel accepts is the name of the level that it gives.
pub to_text-get_level : (s : Str) → (get_level s).1 ≡ true → to_text (get_level s).0 ≡ s
unfolding get_level to_text
to_text-get_level s h = ground (
  arith,
  str_eq_iff s (codes "trace"),
  str_eq_iff s (codes "debug"),
  str_eq_iff s (codes "info"),
  str_eq_iff s (codes "warn"),
  str_eq_iff s (codes "error"),
  str_eq_iff s (codes "fatal"),
)
