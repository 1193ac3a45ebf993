-- ===== src/Identifiers/Tests.antt =====
-- Sources of ids that give the same id and draw the same letter each time.
use peers_touch_go.Prelude.{ℕ, ◌<◌, ◌≡◌, refl, true, List, [], ◌∷◌, some, codes, arith}
use peers_touch_go.Identifiers.{IdOptions, Sources, db, with_store_mode, apply_options}

abbrev sources : Sources
sources = record {
  flake = some 41;
  store_ok = true;
  draw = λ i. some 9;
  now_text = codes "20240101-000000";
}

draws : (i : ℕ) → (n : ℕ) × (sources.draw i ≡ some n) × (n < 62)
draws i = (9, refl, omega arith)

abbrev stored : List (IdOptions → IdOptions)
stored = with_store_mode db ∷ []

stored_mode : (apply_options stored).store_mode ≡ db
unfolding apply_options
stored_mode = refl
