-- ===== src/Paging/Tests.antt =====
-- Two pages of five items.
use peers_touch_go.Prelude.{ℕ, ◌+◌, ◌≡◌, refl, List, [], ◌∷◌}
use peers_touch_go.Prelude.Int.{pos}
use peers_touch_go.Paging.{page, slice}

abbrev items : List ℕ
items = 10 ∷ 11 ∷ 12 ∷ 13 ∷ 14 ∷ []

first_page : slice (pos 1) (pos 2) items ≡ page (11 ∷ 12 ∷ [])
unfolding slice
first_page = refl

second_page : slice (pos (1 + 2)) (pos 4) items ≡ page (13 ∷ 14 ∷ [])
unfolding slice
second_page = refl
