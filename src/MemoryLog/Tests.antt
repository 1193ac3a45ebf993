-- ===== src/MemoryLog/Tests.antt =====
-- A log of two messages, read for what is later than the second.
use peers_touch_go.Prelude.{ℕ, ◌≡◌, refl, [], ◌∷◌, Str, codes, keep}
use peers_touch_go.Ring.{Buffer, Entry}
use peers_touch_go.Ring.History.{is_after}

abbrev entry : Str → ℕ → Entry Str
entry m t = record { value = m; timestamp = t }

abbrev two_lines : Buffer Str
two_lines = record {
  size = 2;
  vals = entry (codes "up") 6 ∷ entry (codes "down") 7 ∷ [];
  streams = [];
}

none_later : keep (is_after 7) two_lines.vals ≡ []
unfolding keep
none_later = refl
