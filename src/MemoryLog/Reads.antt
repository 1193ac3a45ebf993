-- ===== src/MemoryLog/Reads.antt =====
-- What `Read` returns for a time, for a count, and for both.
use peers_touch_go.Prelude.{ℕ, suc, ◌<◌, ◌≡◌, List, [], ◌∷◌, Str, arith, keep, map, take, take_all}
use peers_touch_go.Prelude.Int.{pos}
use peers_touch_go.Ring.{Buffer, Entry}
use peers_touch_go.Ring.History.{Sorted, is_after, since-keep}
use peers_touch_go.MemoryLog.{to_record, read_with}

module _ (now t : ℕ) (l : Buffer Str) (s : Sorted now l.vals) (h : 0 < t) where
  -- With a time and no count, `Read` returns exactly the records later than it, in order.
  pub read_since :
      read_with now (record { since = t; count = pos 0 }) l
      ≡ map to_record (keep (is_after t) l.vals)
  unfolding read_with
  read_since = ground (arith, since-keep l now t s h)

  -- With a time and a count, where some record is later than the time, `Read` returns the first
  -- records after it, as many as the count says.
  pub read_since_count :
      (n : ℕ) (e : Entry Str) (es : List (Entry Str))
      → keep (is_after t) l.vals ≡ e ∷ es
      → read_with now (record { since = t; count = pos (suc n) }) l
        ≡ map to_record (take (suc n) (e ∷ es))
  unfolding read_with
  read_since_count n e es k = ground (arith, since-keep l now t s h, take_all (suc n) (e ∷ es))

  -- In a log whose times do not fall and lie in the past, where no record is later than a time
  -- that is not zero, `Read` with that time and a count ignores the time and returns the last
  -- records of the log, as if no time had been given.
  pub read_since_none :
      (n : ℕ)
      → keep (is_after t) l.vals ≡ []
      → read_with now (record { since = t; count = pos (suc n) }) l
        ≡ read_with now (record { since = 0; count = pos (suc n) }) l
  unfolding read_with
  read_since_none n k = ground (arith, since-keep l now t s h)
