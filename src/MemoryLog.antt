-- ===== src/MemoryLog.antt =====
-- station/frame/core/debug/log/memory/memory.go: a log kept in a ring buffer. A message is its text;
-- `Stream`, which copies entries from one channel to another in a goroutine, is not modelled.
pub mod Reads
mod Tests
use Prim.Native.Nat.{zero, suc}
use peers_touch_go.Prelude.{
  ℕ, Bool, true, false, List, [], ◌∷◌, Option, none, some, Str, ltb, ◌==◌, if◌then◌else◌, length,
  take, map,
}
use peers_touch_go.Prelude.Int.{ℤ, pos, negsuc}
use peers_touch_go.Ring
use peers_touch_go.Ring.{Buffer, Entry}

pub record Record : Type 0 where
  pub timestamp : ℕ
  pub message : Str

pub record ReadOptions : Type 0 where
  pub since : ℕ
  pub count : ℤ

abbrev pub default_options : ReadOptions
default_options = record { since = 0; count = pos 0 }

-- `NewLog`, given the size that its options set.
unfoldable pub new_log : ℕ → Buffer Str
unfolding Ring.new
new_log size = Ring.new size

unfoldable pub write : (Str → Bool) → ℕ → Str → Buffer Str → Option (Buffer Str)
unfolding Ring.put_value
write prefer now message l = Ring.put_value prefer now l message

unfoldable pub apply_options : List (ReadOptions → ReadOptions) → ReadOptions → ReadOptions
apply_options [] o = o
apply_options (f ∷ fs) o = apply_options fs (f o)

-- The entries that the first `if` of `Read` leaves.
abbrev pub since_entries : ℕ → ReadOptions → Buffer Str → List (Entry Str)
since_entries now o l = if o.since == 0 then [] else Ring.since l now o.since

-- The `switch` on whether there are any.
abbrev pub limit_entries : ℕ → Buffer Str → List (Entry Str) → List (Entry Str)
limit_entries n l [] = Ring.get l (pos n)
limit_entries n l (e ∷ es) = if ltb n (length (e ∷ es)) then take n (e ∷ es) else e ∷ es

abbrev pub counted_entries : ℤ → Buffer Str → List (Entry Str) → List (Entry Str)
counted_entries (pos zero) l es = es
counted_entries (pos (suc n)) l es = limit_entries (suc n) l es
counted_entries (negsuc n) l es = es

abbrev pub to_record : Entry Str → Record
to_record e = record { timestamp = e.timestamp; message = e.value }

unfoldable pub read_with : ℕ → ReadOptions → Buffer Str → List Record
unfolding Ring.since Ring.get
read_with now o l = map to_record (counted_entries o.count l (since_entries now o l))

unfoldable pub read : ℕ → List (ReadOptions → ReadOptions) → Buffer Str → List Record
unfolding read_with apply_options
read now opts l = read_with now (apply_options opts default_options) l
