-- ===== src/Prelude/Text.antt =====
-- The functions of packages `strings` and `strconv` that the program calls, on bytes. `trim_space`
-- takes ASCII white space only: text with other Unicode spaces at its ends is not modelled.
use Prim.Native.Nat.{ℕ, zero, suc, ◌+◌, ◌-◌, ◌*◌, ◌/◌, ◌%◌, ◌^◌}
use mathlib.Core.Bool.{Bool, true, false, ◌||◌, ◌&&◌}
use mathlib.Core.Option.{Option, none, some}
use mathlib.Core.List.{List, [], ◌∷◌, reverse}
use peers_touch_go.Prelude.Tests.{◌==◌, ltb, leb, if◌then◌else◌}
use peers_touch_go.Prelude.Bytes.{Str}
use peers_touch_go.Prelude.Int.{ℤ, pos, negsuc}

-- `strings.HasPrefix`
unfoldable pub has_prefix : Str → Str → Bool
has_prefix s [] = true
has_prefix [] (p ∷ ps) = false
has_prefix (c ∷ s) (p ∷ ps) = c == p && has_prefix s ps

-- `strings.Contains`
unfoldable pub contains : Str → Str → Bool
unfolding has_prefix
contains [] sub = has_prefix [] sub
contains (c ∷ s) sub = if has_prefix (c ∷ s) sub then true else contains s sub

abbrev pub cons_head : ℕ → List Str → List Str
cons_head c [] = (c ∷ []) ∷ []
cons_head c (p ∷ ps) = (c ∷ p) ∷ ps

-- `strings.Split` at a separator of one byte.
unfoldable pub split : ℕ → Str → List Str
split sep [] = [] ∷ []
split sep (c ∷ s) = let rest = split sep s in if c == sep then [] ∷ rest else cons_head c rest

-- `strings.Cut` at a byte.
unfoldable pub cut : ℕ → Str → Option (Str × Str)
cut sep [] = none
cut sep (c ∷ s) =
    let rest = cut sep s in
    if c == sep then some ([], s) else elim rest [ none ↦ none | some (a, b) ↦ some (c ∷ a, b) ]

abbrev pub is_space : ℕ → Bool
is_space c = c == 32 || (leb 9 c && leb c 13)

unfoldable pub trim_left : Str → Str
trim_left [] = []
trim_left (c ∷ s) = if is_space c then trim_left s else c ∷ s

-- `strings.TrimSpace`
unfoldable pub trim_space : Str → Str
unfolding trim_left
trim_space s = reverse (trim_left (reverse (trim_left s)))

abbrev pub is_digit : ℕ → Bool
is_digit c = leb b'0' c && leb c b'9'

unfoldable pub digits : ℕ → Str → Option ℕ
digits acc [] = some acc
digits acc (c ∷ s) = if is_digit c then digits (acc * 10 + (c - b'0')) s else none

abbrev pub in_range : Bool → Option ℕ → Option ℤ
in_range negative none = none
in_range true (some zero) = some (pos 0)
in_range true (some (suc n)) = if ltb n (2 ^ 63) then some (negsuc n) else none
in_range false (some n) = if ltb n (2 ^ 63) then some (pos n) else none

unfoldable pub unsigned : Bool → Str → Option ℤ
unfolding digits
unsigned negative [] = none
unsigned negative (c ∷ s) = in_range negative (digits 0 (c ∷ s))

-- `strconv.Atoi`, with an `int` of 64 bits.
unfoldable pub atoi : Str → Option ℤ
unfolding unsigned
atoi [] = none
atoi (c ∷ s) =
    if c == b'-'
    then unsigned true s
    else if c == b'+'
    then unsigned false s
    else unsigned false (c ∷ s)

-- Decimal digits, on fuel: `n < 10 ^ fuel` is enough.
unfoldable pub decimal_from : ℕ → ℕ → Str → Str
decimal_from zero n rest = rest
decimal_from (suc fuel) n rest =
    let c = b'0' + n % 10 in
    let more = decimal_from fuel (n / 10) (c ∷ rest) in if ltb n 10 then c ∷ rest else more

-- `strconv.FormatUint(n, 10)` and `%d` of a `uint64`: 20 digits hold 2 ^ 64 - 1.
unfoldable pub decimal : ℕ → Str
unfolding decimal_from
decimal n = decimal_from 20 n []
