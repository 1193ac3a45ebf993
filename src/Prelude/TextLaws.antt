-- ===== src/Prelude/TextLaws.antt =====
-- What `split`, `contains` and `trim_space` do to a byte that occurs, or does not.
use Prim.Native.Nat.{ℕ, ◌<◌}
use mathlib.Core.Path.{◌≡◌, refl, ◌∙◌}
use mathlib.Core.Bool.{Bool, true, false}
use mathlib.Core.Option.{some}
use mathlib.Core.List.{List, [], ◌∷◌, ◌++◌, reverse, reverse-cons}
use native.Mathlib.Omega.{arith}
use peers_touch_go.Prelude.Tests.{◌==◌, if◌then◌else◌}
use peers_touch_go.Prelude.Lists.{length}
use peers_touch_go.Prelude.Bytes.{Str}
use peers_touch_go.Prelude.Text.{contains, cut, split, cons_head, is_space, trim_left, trim_space}

-- The byte stands in the text.
abbrev pub occurs : ℕ → Str → Bool
occurs c [] = false
occurs c (d ∷ s) = if d == c then true else occurs c s

pub occurs-append :
    (c : ℕ) (s t : Str) → occurs c (s ++ t) ≡ (if occurs c s then true else occurs c t)
occurs-append c [] t = refl
occurs-append c (d ∷ s) t = ground (arith, occurs-append c s t)

pub contains-occurs : (c : ℕ) (s : Str) → contains s (c ∷ []) ≡ occurs c s
unfolding contains
contains-occurs c [] = refl
contains-occurs c (d ∷ s) = ground (arith, contains-occurs c s)

occurs-reverse : (c : ℕ) (s : Str) → occurs c (reverse s) ≡ occurs c s
occurs-reverse c [] = refl
occurs-reverse c (d ∷ s) =
    ground (arith, reverse-cons d s, occurs-append c (reverse s) (d ∷ []), occurs-reverse c s)

occurs-trim_left : (c : ℕ) (s : Str) → is_space c ≡ false → occurs c (trim_left s) ≡ occurs c s
unfolding trim_left
occurs-trim_left c [] h = refl
occurs-trim_left c (d ∷ s) h = ground (arith, occurs-trim_left c s h)

pub occurs-trim_space :
    (c : ℕ) (s : Str) → is_space c ≡ false → occurs c (trim_space s) ≡ occurs c s
unfolding trim_space
occurs-trim_space c s h =
    occurs-reverse c (trim_left (reverse (trim_left s)))
    ∙ occurs-trim_left c (reverse (trim_left s)) h
    ∙ occurs-reverse c (trim_left s)
    ∙ occurs-trim_left c s h

pub split_free : (c : ℕ) (s : Str) → occurs c s ≡ false → split c s ≡ s ∷ []
unfolding split
split_free c [] h = refl
split_free c (d ∷ s) h = ground (arith, split_free c s)

pub split-append : (c : ℕ) (s t : Str) → occurs c s ≡ false → split c (s ++ c ∷ t) ≡ s ∷ split c t
unfolding split
split-append c [] t h = ground arith
split-append c (d ∷ s) t h = ground (arith, split-append c s t)

length-cons_head : (c : ℕ) (ps : List Str) → 0 < length ps → length (cons_head c ps) ≡ length ps
length-cons_head c [] h = absurd (omega arith)
length-cons_head c (p ∷ ps) h = refl

length-split_pos : (c : ℕ) (s : Str) → 0 < length (split c s)
unfolding split
length-split_pos c [] = omega arith
length-split_pos c (d ∷ s) = ground (arith, length-split_pos c s, length-cons_head d (split c s))

-- A text in which the separator occurs has two parts at least.
pub length-split-occurs : (c : ℕ) (s : Str) → occurs c s ≡ true → 1 < length (split c s)
unfolding split
length-split-occurs c [] h = cc
length-split-occurs c (d ∷ s) h =
    ground (arith, length-split-occurs c s, length-split_pos c s, length-cons_head d (split c s))

pub cut-append : (c : ℕ) (a b : Str) → occurs c a ≡ false → cut c (a ++ c ∷ b) ≡ some (a, b)
unfolding cut
cut-append c [] b h = ground arith
cut-append c (x ∷ a) b h = ground (arith, cut-append c a b)
