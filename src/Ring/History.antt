-- ===== src/Ring/History.antt =====
-- What the buffer holds of the history of values put into it.
use peers_touch_go.Prelude.{
  ℕ, zero, suc, ◌+◌, ◌-◌, ◌≤◌, ◌<◌, min, Bool, ◌≡◌, refl, sym, inl, inr, List, [], ◌∷◌, ◌++◌,
  append-nil, append_assoc, some, Option-cases, Str, arith, ltb, length, drop, keep, length-append,
  length-drop, drop-nil, drop-append, drop-one-drop,
}
use peers_touch_go.Prelude.Int.{pos, negsuc}
use peers_touch_go.Ring.{Entry, Buffer, new, push, put_value, put_all, get, since_from, since}

module _ {V : Type 0} where
  -- The last `n` entries of a history.
  abbrev pub last : ℕ → List (Entry V) → List (Entry V)
  last n xs = drop (length xs - n) xs

  pub push-last :
      (n : ℕ) (xs : List (Entry V)) (e : Entry V) → push n (last n xs) e ≡ last n (xs ++ e ∷ [])
  unfolding push
  push-last n xs e = ground (
    arith,
    length-append (last n xs) (e ∷ []),
    length-append xs (e ∷ []),
    length-drop (length xs - n) xs,
    drop-append (length xs - n) xs (e ∷ []),
    drop-one-drop (length xs - n) (xs ++ e ∷ []),
  )

  -- What a successful `Put` leaves of the values and the size.
  pub vals-put_value :
      (prefer : Str → Bool) (b b' : Buffer V) (e : Entry V)
      → put_value prefer e.timestamp b e.value ≡ some b'
      → (b'.vals ≡ push b.size b.vals e) × (b'.size ≡ b.size)
  unfolding put_value
  vals-put_value prefer b b' e h = ground arith

  vals-put_all-last :
      (prefer : Str → Bool) (es : List (Entry V)) (b b' : Buffer V) (xs : List (Entry V))
      → b.vals ≡ last b.size xs
      → put_all prefer b es ≡ some b'
      → (b'.vals ≡ last b.size (xs ++ es)) × (b'.size ≡ b.size)
  unfolding put_all
  vals-put_all-last prefer [] b b' xs i h = ground (arith, append-nil xs)
  vals-put_all-last prefer (e ∷ es) b b' xs i h =
      elim (Option-cases (put_value prefer e.timestamp b e.value)) [
        | inl fails ↦ ground arith
        | inr (c, p) ↦ ground (
          arith,
          vals-put_value prefer b c e p,
          push-last b.size xs e,
          vals-put_all-last prefer es c b' (xs ++ e ∷ []),
          append_assoc xs (e ∷ []) es,
        )
      ]

  -- After any puts into a new buffer of size `n` that did not block, the buffer holds the last `n`
  -- of the values put, oldest first, with their times.
  pub vals-put_all :
      (prefer : Str → Bool) (n : ℕ) (es : List (Entry V)) (b : Buffer V)
      → put_all prefer (new n) es ≡ some b
      → b.vals ≡ last n es
  unfolding new
  vals-put_all prefer n es b h =
      (vals-put_all-last prefer es (new n) b [] (sym (drop-nil (0 - n))) h).0

  drop-drop : (m n : ℕ) (xs : List (Entry V)) → drop m (drop n xs) ≡ drop (n + m) xs
  drop-drop m zero xs = ground arith
  drop-drop m (suc n) [] =
      ground (arith, drop-nil {A = Entry V} m, drop-nil {A = Entry V} (suc n + m))
  drop-drop m (suc n) (x ∷ xs) =
      let e : suc n + m ≡ suc (n + m) = omega arith in ground (arith, e, drop-drop m n xs)

  -- After any puts into a new buffer of size `n` that did not block, `Get(k)` for `k` at least 0
  -- returns the last `min(k, n)` of the values put, and for a negative `k` the last `n`.
  pub get-put_all :
      (prefer : Str → Bool) (n k : ℕ) (es : List (Entry V)) (b : Buffer V)
      → put_all prefer (new n) es ≡ some b
      → (get b (pos k) ≡ last (min k n) es) × (get b (negsuc k) ≡ last n es)
  unfolding get
  get-put_all prefer n k es b h = ground (
    arith,
    vals-put_all prefer n es b h,
    length-drop (length es - n) es,
    drop-drop (length b.vals - length b.vals) (length es - n) es,
    drop-drop (length b.vals - k) (length es - n) es,
  )

  -- The times do not fall along the list, and `now` is not before any of them.
  abbrev pub Sorted : ℕ → List (Entry V) → Type 0
  Sorted now [] = Unit
  Sorted now (e ∷ []) = e.timestamp ≤ now
  Sorted now (e ∷ f ∷ es) = (e.timestamp ≤ f.timestamp) × Sorted now (f ∷ es)

  abbrev pub is_after : ℕ → Entry V → Bool
  is_after t e = ltb t e.timestamp

  keep_all_after :
      (now t : ℕ) (e : Entry V) (es : List (Entry V))
      → Sorted now (e ∷ es)
      → t < e.timestamp
      → keep (is_after t) (e ∷ es) ≡ e ∷ es
  unfolding keep
  keep_all_after now t e [] s h = ground arith
  keep_all_after now t e (f ∷ es) s h = ground (arith, keep_all_after now t f es)

  Sorted-tail : (now : ℕ) (e : Entry V) (es : List (Entry V)) → Sorted now (e ∷ es) → Sorted now es
  Sorted-tail now e [] s = tt
  Sorted-tail now e (f ∷ es) s = s.1

  since_from-keep :
      (now t : ℕ) (es : List (Entry V)) → Sorted now es → since_from t es ≡ keep (is_after t) es
  unfolding since_from keep
  since_from-keep now t [] s = refl
  since_from-keep now t (e ∷ es) s =
      ground (arith, keep_all_after now t e es s, since_from-keep now t es (Sorted-tail now e es s))

  none_after : (now t : ℕ) (es : List (Entry V)) → Sorted now es → now < t → since_from t es ≡ []
  unfolding since_from
  none_after now t [] s h = refl
  none_after now t (e ∷ []) s h = ground arith
  none_after now t (e ∷ f ∷ es) s h = ground (arith, none_after now t (f ∷ es) s.1 h)

  -- Where the times in the buffer do not fall and lie in the past, `Since(t)` for a time that is not
  -- zero returns exactly the entries later than `t`, in order, also where `t` is in the future.
  pub since-keep :
      (b : Buffer V) (now t : ℕ)
      → Sorted now b.vals
      → 0 < t
      → since b now t ≡ keep (is_after t) b.vals
  unfolding since
  since-keep b now t s h = ground (arith, since_from-keep now t b.vals s, none_after now t b.vals s)
