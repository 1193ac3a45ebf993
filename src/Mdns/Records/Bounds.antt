-- ===== src/Mdns/Records/Bounds.antt =====
-- How long the address record is.
use peers_touch_go.Prelude.{
  ap, sym, append-nil, ℕ, ◌+◌, ◌≤◌, ◌≡◌, refl, inl, inr, Bool-cases, List, [], ◌∷◌, ◌++◌, Str,
  arith, ltb, length, length-append,
}
use peers_touch_go.Mdns.Records.{join, limit_addresses, addresses_text}

-- The length of the list as the loop counts it: a comma for each address.
abbrev counted : List Str → ℕ
counted [] = 0
counted (a ∷ l) = length a + 1 + counted l

length-join : (l : List Str) → length (join l) ≤ counted l
unfolding join
length-join [] = omega arith
length-join (a ∷ []) = omega arith
length-join (a ∷ b ∷ l) = ground (arith, length-append a (b',' ∷ join (b ∷ l)), length-join (b ∷ l))

counted-limit_addresses :
    (l : List Str) (current : ℕ)
    → current ≤ 200
    → current + counted (limit_addresses current l) ≤ 200
unfolding limit_addresses
counted-limit_addresses [] current h = omega arith
counted-limit_addresses (a ∷ l) current h = elim (Bool-cases (ltb 200 (current + length a + 1))) [
  | inl over ↦ ground arith
  | inr fits ↦ ground (arith, counted-limit_addresses l (current + (length a + 1)))
]

limit_addresses-append :
    (l : List Str) (current : ℕ) → (rest : List Str) × (l ≡ limit_addresses current l ++ rest)
unfolding limit_addresses
limit_addresses-append [] current = ([], refl)
limit_addresses-append (a ∷ l) current =
    let (r, e) = limit_addresses-append l (current + (length a + 1)) in
    elim (Bool-cases (ltb 200 (current + length a + 1))) [
      | inl over ↦ (a ∷ l, rw (over, limit_addresses) refl)
      | inr fits ↦ (r, rw (fits, limit_addresses) (ap (λ x. a ∷ x) e))
    ]

-- The text of the addresses never has more than 200 bytes, whatever the addresses of the node, and the
-- addresses in it are the first ones of the node, in order.
pub length-addresses_text :
    (l : List Str)
    → (length (addresses_text l) ≤ 200)
      × (shown : List Str) × (rest : List Str) × (l ≡ shown ++ rest)
      × (addresses_text l ≡ join shown)
unfolding addresses_text
length-addresses_text l =
    let (r, e) = limit_addresses-append l 0 in
    elim (Bool-cases (ltb 200 (length (join l)))) [
      | inl long ↦ (
        ground (arith, length-join (limit_addresses 0 l), counted-limit_addresses l 0),
        limit_addresses 0 l,
        r,
        e,
        rw long refl,
      )
      | inr short ↦ (ground arith, l, [], sym (append-nil l), rw short refl)
    ]
