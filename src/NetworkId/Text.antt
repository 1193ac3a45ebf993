-- ===== src/NetworkId/Text.antt =====
-- What is left of a network id that is printed and parsed.
use Prim.Native.Nat.{suc}
use mathlib.Core.Path.{subst, sym, ap, ◌∙◌}
use peers_touch_go.Prelude.{
  ℕ, ◌+◌, ◌-◌, ◌/◌, ◌%◌, ◌≤◌, ◌<◌, ◌≡◌, refl, ◌⊎◌, inl, inr, true, false, List, [], ◌∷◌, ◌++◌,
  append_assoc, Str, codes, arith, ltb, if◌then◌else◌, length, take, length-take, length-append,
}
use peers_touch_go.Prelude.Result.{ok, err}
use peers_touch_go.Prelude.Text.{has_prefix, decimal, decimal_from}
use peers_touch_go.Prelude.TextLaws.{occurs, cut-append}
use peers_touch_go.NetworkId.{
  NetworkId, missing_version_prefix, Codec, type_peer, type_node, split_3, text_prefix, to_text,
  parse_parts, parse_network_id, new_peer_network_id, new_node_network_id,
}

-- The first decimal digit of a byte.
abbrev pub leading_digit : ℕ → ℕ
leading_digit v = if ltb v 10 then v else if ltb v 100 then v / 10 else v / 100

last_digit : (fuel n : ℕ) (rest : Str) → n < 10 → decimal_from (suc fuel) n rest ≡ (b'0' + n) ∷ rest
unfolding decimal_from
last_digit fuel n rest h = let e : n % 10 ≡ n = omega arith in ground (arith, e)

more_digits :
    (fuel n : ℕ) (rest : Str)
    → 10 ≤ n
    → decimal_from (suc fuel) n rest ≡ decimal_from fuel (n / 10) ((b'0' + n % 10) ∷ rest)
unfolding decimal_from
more_digits fuel n rest h = ground arith

-- What follows the first digit.
abbrev other_digits : ℕ → Str
other_digits v =
    if ltb v 10
    then []
    else if ltb v 100
    then (b'0' + v % 10) ∷ []
    else (b'0' + v / 10 % 10) ∷ (b'0' + v % 10) ∷ []

decimal_byte : (v : ℕ) → v < 256 → decimal v ≡ (b'0' + leading_digit v) ∷ other_digits v
unfolding decimal
decimal_byte v h =
    let e : v / 10 / 10 ≡ v / 100 = omega arith in
    ground (
      arith,
      e,
      last_digit 19 v [],
      more_digits 19 v [],
      last_digit 18 (v / 10) ((b'0' + v % 10) ∷ []),
      more_digits 18 (v / 10) ((b'0' + v % 10) ∷ []),
      last_digit 17 (v / 10 / 10) ((b'0' + v / 10 % 10) ∷ (b'0' + v % 10) ∷ []),
    )

other_digits_free : (v : ℕ) → occurs b'-' (other_digits v) ≡ false
other_digits_free v = ground arith

length-other_digits : (v : ℕ) → length (other_digits v) ≤ 2
length-other_digits v = ground arith

split_3_lem :
    (a b r : Str)
    → occurs b'-' a ≡ false
    → occurs b'-' b ≡ false
    → split_3 (a ++ b'-' ∷ (b ++ b'-' ∷ r)) ≡ a ∷ b ∷ r ∷ []
unfolding split_3
split_3_lem a b r h k = rw (cut-append b'-' a (b ++ b'-' ∷ r) h, cut-append b'-' b r k) refl

module _ (c : Codec) where
  -- A kind that the parser knows.
  abbrev pub IsKind : ℕ → Type 0
  IsKind k = (k ≡ type_peer) ⊎ (k ≡ type_node)

  text_prefix_lem :
      (n : NetworkId)
      → n.version < 256
      → IsKind n.kind
      → text_prefix c n
        ≡ (b'v' ∷ (b'0' + leading_digit n.version) ∷ other_digits n.version)
          ++ b'-' ∷ n.kind ∷ b'-' ∷ []
  text_prefix_lem n v (inl k) = rw (decimal_byte n.version v, k) refl
  text_prefix_lem n v (inr k) = rw (decimal_byte n.version v, k) refl

  to_text_fits :
      (n : NetworkId) (p : Str)
      → text_prefix c n ≡ p
      → length p + length (c.encode n.hash) ≤ 48
      → to_text c n ≡ p ++ c.encode n.hash
  unfolding to_text
  to_text_fits n p e h =
      go (text_prefix c n) (c.encode n.hash)
        (subst (λ q. length q + length (c.encode n.hash) ≤ 48) (sym e) h)
      ∙ ap (λ q. q ++ c.encode n.hash) e
    where
      go :
          (p h : Str)
          → length p + length h ≤ 48
          → p ++ (if ltb (48 - length p) (length h) then take (48 - length p) h else h) ≡ p ++ h
      go p h l = ground arith

  -- The text of an id whose hash fits: its three parts.
  to_text_lem :
      (n : NetworkId)
      → n.version < 256
      → IsKind n.kind
      → length (c.encode n.hash) ≤ 41
      → to_text c n
        ≡ (b'v' ∷ (b'0' + leading_digit n.version) ∷ other_digits n.version)
          ++ b'-' ∷ ((n.kind ∷ []) ++ b'-' ∷ c.encode n.hash)
  to_text_lem n v k l =
      let ds = b'v' ∷ (b'0' + leading_digit n.version) ∷ other_digits n.version in
      let marks = b'-' ∷ n.kind ∷ b'-' ∷ [] in
      let short : length (ds ++ marks) + length (c.encode n.hash) ≤ 48 =
        (let o = length-other_digits n.version in
          let e = length-append ds marks in ground (arith, e)) in
      to_text_fits n (ds ++ marks) (text_prefix_lem n v k) short
      ∙ append_assoc ds marks (c.encode n.hash)

  parse_network_id_lem :
      (id : Str) (ps : List Str)
      → has_prefix id (codes "v") ≡ true
      → split_3 id ≡ ps
      → parse_network_id c id ≡ parse_parts c ps
  unfolding parse_network_id
  parse_network_id_lem id ps h e =
      ap (λ b. if b then parse_parts c (split_3 id) else err missing_version_prefix) h
      ∙ ap (parse_parts c) e

  parse_parts_lem :
      (v k : ℕ) (ds h : Str)
      → v < 10
      → IsKind k
      → parse_parts c ((b'v' ∷ (b'0' + v) ∷ ds) ∷ (k ∷ []) ∷ c.encode h ∷ [])
        ≡ ok (record { version = v; kind = k; hash = h })
  parse_parts_lem v k ds h l i =
      let e : (b'0' + v + 256 - b'0') % 256 ≡ v = omega arith in
      ground (arith, e, i, c.decode-encode h)

  -- Parsing the text of an id, with a version from 0 to 255, a known kind and a hash whose text has at
  -- most 41 characters, gives back the kind and the hash, and of the version the first digit.
  pub parse-to_text :
      (n : NetworkId)
      → n.version < 256
      → IsKind n.kind
      → length (c.encode n.hash) ≤ 41
      → parse_network_id c (to_text c n) ≡ ok (record n { version = leading_digit n.version })
  unfolding has_prefix
  parse-to_text n v k l =
      let d = leading_digit n.version in
      let ds = b'v' ∷ (b'0' + d) ∷ other_digits n.version in
      let ds_free : occurs b'-' ds ≡ false = ground (arith, other_digits_free n.version) in
      let k_free : occurs b'-' (n.kind ∷ []) ≡ false = ground (arith, k) in
      let small : d < 10 = ground (arith, v) in
      ap (parse_network_id c) (to_text_lem n v k l)
      ∙ parse_network_id_lem _ _ refl
          (split_3_lem ds (n.kind ∷ []) (c.encode n.hash) ds_free k_free)
      ∙ parse_parts_lem d n.kind (other_digits n.version) n.hash small k

  short : (s : Str) → length (c.encode (take 20 (c.sha256 s))) ≤ 41
  short s = ground (
    arith,
    c.length-encode (take 20 (c.sha256 s)),
    length-take 20 (c.sha256 s),
    c.length-sha256 s,
  )

  -- Every id that the program makes, of a peer or of a node, is what parsing its text gives.
  pub parse-new :
      (peer_id node_type node_id : Str)
      → (parse_network_id c (to_text c (new_peer_network_id c peer_id))
          ≡ ok (new_peer_network_id c peer_id))
        × (parse_network_id c (to_text c (new_node_network_id c peer_id node_type node_id))
            ≡ ok (new_node_network_id c peer_id node_type node_id))
  unfolding new_peer_network_id new_node_network_id
  parse-new peer_id node_type node_id = (
    parse-to_text (new_peer_network_id c peer_id) (omega arith) (inl refl) (short peer_id),
    parse-to_text (new_node_network_id c peer_id node_type node_id) (omega arith) (inr refl)
        (short _),
  )
