-- ===== src/NetworkId/Tests.antt =====
-- A codec of five bits to a character, and an id of version 12.
use peers_touch_go.Prelude.{
  ℕ, ◌+◌, ◌*◌, ◌/◌, ◌≡◌, refl, inl, [], ◌∷◌, Option, none, some, Str, codes, arith, length,
}
use peers_touch_go.Prelude.Result.{ok}
use peers_touch_go.NetworkId.{
  NetworkId, Codec, type_peer, to_text, parse_network_id, new_peer_network_id, new_node_network_id,
}
use peers_touch_go.NetworkId.Text.{leading_digit, parse-to_text, parse-new}

-- Five bytes, as they stand, for five characters of the text, with three more to fill up to eight; a rest
-- of one to four bytes gets the one to three characters that base32 has for it.
abbrev pub pad : Str → Str
pad (a ∷ b ∷ c ∷ d ∷ e ∷ s) = a ∷ b ∷ c ∷ d ∷ e ∷ 0 ∷ 0 ∷ 0 ∷ pad s
pad (a ∷ b ∷ c ∷ d ∷ []) = a ∷ b ∷ c ∷ d ∷ 0 ∷ 0 ∷ 0 ∷ []
pad (a ∷ b ∷ c ∷ []) = a ∷ b ∷ c ∷ 0 ∷ 0 ∷ []
pad (a ∷ b ∷ []) = a ∷ b ∷ 0 ∷ 0 ∷ []
pad (a ∷ []) = a ∷ 0 ∷ []
pad [] = []

abbrev cons_five : ℕ → ℕ → ℕ → ℕ → ℕ → Option Str → Option Str
cons_five a b c d e none = none
cons_five a b c d e (some s) = some (a ∷ b ∷ c ∷ d ∷ e ∷ s)

abbrev pub unpad : Str → Option Str
unpad (a ∷ b ∷ c ∷ d ∷ e ∷ x ∷ y ∷ z ∷ s) = cons_five a b c d e (unpad s)
unpad (a ∷ b ∷ c ∷ d ∷ x ∷ y ∷ z ∷ []) = some (a ∷ b ∷ c ∷ d ∷ [])
unpad (a ∷ b ∷ c ∷ x ∷ y ∷ []) = some (a ∷ b ∷ c ∷ [])
unpad (a ∷ b ∷ x ∷ y ∷ []) = some (a ∷ b ∷ [])
unpad (a ∷ x ∷ []) = some (a ∷ [])
unpad [] = some []
unpad _ = none

pub unpad-pad : (s : Str) → unpad (pad s) ≡ some s
unpad-pad (a ∷ b ∷ c ∷ d ∷ e ∷ s) = rw (unpad-pad s)
unpad-pad (a ∷ b ∷ c ∷ d ∷ []) = refl
unpad-pad (a ∷ b ∷ c ∷ []) = refl
unpad-pad (a ∷ b ∷ []) = refl
unpad-pad (a ∷ []) = refl
unpad-pad [] = refl

pub length-pad : (s : Str) → length (pad s) ≡ (length s * 8 + 4) / 5
length-pad (a ∷ b ∷ c ∷ d ∷ e ∷ s) = let h = length-pad s in omega arith
length-pad (a ∷ b ∷ c ∷ d ∷ []) = refl
length-pad (a ∷ b ∷ c ∷ []) = refl
length-pad (a ∷ b ∷ []) = refl
length-pad (a ∷ []) = refl
length-pad [] = refl

abbrev pub padding : Codec
padding = record {
  encode = pad;
  decode = unpad;
  sha256 = λ s. codes "0123456789abcdef0123456789abcdef";
  decode-encode = unpad-pad;
  length-encode = length-pad;
  length-sha256 = λ s. refl;
}

abbrev pub version_12 : NetworkId
version_12 = record { version = 12; kind = type_peer; hash = codes "ab" }

-- Version 12 comes back as version 1.
parse-to_text_test :
    parse_network_id padding (to_text padding version_12)
    ≡ ok (record version_12 { version = leading_digit 12 })
parse-to_text_test = parse-to_text padding version_12 (omega arith) (inl refl) (omega arith)

parse-new_example :
    (parse_network_id padding (to_text padding (new_peer_network_id padding (codes "p")))
      ≡ ok (new_peer_network_id padding (codes "p")))
    × (parse_network_id padding
          (to_text padding (new_node_network_id padding (codes "p") (codes "t") (codes "n")))
        ≡ ok (new_node_network_id padding (codes "p") (codes "t") (codes "n")))
parse-new_example = parse-new padding (codes "p") (codes "t") (codes "n")
