-- ===== src/Account/Validation/Names.antt =====
-- station/frame/touch/util/validation.go: what becomes of a name.
use peers_touch_go.Prelude.{ℕ, ◌≤◌, [], ◌∷◌, Str, length, ◌≡◌, ◌≢◌, arith, refl}
use peers_touch_go.Prelude.Result.{ok}
use peers_touch_go.Account.Validation.{TextLibrary, validate_name, decode_name, decoded}

module _ (l : TextLibrary) where
  decode_name-given : (s : Str) → s ≢ [] → decode_name l s ≡ decoded l (l.decode s)
  unfolding decode_name
  decode_name-given [] h = absurd (h refl)
  decode_name-given (c ∷ s) h = refl

  encode_given : (c : ℕ) (s : Str) → l.encode (c ∷ s) ≢ []
  encode_given c s e =
      let h : length (l.encode (c ∷ s)) ≡ 0 = rw e refl in omega (arith, l.length-encode (c ∷ s))

  -- A name that passes has five to twenty characters, and its encoding decodes to the name.
  pub decode-validate_name :
      (s t : Str)
      → validate_name l s ≡ ok t
      → (5 ≤ l.rune_count s) × (l.rune_count s ≤ 20) × (decode_name l t ≡ ok s)
  unfolding validate_name
  decode-validate_name [] t h = ground arith
  decode-validate_name (c ∷ s) t h =
      ground
        (arith, decode_name-given (l.encode (c ∷ s)) (encode_given c s), l.decode-encode (c ∷ s))
