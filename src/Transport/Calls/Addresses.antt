-- ===== src/Transport/Calls/Addresses.antt =====
-- station/frame/core/plugin/native/client/client.go: which addresses can be called.
use peers_touch_go.Prelude.{
  ◌&&◌, [], ◌∷◌, some, Str, ◌≡◌, ◌≢◌, refl, Option-cases, Bool-cases, inl, inr,
}
use peers_touch_go.Prelude.Dict.{Dict}
use peers_touch_go.Prelude.Result.{err}
use peers_touch_go.Transport.Calls.{
  Libp2p, Transport, Codec, CallError, Request, DialError, invalid_multiaddr, not_initialized, dial,
  no_address, undecodable_address, not_dialled, reach, call, open_stream,
}

-- What libp2p documents: a multiaddr begins with a slash, and the text of an id does not.
abbrev pub AddressesStart : Libp2p → Type 0
AddressesStart p =
    ((s a : Str) → p.parse_addr s ≡ some a → (t : Str) × (s ≡ b'/' ∷ t))
    × ((s id t : Str) → p.decode_id s ≡ some id → s ≢ b'/' ∷ t)

module _ (p : Libp2p) (d : AddressesStart p) where
  not_dialled_lem :
      (t : Transport) (s id : Str)
      → p.decode_id s ≡ some id
      → (e : DialError) × (dial p t s ≡ err e)
  unfolding dial
  not_dialled_lem t s id h = elim (Option-cases (p.parse_addr s)) [
    | inl n ↦ elim (Bool-cases (t.initialized && t.has_host)) [
      | inl y ↦ (invalid_multiaddr, rw y (rw n refl))
      | inr z ↦ (not_initialized, rw z refl)
    ]
    | inr (a, e) ↦ let (u, q) = d.0 s a e in absurd (d.1 s id u h q)
  ]

  reach-fails : (t : Transport) (s : Str) → (e : CallError) × (reach p t s ≡ err e)
  unfolding reach
  reach-fails t [] = (no_address, refl)
  reach-fails t (c ∷ s) = elim (Option-cases (p.decode_id (c ∷ s))) [
    | inl n ↦ (undecodable_address, rw n refl)
    | inr (id, h) ↦ let (e, q) = not_dialled_lem t (c ∷ s) id h in (not_dialled e, rw h (rw q refl))
  ]

  -- No call succeeds and no stream opens, whatever codecs the client has: the service must be the text of
  -- a peer id, and is then dialled as a multiaddr, which it is not.
  pub call-fails :
      (t : Transport) (codecs : Dict Codec) (r : Request)
      → (e : CallError) × (call p t codecs r ≡ err e) × (open_stream p t codecs r ≡ err e)
  unfolding call open_stream
  call-fails t codecs r = let (e, q) = reach-fails t r.service in (e, rw q refl, rw q refl)
