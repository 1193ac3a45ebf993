-- ===== src/Ring/Streams.antt =====
-- What `Put` sends to the streams, and when it waits.
use peers_touch_go.Prelude.{
  ◌<◌, Bool, true, ◌≡◌, refl, [], ◌∷◌, ◌++◌, Option, none, some, ◌⊎◌, inl, inr, ◌≢◌, Option-cases,
  Str, arith, ltb, if◌then◌else◌, length, str_eq_iff,
}
use peers_touch_go.Prelude.Dict
use peers_touch_go.Prelude.Dict.{Dict, Distinct}
use peers_touch_go.Ring.{
  Entry, Stream, Delivery, sent, stopped, blocked, keep_stream, channel_capacity, deliver,
  deliver_all,
}

module _ {V : Type 0} where
  -- A stream that does not make `Put` wait: its channel has room, or it is stopped.
  abbrev pub IsReady : Stream V → Type 0
  IsReady s = (length s.entries < channel_capacity) ⊎ (s.stop ≡ true)

  abbrev pub AllReady : Dict (Stream V) → Type 0
  AllReady [] = Unit
  AllReady ((k, s) ∷ m) = IsReady s × AllReady m

  -- The stream after a `Put` that returned: gone if it was stopped and this case of the `select` was
  -- taken, else with the entry at its end.
  abbrev pub after_put : Bool → Entry V → Option (Stream V) → Option (Stream V)
  after_put prefer_stop e none = none
  after_put prefer_stop e (some s) =
      if s.stop
      then (if ltb (length s.entries) channel_capacity
          then (if prefer_stop then none else some (record s { entries = s.entries ++ e ∷ [] }))
          else none)
      else some (record s { entries = s.entries ++ e ∷ [] })

  deliver-ready :
      (prefer_stop : Bool) (s : Stream V) (e : Entry V)
      → IsReady s
      → deliver prefer_stop s e ≢ blocked
  unfolding deliver
  deliver-ready prefer_stop s e r = ground arith

  -- The loop of `Put` over the streams ends, without waiting on one, whenever each has room in its
  -- channel or is stopped.
  pub deliver_all-ready :
      (prefer : Str → Bool) (m : Dict (Stream V)) (e : Entry V)
      → AllReady m
      → (m' : Dict (Stream V)) × (deliver_all prefer m e ≡ some m')
  unfolding deliver_all
  deliver_all-ready prefer [] e r = ([], refl)
  deliver_all-ready prefer ((k, s) ∷ m) e r =
      let (m', p) = deliver_all-ready prefer m e r.1 in
      go (deliver (prefer k) s e) m' p (deliver-ready (prefer k) s e r.0)
    where
      go :
          (d : Delivery V) (m' : Dict (Stream V))
          → deliver_all prefer m e ≡ some m'
          → d ≢ blocked
          → (m'' : Dict (Stream V)) × (keep_stream k d (deliver_all prefer m e) ≡ some m'')
      go (sent s') m' p h = ((k, s') ∷ m', rw p)
      go stopped m' p h = (m', p)
      go blocked m' p h = absurd (h refl)

  get-deliver_all-none :
      (prefer : Str → Bool) (m m' : Dict (Stream V)) (e : Entry V) (id : Str)
      → Dict.get id m ≡ none
      → deliver_all prefer m e ≡ some m'
      → Dict.get id m' ≡ none
  unfolding deliver_all Dict.get
  get-deliver_all-none prefer [] m' e id n h = ground arith
  get-deliver_all-none prefer ((k, s) ∷ m) m' e id n h =
      elim (Option-cases (deliver_all prefer m e)) [
        | inl p ↦ ground arith
        | inr (r, p) ↦ ground (arith, get-deliver_all-none prefer m r e id)
      ]

  -- Where each id has one stream, a loop of `Put` that ended has done to each stream what its own
  -- channels allow: an open one has the entry at its end; a stopped one is gone, or has it too if
  -- there was room and the runtime picked that case.
  pub get-deliver_all :
      (prefer : Str → Bool) (m m' : Dict (Stream V)) (e : Entry V) (id : Str)
      → Distinct m
      → deliver_all prefer m e ≡ some m'
      → Dict.get id m' ≡ after_put (prefer id) e (Dict.get id m)
  unfolding deliver_all Dict.get
  get-deliver_all prefer [] m' e id d h = ground arith
  get-deliver_all prefer ((k, s) ∷ m) m' e id d h = elim (Option-cases (deliver_all prefer m e)) [
    | inl p ↦ ground arith
    | inr (r, p) ↦ ground (
      arith,
      str_eq_iff k id,
      get-deliver_all-none prefer m r e k d.0,
      get-deliver_all prefer m r e id d.1,
    )
  ]
