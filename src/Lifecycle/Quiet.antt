-- ===== src/Lifecycle/Quiet.antt =====
-- station/frame/core/plugin/native/node/native.go: when a node starts or stops without an error, and in
-- which order its parts are called.
use mathlib.Core.Path.{subst}
use peers_touch_go.Prelude.{List, [], ◌∷◌, Option, none, some, ◌≡◌, ◌↔◌, arith, refl, ap}
use peers_touch_go.Lifecycle.{
  Action, Wait, ready, context_done, Node, and_then, until_error, or_last, call_all, once_ready,
  to_peer, start, stop,
}

or_last-none : {E : Type 0} (a b : Option E) → or_last a b ≡ none → (a ≡ none) × (b ≡ none)
or_last-none a none h = (h, refl)
or_last-none a (some e) h = absurd (ground arith)

module _ {E W : Type 0} where
  -- The actions are called one after the other, each without an error.
  pub data Runs : List (Action E W) → W → W → Type 0 where
    over : (w : W) → Runs [] w w
    then :
        (h : Action E W) (l : List (Action E W)) (u v w : W)
        → h u ≡ (none, v)
        → Runs l v w
        → Runs (h ∷ l) u w

  and_then-none :
      (r : Option E × W) (next : Action E W) (w : W)
      → and_then r next ≡ (none, w)
      → (v : W) × (r ≡ (none, v)) × (next v ≡ (none, w))
  and_then-none (none, v) next w h = (v, refl, h)
  and_then-none (some e, v) next w h = absurd (ground arith)

  until_error-Runs : (l : List (Action E W)) (u w : W) → until_error l u ≡ (none, w) → Runs l u w
  unfolding until_error
  until_error-Runs [] u w h = subst (λ x. Runs [] u x) (ap (λ (r : Option E × W). r.1) h) (over u)
  until_error-Runs (x ∷ l) u w h =
      let (v, a, b) = and_then-none (x u) (until_error l) w h in
      then x l u v w a (until_error-Runs l v w b)

  Runs-until_error : (l : List (Action E W)) (u w : W) → Runs l u w → until_error l u ≡ (none, w)
  unfolding until_error
  Runs-until_error _ u _ (over _) = refl
  Runs-until_error _ u w (then x l _ v _ a r) = rw a (Runs-until_error l v w r)

  abbrev pub Starts : Node E W → W → W → Type 0
  Starts n u w =
      (a : W) × (b : W) × (c : W) × Runs n.before_start u a
      × (n.start_server a ≡ ready b)
      × (n.register (to_peer n.id n.name n.address) b ≡ (none, c))
      × Runs n.after_start c w

  abbrev pub Stops : Node E W → W → W → Type 0
  Stops n u w =
      (a : W) × (b : W) × (c : W) × Runs n.before_stop u a
      × (n.stop_server a ≡ (none, b))
      × (n.close_config b ≡ (none, c))
      × Runs n.after_stop c w

  once_ready-none :
      (n : Node E W) (r : Wait E W) (w : W)
      → once_ready n r ≡ (none, w)
      → (b : W) × (c : W) × (r ≡ ready b)
        × (n.register (to_peer n.id n.name n.address) b ≡ (none, c))
        × Runs n.after_start c w
  once_ready-none n (context_done e v) w h = absurd (ground arith)
  once_ready-none n (ready v) w h =
      let (c, a, b) =
        and_then-none (n.register (to_peer n.id n.name n.address) v) (until_error n.after_start) w
          h in
      (v, c, refl, a, until_error-Runs n.after_start c w b)

  -- A node starts without an error exactly where its hooks before the start have none, the server gets
  -- ready, the node is registered, and the hooks after the start have none, in this order.
  pub start_iff : (n : Node E W) (u w : W) → (start n u ≡ (none, w)) ↔ Starts n u w
  unfolding start
  start_iff n u w = (
    (λ h.
        let (a, e, f) =
          and_then-none (until_error n.before_start u) (λ v. once_ready n (n.start_server v)) w h in
        let (b, c, g, k, r) = once_ready-none n (n.start_server a) w f in
        (a, b, c, until_error-Runs n.before_start u a e, g, k, r)),
    (λ h.
        let (a, b, c, p, g, k, r) = h in
        rw (Runs-until_error n.before_start u a p)
          (rw g (rw k (Runs-until_error n.after_start c w r)))),
  )

  call_all-Runs :
      (l : List (Action E W)) (last : Option E) (u w : W)
      → call_all last l u ≡ (none, w)
      → (last ≡ none) × Runs l u w
  unfolding call_all
  call_all-Runs [] last u w h = (
    ap (λ (r : Option E × W). r.0) h,
    subst (λ x. Runs [] u x) (ap (λ (r : Option E × W). r.1) h) (over u),
  )
  call_all-Runs (x ∷ l) last u w h =
      let (e, r) = call_all-Runs l (or_last last (x u).0) (x u).1 w h in
      let (f, g) = or_last-none last (x u).0 e in (f, then x l u (x u).1 w (λ i. (g i, (x u).1)) r)

  Runs-call_all : (l : List (Action E W)) (u w : W) → Runs l u w → call_all none l u ≡ (none, w)
  unfolding call_all
  Runs-call_all _ u _ (over _) = refl
  Runs-call_all _ u w (then x l _ v _ a r) = rw a (Runs-call_all l v w r)

  -- A node stops without an error exactly where its hooks before the stop have none, the server stops, the
  -- configuration is closed, and the hooks after the stop have none, in this order.
  pub stop_iff : (n : Node E W) (u w : W) → (stop n u ≡ (none, w)) ↔ Stops n u w
  unfolding stop
  stop_iff n u w = (
    (λ h.
        let (b, e, f) = and_then-none _ _ w h in
        let (c, g, k) = and_then-none _ _ w f in
        let (o, r) = call_all-Runs n.after_stop (call_all none n.before_stop u).0 c w k in
        let (z, p) =
          call_all-Runs n.before_stop none u (call_all none n.before_stop u).1
            (λ i. (o i, (call_all none n.before_stop u).1)) in
        ((call_all none n.before_stop u).1, b, c, p, e, g, r)),
    (λ h.
        let (a, b, c, p, g, k, r) = h in
        rw (Runs-call_all n.before_stop u a p) (rw g (rw k (Runs-call_all n.after_stop c w r)))),
  )
