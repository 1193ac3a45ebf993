-- ===== src/RuntimeOptions/Once.antt =====
-- station/frame/core/option/option.go: an option that WithRootCtx or Wrap makes takes effect at most once.
use peers_touch_go.Prelude.{
  ℕ, ◌+◌, Bool, true, false, List, [], ◌∷◌, Option, none, some, Str, length, any, ◌≡◌, arith, refl,
  ◌==◌, if◌then◌else◌,
}
use peers_touch_go.Prelude.Dict.{Dict}
use peers_touch_go.RuntimeOptions.{
  Setting, with_root_ctx, wrapped, custom, State, Outcome, done, panicked, set_root, was_executed,
  mark, execute, apply_one, and_then, apply_each, apply,
}

module _ {V : Type 0} where
  abbrev has_ctx : Option (Dict V) → Bool
  has_ctx none = false
  has_ctx (some c) = true

  -- An option of WithRootCtx or of Wrap.
  abbrev pub IsGuarded : Setting V → Type 0
  IsGuarded (with_root_ctx c) = Unit
  IsGuarded (wrapped i key new f) = Unit
  IsGuarded (custom f) = ⊥

  abbrev pub AllGuarded : List (Setting V) → Type 0
  AllGuarded [] = Unit
  AllGuarded (o ∷ l) = IsGuarded o × AllGuarded l

  -- The option can do nothing more.
  abbrev Spent : Setting V → State V → Type 0
  Spent (with_root_ctx c) s = has_ctx s.options.ctx ≡ true
  Spent (wrapped i key new f) s = was_executed i s ≡ true
  Spent (custom f) s = ⊥

  abbrev AllSpent : List (Setting V) → State V → Type 0
  AllSpent [] s = Unit
  AllSpent (o ∷ l) s = Spent o s × AllSpent l s

  done-injective : {s t : State V} → done s ≡ done t → s ≡ t
  done-injective h = cc

  set_root-has : (c : Dict V) (o : Option (Dict V)) → has_ctx (set_root c o) ≡ true
  set_root-has c none = refl
  set_root-has c (some d) = refl

  -- What one option leaves: nothing that was spent is not.
  abbrev Keeps : State V → State V → Type 0
  Keeps s t =
      (has_ctx s.options.ctx ≡ true → has_ctx t.options.ctx ≡ true)
      × ((i : ℕ) → was_executed i s ≡ true → was_executed i t ≡ true)

  was_executed-mark :
      (i j : ℕ) (s : State V) → was_executed i s ≡ true → was_executed i (mark j s) ≡ true
  unfolding any
  was_executed-mark i j s h = ground arith

  execute-keeps :
      (i : ℕ) (key : Str) (new : V) (f : V → V) (s t : State V) (o : Option (Dict V))
      → execute i key new f s o ≡ done t
      → (has_ctx t.options.ctx ≡ true) × (t.executed ≡ i ∷ s.executed)
  execute-keeps i key new f s t none h = absurd (let z : panicked (mark i s) ≡ done t = h in cc)
  execute-keeps i key new f s t (some c) h =
      let e = done-injective h in (rw (← e) refl, rw (← e) refl)

  apply_one-lem :
      (o : Setting V) (s t : State V) → IsGuarded o → apply_one o s ≡ done t → Spent o t × Keeps s t
  unfolding apply_one any
  apply_one-lem (custom f) s t g h = elim g [ ]
  apply_one-lem (with_root_ctx c) s t g h =
      let e = done-injective h in
      let k = set_root-has c s.options.ctx in (rw (← e) k, ((λ z. rw (← e) k), (λ i z. rw (← e) z)))
  apply_one-lem (wrapped i key new f) s t g h = wrapped-lem (was_executed i s) refl h
    where
      wrapped-lem :
          (x : Bool)
          → was_executed i s ≡ x
          → (if x then done s else execute i key new f s s.options.ctx) ≡ done t
          → (was_executed i t ≡ true) × Keeps s t
      wrapped-lem true y k =
          let e = done-injective k in (rw (← e) y, ((λ z. rw (← e) z), (λ j z. rw (← e) z)))
      wrapped-lem false n k =
          let (c, e) = execute-keeps i key new f s t s.options.ctx k in
          (rw e (ground arith), ((λ z. c), (λ j z. rw e (was_executed-mark j i s z))))

  Spent-Keeps : (o : Setting V) (s t : State V) → Keeps s t → Spent o s → Spent o t
  Spent-Keeps (with_root_ctx c) s t k h = k.0 h
  Spent-Keeps (wrapped i key new f) s t k h = k.1 i h
  Spent-Keeps (custom f) s t k h = elim h [ ]

  Keeps-trans : (s t u : State V) → Keeps s t → Keeps t u → Keeps s u
  Keeps-trans s t u k m = ((λ z. m.0 (k.0 z)), (λ i z. m.1 i (k.1 i z)))

  spent_root : (c : Dict V) (n : ℕ) (o : Option (Dict V)) → has_ctx o ≡ true → set_root c o ≡ o
  spent_root c n none h = absurd (ground arith)
  spent_root c n (some d) h = refl

  Spent-apply_one : (o : Setting V) (s : State V) → Spent o s → apply_one o s ≡ done s
  unfolding apply_one
  Spent-apply_one (with_root_ctx c) s h = rw (spent_root c 0 s.options.ctx h) refl
  Spent-apply_one (wrapped i key new f) s h = rw h refl
  Spent-apply_one (custom f) s h = elim h [ ]

  and_then-done :
      (r : Outcome V) (next : State V → Outcome V) (u : State V)
      → and_then r next ≡ done u
      → (t : State V) × (r ≡ done t) × (next t ≡ done u)
  and_then-done (done t) next u h = (t, refl, h)
  and_then-done (panicked t) next u h = absurd (let z : panicked t ≡ done u = h in cc)

  apply_each-lem :
      (l : List (Setting V)) (s u : State V)
      → AllGuarded l
      → apply_each l s ≡ done u
      → AllSpent l u × Keeps s u
  unfolding apply_each
  apply_each-lem [] s u g h =
      let e = done-injective h in (tt, ((λ z. rw (← e) z), (λ i z. rw (← e) z)))
  apply_each-lem (o ∷ l) s u g h =
      let (t, a, b) = and_then-done (apply_one o s) (apply_each l) u h in
      let (p, k) = apply_one-lem o s t g.0 a in
      let (q, m) = apply_each-lem l t u g.1 b in ((Spent-Keeps o t u m p, q), Keeps-trans s t u k m)

  AllSpent-apply_each :
      (l : List (Setting V)) (s : State V) → AllSpent l s → apply_each l s ≡ done s
  unfolding apply_each
  AllSpent-apply_each [] s h = refl
  AllSpent-apply_each (o ∷ l) s h = rw (Spent-apply_one o s h.0) (AllSpent-apply_each l s h.1)

  abbrev cached_more : ℕ → State V → State V
  cached_more n s = record s { options = record s.options { cached = s.options.cached + n } }

  AllSpent-cached :
      (l : List (Setting V)) (n : ℕ) (s : State V) → AllSpent l s → AllSpent l (cached_more n s)
  AllSpent-cached [] n s h = tt
  AllSpent-cached (with_root_ctx c ∷ l) n s h = (h.0, AllSpent-cached l n s h.1)
  AllSpent-cached (wrapped i key new f ∷ l) n s h = (h.0, AllSpent-cached l n s h.1)
  AllSpent-cached (custom f ∷ l) n s h = elim h.0 [ ]

  -- Where all options of a list are ones that WithRootCtx or Wrap made, and they were applied without a
  -- panic, they are applied again without one, and change nothing but the cache, which grows by their
  -- number. Of other options nothing is said.
  pub apply_again :
      (l : List (Setting V)) (s t : State V)
      → AllGuarded l
      → apply l s ≡ done t
      → apply l t
        ≡ done (record t { options = record t.options { cached = t.options.cached + length l } })
  unfolding apply
  apply_again l s t g h =
      AllSpent-apply_each l (cached_more (length l) t)
        (AllSpent-cached l (length l) t (apply_each-lem l (cached_more (length l) s) t g h).0)

  -- An option that is applied before there is a context panics, and is lost: once there is one, applying it
  -- again leaves the context as it is.
  pub apply_early :
      (i : ℕ) (key : Str) (new : V) (f : V → V) (s : State V) (c : Dict V)
      → s.options.ctx ≡ none
      → was_executed i s ≡ false
      → (t : State V) × (apply_one (wrapped i key new f) s ≡ panicked t)
        × (apply_each (with_root_ctx c ∷ wrapped i key new f ∷ []) t
            ≡ done (record t { options = record t.options { ctx = some c } }))
  unfolding apply_each apply_one any
  apply_early i key new f s c h n =
      (mark i s, rw n (rw h refl), let e : (i == i) ≡ true = ground arith in rw h (rw e refl))
