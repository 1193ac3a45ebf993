-- ===== src/RuntimeOptions.antt =====
-- station/frame/core/option/option.go: the options of a node. A context is a map from keys to values of a
-- type `V`, which stands for the components' options behind their pointers; an option that `Wrap` makes
-- has an id, by which it is known whether it was executed. A panic of the function that it wraps is not
-- modelled, nor are the locks, nor what an option does outside of the options.
pub mod Once
mod Tests
use peers_touch_go.Prelude.{
  ℕ, ◌+◌, Bool, true, false, List, [], ◌∷◌, Option, none, some, Str, codes, length, any, ◌==◌,
  if◌then◌else◌,
}
use peers_touch_go.Prelude.Dict
use peers_touch_go.Prelude.Dict.{Dict}

-- `cached` is the number of options in the cache of all options that were applied.
pub record Options (V : Type 0) : Type 0 where
  pub ctx : Option (Dict V)
  pub cached : ℕ

-- `WithRootCtx` of a context, `Wrap` of a function on the value under a key, which is first made where it
-- is not there, and any other function: whether it returns, and the options after it.
pub data Setting (V : Type 0) : Type 0 where
  with_root_ctx : Dict V → Setting V
  wrapped : ℕ → Str → V → (V → V) → Setting V
  custom : (Options V → Bool × Options V) → Setting V

-- The flags of the wrapped options are the program's, not those of one `Options`.
pub record State (V : Type 0) : Type 0 where
  pub options : Options V
  pub executed : List ℕ

pub data Outcome (V : Type 0) : Type 0 where
  done panicked : State V → Outcome V

module _ {V : Type 0} where
  abbrev pub or_new : V → Option V → V
  or_new new none = new
  or_new new (some v) = v

  abbrev pub set_root : Dict V → Option (Dict V) → Option (Dict V)
  set_root c none = some c
  set_root c (some d) = some d

  -- `AppendCtx` panics where there is no context.
  abbrev pub append_to : Str → V → Options V → Option (Dict V) → Bool × Options V
  append_to key v o none = (false, o)
  append_to key v o (some c) = (true, record o { ctx = some (Dict.put key v c) })

  abbrev pub append_ctx : Str → V → Options V → Bool × Options V
  append_ctx key v o = append_to key v o o.ctx

  -- The options of a client, which are not wrapped.
  abbrev pub with_dht : V → Setting V
  with_dht dht = custom (append_ctx (codes "dht") dht)

  abbrev pub with_registry : V → Setting V
  with_registry reg = custom (append_ctx (codes "registry") reg)

  abbrev pub was_executed : ℕ → State V → Bool
  was_executed i s = any (λ j. j == i) s.executed

  abbrev pub mark : ℕ → State V → State V
  mark i s = record s { executed = i ∷ s.executed }

  -- The body of a wrapped option that was not executed; `Ctx` panics where there is no context.
  abbrev pub execute : ℕ → Str → V → (V → V) → State V → Option (Dict V) → Outcome V
  execute i key new f s none = panicked (mark i s)
  execute i key new f s (some c) = done (record (mark i s) {
    options = record s.options { ctx = some (Dict.put key (f (or_new new (Dict.get key c))) c) };
  })

  abbrev pub ran : State V → Bool × Options V → Outcome V
  ran s (true, o) = done (record s { options = o })
  ran s (false, o) = panicked (record s { options = o })

  unfoldable pub apply_one : Setting V → State V → Outcome V
  apply_one (with_root_ctx c) s =
      done (record s { options = record s.options { ctx = set_root c s.options.ctx } })
  apply_one (wrapped i key new f) s =
      if was_executed i s then done s else execute i key new f s s.options.ctx
  apply_one (custom f) s = ran s (f s.options)

  abbrev pub and_then : Outcome V → (State V → Outcome V) → Outcome V
  and_then (done s) next = next s
  and_then (panicked s) next = panicked s

  unfoldable pub apply_each : List (Setting V) → State V → Outcome V
  unfolding apply_one
  apply_each [] s = done s
  apply_each (o ∷ l) s = and_then (apply_one o s) (apply_each l)

  unfoldable pub apply : List (Setting V) → State V → Outcome V
  unfolding apply_each
  apply l s =
      apply_each l
        (record s { options = record s.options { cached = s.options.cached + length l } })

  abbrev pub or_empty : Option (Options V) → Options V
  or_empty none = record { ctx = none; cached = 0 }
  or_empty (some o) = o

  abbrev pub with_ctx : State V → Option (Dict V) → Outcome V
  with_ctx s none = panicked s
  with_ctx s (some c) = done s

  abbrev pub checked : Outcome V → Outcome V
  checked (panicked s) = panicked s
  checked (done s) = with_ctx s s.options.ctx

  -- The root options, or new ones; without a context after it the call panics.
  unfoldable pub get_options : List (Setting V) → Option (Options V) → List ℕ → Outcome V
  unfolding apply
  get_options l root executed =
      checked (apply l (record { options = or_empty root; executed = executed }))
