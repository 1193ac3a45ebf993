-- ===== src/RuntimeOptions/Tests.antt =====
-- Options over numbers.
use peers_touch_go.Prelude.{
  ℕ, ◌+◌, ◌*◌, Bool, false, Str, List, [], ◌∷◌, none, some, codes, str_eq, any, ◌≡◌, refl,
}
use peers_touch_go.Prelude.Dict.{get, put, remove}
use peers_touch_go.RuntimeOptions.{
  Options, Setting, with_root_ctx, wrapped, custom, append_ctx, with_dht, State, done, panicked,
  apply_one, apply_each, apply, get_options,
}
use peers_touch_go.RuntimeOptions.Once.{apply_again}

abbrev settings : List (Setting ℕ)
settings =
    with_root_ctx []
    ∷ wrapped 1 (codes "k") 5 (λ n. n + 1)
    ∷ wrapped 2 (codes "k") 9 (λ n. n * 2)
    ∷ wrapped 1 (codes "k") 5 (λ n. n + 1)
    ∷ []

abbrev fresh : State ℕ
fresh = record { options = record { ctx = none; cached = 0 }; executed = [] }

abbrev applied : State ℕ
applied = record {
  options = record { ctx = some ((codes "k", 12) ∷ []); cached = 4 };
  executed = 2 ∷ 1 ∷ [];
}

-- It counts under a key of the context.
abbrev count_up : Str → Options ℕ → Bool × Options ℕ
unfolding get
count_up key o = elim o.ctx [
  | none ↦ (false, o)
  | some c ↦ append_ctx key (elim (get key c) [ none ↦ 1 | some n ↦ n + 1 ]) o
]

once : apply settings fresh ≡ done applied
unfolding apply apply_each apply_one any get put remove str_eq
once = refl

from_root : get_options settings none [] ≡ done applied
unfolding get_options apply apply_each apply_one any get put remove str_eq
from_root = refl

no_context :
    get_options {V = ℕ} (wrapped 1 (codes "k") 5 (λ n. n) ∷ []) none []
    ≡ panicked (record { options = record { ctx = none; cached = 1 }; executed = 1 ∷ [] })
unfolding get_options apply apply_each apply_one any
no_context = refl

apply_again_example :
    apply settings applied
    ≡ done (record applied { options = record { ctx = some ((codes "k", 12) ∷ []); cached = 8 } })
apply_again_example = apply_again settings fresh applied (tt, (tt, (tt, (tt, tt)))) once

-- An option that is not wrapped runs each time that it is applied.
custom_each_time :
    apply
      (with_root_ctx [] ∷ custom (count_up (codes "k")) ∷ custom (count_up (codes "k")) ∷ [])
      fresh
    ≡ done (record {
      options = record { ctx = some ((codes "k", 2) ∷ []); cached = 3 };
      executed = [];
    })
unfolding apply apply_each apply_one get put remove str_eq
custom_each_time = refl

-- Without a context the option of a client panics.
dht_early :
    apply (with_dht 1 ∷ []) fresh
    ≡ panicked (record fresh { options = record { ctx = none; cached = 1 } })
unfolding apply apply_each apply_one
dht_early = refl
