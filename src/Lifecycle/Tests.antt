-- ===== src/Lifecycle/Tests.antt =====
-- A node whose parts write down that they were called.
use peers_touch_go.Prelude.{ℕ, List, [], ◌∷◌, none, some, Str, codes, ◌≡◌, ◌↔◌, refl}
use peers_touch_go.Lifecycle.{Action, ready, Node, until_error, call_all, start, stop, run}
use peers_touch_go.Lifecycle.Quiet.{Stops, stop_iff}

abbrev Calls : Type 0
Calls = List ℕ

abbrev note : ℕ → Action Str Calls
note k w = (none, k ∷ w)

abbrev fail : ℕ → Action Str Calls
fail k w = (some (codes "failed"), k ∷ w)

abbrev demo : Node Str Calls
demo = record {
  id = codes "1";
  name = codes "n";
  address = some (codes ":8080");
  before_start = note 1 ∷ [];
  start_server = λ w. ready (2 ∷ w);
  register = λ r. note 3;
  after_start = note 4 ∷ [];
  before_stop = note 5 ∷ [];
  stop_server = note 6;
  close_config = note 7;
  after_stop = note 8 ∷ [];
}

stop_iff_example : (stop demo [] ≡ (none, 8 ∷ 7 ∷ 6 ∷ 5 ∷ [])) ↔ Stops demo [] (8 ∷ 7 ∷ 6 ∷ 5 ∷ [])
stop_iff_example = stop_iff demo [] (8 ∷ 7 ∷ 6 ∷ 5 ∷ [])

ran : run demo (λ w. w) [] ≡ (none, 8 ∷ 7 ∷ 6 ∷ 5 ∷ 4 ∷ 3 ∷ 2 ∷ 1 ∷ [])
unfolding run start stop until_error call_all
ran = refl

-- The registration fails: nothing is stopped.
not_stopped :
    run (record demo { register = λ r. fail 3 }) (λ w. w) []
    ≡ (some (codes "failed"), 3 ∷ 2 ∷ 1 ∷ [])
unfolding run start stop until_error call_all
not_stopped = refl

-- An error of a hook is kept, and the rest is stopped.
hook_failed :
    stop (record demo { before_stop = fail 5 ∷ note 9 ∷ [] }) []
    ≡ (some (codes "failed"), 8 ∷ 7 ∷ 6 ∷ 9 ∷ 5 ∷ [])
unfolding stop until_error call_all
hook_failed = refl
