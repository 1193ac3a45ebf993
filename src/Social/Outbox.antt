-- ===== src/Social/Outbox.antt =====
-- station/frame/touch/model/actor/outbox.go: `Outbox`. Only activities are put in, and a listener's
-- answer does not matter, so a listener is a number.
use peers_touch_go.Prelude.{ℕ, Bool, List, [], ◌∷◌, ◌++◌, Str}
use peers_touch_go.Prelude.Int.{ℤ}
use peers_touch_go.Social.Box.{Box, prepend, remove_from}
use peers_touch_go.Paging.{Page, slice}

module _ (Activity : Type 0) (activity_id : Activity → Str) where
  pub record Outbox : Type 0 where
    pub collection : Box Activity activity_id
    pub actor_id : Str
    pub listeners : List ℕ

  pub record OutboxOptions : Type 0 where
    pub actor_id : Str
    pub max_items : ℕ
    pub listeners : List ℕ

  -- `MaxItems` is read and goes nowhere.
  unfoldable pub new_outbox : OutboxOptions → Outbox
  new_outbox o = record {
    collection = record { ordered_items = []; total_items = 0 };
    actor_id = o.actor_id;
    listeners = o.listeners;
  }

  -- The listeners called, in order: an error of one is printed and the loop goes on.
  -- `OnActivitySent` is called; what is sent and what is queued is kept alike.
  unfoldable pub send_activity : Activity → Outbox → List ℕ × Outbox
  unfolding prepend
  send_activity a o =
      (o.listeners, record o { collection = prepend Activity activity_id a o.collection })

  -- `OnActivityQueued` is called.
  unfoldable pub queue_activity : Activity → Outbox → List ℕ × Outbox
  unfolding prepend
  queue_activity a o =
      (o.listeners, record o { collection = prepend Activity activity_id a o.collection })

  unfoldable pub get_activities : ℤ → ℤ → Outbox → Page Activity
  unfolding slice
  get_activities offset limit o = slice offset limit o.collection.ordered_items

  unfoldable pub count : Outbox → ℕ
  count o = o.collection.total_items

  unfoldable pub add_listener : ℕ → Outbox → Outbox
  add_listener l o = record o { listeners = o.listeners ++ l ∷ [] }

  unfoldable pub remove_activity : Str → Outbox → Bool × Outbox
  unfolding remove_from
  remove_activity id o =
      let (found, b) = remove_from Activity activity_id id o.collection in
      (found, record o { collection = b })

  unfoldable pub clear : Outbox → Outbox
  clear o = record o { collection = record { ordered_items = []; total_items = 0 } }

  unfoldable pub get_pending_activities : Outbox → List Activity
  get_pending_activities o = o.collection.ordered_items
