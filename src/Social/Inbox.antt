-- ===== src/Social/Inbox.antt =====
-- station/frame/touch/model/actor/inbox.go: `Inbox`. Only activities are put in, and a listener's
-- answer does not matter, so a listener is a number.
use peers_touch_go.Prelude.{ℕ, Bool, List, [], ◌∷◌, ◌++◌, Str}
use peers_touch_go.Prelude.Int.{ℤ}
use peers_touch_go.Social.Box.{Box, prepend, remove_from}
use peers_touch_go.Paging.{Page, slice}

module _ (Activity : Type 0) (activity_id : Activity → Str) where
  pub record Inbox : Type 0 where
    pub collection : Box Activity activity_id
    pub actor_id : Str
    pub listeners : List ℕ

  pub record InboxOptions : Type 0 where
    pub actor_id : Str
    pub max_items : ℕ
    pub listeners : List ℕ

  -- `MaxItems` is read and goes nowhere.
  unfoldable pub new_inbox : InboxOptions → Inbox
  new_inbox o = record {
    collection = record { ordered_items = []; total_items = 0 };
    actor_id = o.actor_id;
    listeners = o.listeners;
  }

  -- The listeners called, in order: an error of one is printed and the loop goes on.
  unfoldable pub receive_activity : Activity → Inbox → List ℕ × Inbox
  unfolding prepend
  receive_activity a i =
      (i.listeners, record i { collection = prepend Activity activity_id a i.collection })

  unfoldable pub get_activities : ℤ → ℤ → Inbox → Page Activity
  unfolding slice
  get_activities offset limit i = slice offset limit i.collection.ordered_items

  unfoldable pub count : Inbox → ℕ
  count i = i.collection.total_items

  unfoldable pub add_listener : ℕ → Inbox → Inbox
  add_listener l i = record i { listeners = i.listeners ++ l ∷ [] }

  unfoldable pub remove_activity : Str → Inbox → Bool × Inbox
  unfolding remove_from
  remove_activity id i =
      let (found, b) = remove_from Activity activity_id id i.collection in
      (found, record i { collection = b })

  unfoldable pub clear : Inbox → Inbox
  clear i = record i { collection = record { ordered_items = []; total_items = 0 } }
