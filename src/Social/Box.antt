-- ===== src/Social/Box.antt =====
-- station/frame/touch/model/actor: the list of activities that inbox.go and outbox.go keep. Only
-- activities are put in; `TotalItems` is a `uint` of 64 bits. The vendored type `Activity` and its
-- field `ID` are parameters.
pub mod Counted
use peers_touch_go.Prelude.{
  ℕ, ◌+◌, ◌-◌, ◌%◌, ◌^◌, Bool, true, false, List, [], ◌∷◌, Option, none, some, Str, if◌then◌else◌,
  str_eq,
}

abbrev pub uint_mod : ℕ
uint_mod = 2 ^ 64

module _ (Activity : Type 0) (activity_id : Activity → Str) where
  -- The part of `ap.OrderedCollection` that the boxes use.
  pub record Box : Type 0 where
    pub ordered_items : List Activity
    pub total_items : ℕ

  -- The new item goes to the front.
  unfoldable pub prepend : Activity → Box → Box
  prepend a b = record {
    ordered_items = a ∷ b.ordered_items;
    total_items = (b.total_items + 1) % uint_mod;
  }

  abbrev pub cons_option : Activity → Option (List Activity) → Option (List Activity)
  cons_option a none = none
  cons_option a (some r) = some (a ∷ r)

  -- The items without the first that has the id.
  unfoldable pub without : Str → List Activity → Option (List Activity)
  unfolding str_eq
  without id [] = none
  without id (a ∷ rest) =
      if str_eq (activity_id a) id then some rest else cons_option a (without id rest)

  abbrev pub shrink : Box → Option (List Activity) → Bool × Box
  shrink b none = (false, b)
  shrink b (some r) =
      (true, record { ordered_items = r; total_items = (b.total_items + uint_mod - 1) % uint_mod })

  -- `true` where the code returns nil, `false` where it returns the error "not found".
  unfoldable pub remove_from : Str → Box → Bool × Box
  unfolding without
  remove_from id b = shrink b (without id b.ordered_items)
