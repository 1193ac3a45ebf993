-- ===== src/Social.antt =====
-- station/frame/touch/model/actor: the collections of an actor. What the program takes from its copy
-- of go-ap/activitypub is the parameter `Collections`; here are the parts that the collections of
-- follow.go and liked.go share.
pub mod Membership
pub mod Following
pub mod Followers
pub mod Liked
pub mod Box
pub mod Inbox
pub mod Outbox
mod Tests
use peers_touch_go.Prelude.{
  ℕ, ◌≡◌, Bool, true, false, List, [], ◌∷◌, ◌++◌, Option, none, some, Str, ◌==◌, if◌then◌else◌,
  keep, any, length,
}
use peers_touch_go.Prelude.Result.{Result, ok, err}

-- Items, and the functions of `ap.Collection`, `ap.OrderedCollection` and `ap.ItemsEqual` that the
-- program calls, with what their documentation says of them.
pub record Collections : Type 1 where
  pub Item : Type 0
  pub Error : Type 0
  pub iri : Str → Item
  -- the type assertion `item.(ap.IRI)`
  pub as_iri : Item → Option Str
  pub items_equal : Item → Item → Bool
  pub contains : List Item → Item → Bool
  pub append : List Item → Item → Result Error (List Item)
  pub count : List Item → ℕ
  pub as_iri-iri : (s : Str) → as_iri (iri s) ≡ some s
  pub items_equal_refl : (s : Str) → items_equal (iri s) (iri s) ≡ true
  pub contains-any : (xs : List Item) (x : Item) → contains xs x ≡ any (λ y. items_equal y x) xs
  pub count-length : (xs : List Item) → count xs ≡ length xs
  pub append-new :
      (xs : List Item) (x : Item) → contains xs x ≡ false → append xs x ≡ ok (xs ++ x ∷ [])

-- A collection with its listeners; `L` is the listener's interface.
pub record Members (c : Collections) (L : Type 0) : Type 0 where
  pub items : List (c.Item)
  pub listeners : List L

-- What a call returns, which listeners it called, in order, and what it leaves.
pub record Outcome (c : Collections) (L : Type 0) : Type 0 where
  pub error : Option (c.Error)
  pub called : List ℕ
  pub after : Members c L

module _ (c : Collections) {L : Type 0} (identity : L → ℕ) where
  open c use {Item, Error, iri, as_iri, items_equal, contains, append}

  -- The result of the listeners that follow the first, if it does not fail.
  abbrev pub and_then : ℕ → Option Error → Option Error × List ℕ → Option Error × List ℕ
  and_then i (some e) rest = (some e, i ∷ [])
  and_then i none (r, called) = (r, i ∷ called)

  -- The loop over the listeners: it ends at the first that fails.
  unfoldable pub notify : (L → Option Error) → List L → Option Error × List ℕ
  notify call [] = (none, [])
  notify call (l ∷ ls) = and_then (identity l) (call l) (notify call ls)

  abbrev pub store_and_notify :
      (L → Option Error) → Members c L → Result Error (List Item) → Outcome c L
  store_and_notify call f (err e) = record { error = some e; called = []; after = f }
  store_and_notify call f (ok xs) =
      let (r, called) = notify call f.listeners in
      record { error = r; called = called; after = record f { items = xs } }

  abbrev pub unchanged : Members c L → Outcome c L
  unchanged f = record { error = none; called = []; after = f }

  -- `Follow`, `AddFollower` and `Like`.
  unfoldable pub add_member : (Str → L → Option Error) → Str → Members c L → Outcome c L
  unfolding notify
  add_member call actor f =
      if contains f.items (iri actor)
      then unchanged f
      else store_and_notify (call actor) f (append f.items (iri actor))

  abbrev pub differs : Item → Item → Bool
  differs x y = if items_equal y x then false else true

  -- `Unfollow`, `RemoveFollower` and `Unlike`.
  unfoldable pub remove_member : (Str → L → Option Error) → Str → Members c L → Outcome c L
  unfolding notify keep
  remove_member call actor f =
      if contains f.items (iri actor)
      then store_and_notify (call actor) f (ok (keep (differs (iri actor)) f.items))
      else unchanged f

  abbrev pub cons_some : Option Str → List Str → List Str
  cons_some none rest = rest
  cons_some (some s) rest = s ∷ rest

  -- The items that are IRIs.
  unfoldable pub ids : List Item → List Str
  ids [] = []
  ids (x ∷ xs) = cons_some (as_iri x) (ids xs)

  -- The first listener that is the given one goes.
  unfoldable pub drop_listener : ℕ → List L → List L
  drop_listener i [] = []
  drop_listener i (l ∷ ls) = if identity l == i then ls else l ∷ drop_listener i ls
