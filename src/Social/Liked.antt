-- ===== src/Social/Liked.antt =====
-- station/frame/touch/model/actor/liked.go: `Liked`.
use peers_touch_go.Prelude.{ℕ, Bool, List, [], ◌∷◌, ◌++◌, Option, Str}
use peers_touch_go.Prelude.Int.{ℤ}
use peers_touch_go.Social.{
  Collections, Members, Outcome, add_member, remove_member, ids, drop_listener,
}
use peers_touch_go.Paging.{Page, slice, map_page}

-- `identity` is the pointer by which `RemoveListener` compares; an error is what the call returned.
pub record LikedListener (c : Collections) : Type 0 where
  pub identity : ℕ
  pub on_like : Str → Option (c.Error)
  pub on_unlike : Str → Option (c.Error)

module _ (c : Collections) where
  abbrev pub Liked : Type 0
  Liked = Members c (LikedListener c)

  abbrev pub listener_id : LikedListener c → ℕ
  listener_id l = l.identity

  unfoldable pub new_liked : Liked
  new_liked = record { items = []; listeners = [] }

  unfoldable pub like : Str → Liked → Outcome c (LikedListener c)
  unfolding add_member
  like object f = add_member c listener_id (λ a l. l.on_like a) object f

  unfoldable pub unlike : Str → Liked → Outcome c (LikedListener c)
  unfolding remove_member
  unlike object f = remove_member c listener_id (λ a l. l.on_unlike a) object f

  unfoldable pub get_liked : Liked → List Str
  unfolding ids
  get_liked f = ids c listener_id f.items

  unfoldable pub is_liked : Str → Liked → Bool
  is_liked object f = c.contains f.items (c.iri object)

  unfoldable pub count : Liked → ℕ
  count f = c.count f.items

  unfoldable pub add_listener : LikedListener c → Liked → Liked
  add_listener l f = record f { listeners = f.listeners ++ l ∷ [] }

  unfoldable pub remove_listener : ℕ → Liked → Liked
  unfolding drop_listener
  remove_listener i f = record f { listeners = drop_listener c listener_id i f.listeners }

  unfoldable pub clear : Liked → Liked
  clear f = record f { items = [] }

  -- Only the items of the page that are IRIs are returned.
  unfoldable pub get_liked_paginated : ℤ → ℤ → Liked → Page Str
  unfolding ids slice
  get_liked_paginated offset limit l = map_page (ids c listener_id) (slice offset limit l.items)
