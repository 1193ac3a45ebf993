-- ===== src/Social/Followers.antt =====
-- station/frame/touch/model/actor/follow.go: `Followers`.
use peers_touch_go.Prelude.{ℕ, Bool, List, [], ◌∷◌, ◌++◌, Option, Str}
use peers_touch_go.Social.{
  Collections, Members, Outcome, add_member, remove_member, ids, drop_listener,
}

-- `identity` is the pointer by which `RemoveListener` compares; an error is what the call returned.
pub record FollowersListener (c : Collections) : Type 0 where
  pub identity : ℕ
  pub on_follower_added : Str → Option (c.Error)
  pub on_follower_removed : Str → Option (c.Error)

module _ (c : Collections) where
  abbrev pub Followers : Type 0
  Followers = Members c (FollowersListener c)

  abbrev pub listener_id : FollowersListener c → ℕ
  listener_id l = l.identity

  unfoldable pub new_followers : Followers
  new_followers = record { items = []; listeners = [] }

  unfoldable pub add_follower : Str → Followers → Outcome c (FollowersListener c)
  unfolding add_member
  add_follower actor f = add_member c listener_id (λ a l. l.on_follower_added a) actor f

  unfoldable pub remove_follower : Str → Followers → Outcome c (FollowersListener c)
  unfolding remove_member
  remove_follower actor f = remove_member c listener_id (λ a l. l.on_follower_removed a) actor f

  unfoldable pub get_followers : Followers → List Str
  unfolding ids
  get_followers f = ids c listener_id f.items

  unfoldable pub is_follower : Str → Followers → Bool
  is_follower actor f = c.contains f.items (c.iri actor)

  unfoldable pub count : Followers → ℕ
  count f = c.count f.items

  unfoldable pub add_listener : FollowersListener c → Followers → Followers
  add_listener l f = record f { listeners = f.listeners ++ l ∷ [] }

  unfoldable pub remove_listener : ℕ → Followers → Followers
  unfolding drop_listener
  remove_listener i f = record f { listeners = drop_listener c listener_id i f.listeners }

  unfoldable pub clear : Followers → Followers
  clear f = record f { items = [] }
