-- ===== src/Social/Following.antt =====
-- station/frame/touch/model/actor/follow.go: `Following`.
use peers_touch_go.Prelude.{ℕ, Bool, List, [], ◌∷◌, ◌++◌, Option, Str}
use peers_touch_go.Social.{
  Collections, Members, Outcome, add_member, remove_member, ids, drop_listener,
}

-- `identity` is the pointer by which `RemoveListener` compares; an error is what the call returned.
pub record FollowingListener (c : Collections) : Type 0 where
  pub identity : ℕ
  pub on_follow : Str → Option (c.Error)
  pub on_unfollow : Str → Option (c.Error)

module _ (c : Collections) where
  abbrev pub Following : Type 0
  Following = Members c (FollowingListener c)

  abbrev pub listener_id : FollowingListener c → ℕ
  listener_id l = l.identity

  unfoldable pub new_following : Following
  new_following = record { items = []; listeners = [] }

  unfoldable pub follow : Str → Following → Outcome c (FollowingListener c)
  unfolding add_member
  follow actor f = add_member c listener_id (λ a l. l.on_follow a) actor f

  unfoldable pub unfollow : Str → Following → Outcome c (FollowingListener c)
  unfolding remove_member
  unfollow actor f = remove_member c listener_id (λ a l. l.on_unfollow a) actor f

  unfoldable pub get_following : Following → List Str
  unfolding ids
  get_following f = ids c listener_id f.items

  unfoldable pub is_following : Str → Following → Bool
  is_following actor f = c.contains f.items (c.iri actor)

  unfoldable pub count : Following → ℕ
  count f = c.count f.items

  unfoldable pub add_listener : FollowingListener c → Following → Following
  add_listener l f = record f { listeners = f.listeners ++ l ∷ [] }

  unfoldable pub remove_listener : ℕ → Following → Following
  unfolding drop_listener
  remove_listener i f = record f { listeners = drop_listener c listener_id i f.listeners }

  unfoldable pub clear : Following → Following
  clear f = record f { items = [] }
