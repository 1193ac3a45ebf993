-- ===== src/PeerRoutes/Tests.antt =====
-- A session of the host "me", which has been idle, and two nodes.
use peers_touch_go.Prelude.{◌*◌, true, [], ◌∷◌, none, some, codes, str_eq, ◌≡◌, refl}
use peers_touch_go.Prelude.Dict
use peers_touch_go.Prelude.Dict.{Dict}
use peers_touch_go.Prelude.Int.{pos}
use peers_touch_go.Prelude.Result.{ok}
use peers_touch_go.PeerRoutes.Sessions.{Session, session_key, minute, touch_hi_to, session_tick}
use peers_touch_go.PeerRoutes.Sessions.Kept.{start, ticked, touch_hi_to-Runs}
use peers_touch_go.Registry.{new_memory_storage}
use peers_touch_go.PeerRoutes.Nodes.{NodeRequest, register_node_route}
use peers_touch_go.PeerRoutes.Nodes.Overwritten.{register_node_route_again}

abbrev idle_session : Session
idle_session = record {
  local_peer_id = codes "me";
  remote_addr = codes "b:1";
  session_id = codes "u-1";
  last_active = 0;
}

abbrev one_session : Dict Session
one_session = (session_key (codes "me") (codes "b:1"), idle_session) ∷ []

session_there : Dict.get (session_key (codes "me") (codes "b:1")) one_session ≡ some idle_session
unfolding Dict.get str_eq
session_there = refl

touch_hi_to-Runs_example :
    touch_hi_to true
      (codes "u-2")
      (3 * minute)
      (some (codes "me"))
      (codes "b:1")
      (session_tick (2 * minute) idle_session one_session)
    ≡ (ok (codes "u-1"), session_tick (2 * minute) idle_session one_session)
touch_hi_to-Runs_example =
    touch_hi_to-Runs (codes "me") (codes "b:1") idle_session one_session
      (session_tick (2 * minute) idle_session one_session) true (codes "u-2") (3 * minute)
      session_there
      (ticked (2 * minute) idle_session one_session one_session refl (start one_session))

abbrev first_node : NodeRequest
first_node = record {
  name = codes "a";
  version = codes "1";
  capabilities = [];
  metadata = none;
  public_key = [];
  addresses = codes "h" ∷ [];
  port = pos 80;
}

abbrev second_node : NodeRequest
second_node = record first_node { name = codes "b" }

register_node_route_again_test :
    (register_node_route
      (some second_node)
      (register_node_route (some first_node) new_memory_storage).1).1
    ≡ (register_node_route (some second_node) new_memory_storage).1
register_node_route_again_test =
    register_node_route_again first_node second_node new_memory_storage refl refl
