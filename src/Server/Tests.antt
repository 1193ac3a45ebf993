-- ===== src/Server/Tests.antt =====
-- Two subservers that count the calls of them in a number.
use peers_touch_go.Prelude.{
  ℕ, ◌+◌, true, false, List, [], ◌∷◌, any, none, some, Str, codes, str_eq, ◌≡◌, refl,
}
use peers_touch_go.Prelude.Dict.{put, remove}
use peers_touch_go.Server.{Handler, with_method, new_handler}
use peers_touch_go.Server.Routes.{prefixed_path, prefixed_path_unique, route_all}
use peers_touch_go.Server.Hertz
use peers_touch_go.Server.Native.{
  Function, handler_func, NativeServer, handled, handle, serve, called,
}
use peers_touch_go.Lifecycle
use peers_touch_go.Lifecycle.{Node, ready, call_all}
use peers_touch_go.Server.Base.{
  Subserver, BaseServer, done, new_server, init, init_subs, start, stop, each,
}

abbrev peers : Handler ℕ
peers = record {
  name = codes "p";
  method = codes "GET";
  path = codes "/p";
  handler = 1;
  wrappers = [];
}

handler_made :
    new_handler
      (codes "p")
      (codes "/p")
      1
      (with_method (codes "POST") ∷ with_method (codes "GET") ∷ [])
    ≡ peers
unfolding new_handler
handler_made = refl

routed :
    route_all (record { name = codes "peer"; handlers = peers ∷ [] } ∷ []) []
    ≡ record peers { path = codes "/peer/p" } ∷ []
unfolding route_all
routed = refl

abbrev counting : Str → ℕ → Subserver ℕ ℕ
counting name k = record {
  name = name;
  handlers = record peers { handler = k } ∷ [];
  init = λ w. (true, w + 1);
  start = λ w. (true, w + k);
  stop = λ w. (true, w);
}

abbrev two : List (Subserver ℕ ℕ)
two = counting (codes "a") 10 ∷ counting (codes "b") 100 ∷ []

abbrev prepared : BaseServer ℕ ℕ
prepared = record {
  initialised = true;
  sub_server_started = false;
  sub_servers = (codes "b", counting (codes "b") 100) ∷ (codes "a", counting (codes "a") 10) ∷ [];
  handlers = peers ∷ record peers { handler = 10 } ∷ record peers { handler = 100 } ∷ [];
}

abbrev serving : BaseServer ℕ ℕ
serving = record prepared { sub_server_started = true }

initialised : init two (new_server (peers ∷ [])) 0 ≡ done prepared 2
unfolding init init_subs new_server put remove str_eq
initialised = refl

started : start prepared 2 ≡ done serving 112
unfolding start each
started = refl

stopped : stop serving 112 ≡ done serving 112
unfolding stop each
stopped = refl

prefixed_path_unique_example : (codes "peer" ≡ codes "peer") × (codes "/p" ≡ codes "/p")
prefixed_path_unique_example =
    prefixed_path_unique (codes "peer") (codes "peer") (codes "/p") (codes "/p") (λ h. cc) (λ h. cc)
      refl refl refl refl refl

-- Where a path does not begin with a slash, the routes of two families can meet.
meet_without_slash :
    prefixed_path (codes "a") (codes "b/x") ≡ prefixed_path (codes "ab") (codes "/x")
meet_without_slash = refl

abbrev plain_native : Handler (Function ℕ)
plain_native = record {
  name = codes "p";
  method = codes "GET";
  path = codes "/p";
  handler = handler_func 1;
  wrappers = [];
}

abbrev guarded_native : Handler (Function ℕ)
guarded_native = record plain_native { path = codes "/q"; wrappers = handler_func 2 ∷ [] }

abbrev served : NativeServer ℕ
served = record {
  mux = record { path = codes "/p"; method = codes "GET"; function = 1 } ∷ [];
  handlers = [];
}

handles :
    handle guarded_native served ≡ handled (record { mux = []; handlers = guarded_native ∷ [] })
unfolding handle any str_eq
handles = refl

serves : serve served.mux (codes "/p") (codes "GET") ≡ called 1
unfolding serve str_eq
serves = refl

abbrev hertz_handlers : List (Handler (Hertz.Function ℕ))
hertz_handlers =
    record {
      name = codes "p";
      method = codes "GET";
      path = codes "/p";
      handler = Hertz.hertz 1;
      wrappers = Hertz.hertz 9 ∷ [];
    }
    ∷ []

abbrev hertz_server : Hertz.HertzServer ℕ ℕ
hertz_server = record {
  base = record {
    initialised = true;
    sub_server_started = true;
    sub_servers = [];
    handlers = hertz_handlers;
  };
  routes = [];
  started = true;
}

abbrev quiet : Node Hertz.Error ℕ
quiet = record {
  id = [];
  name = [];
  address = none;
  before_start = [];
  start_server = λ w. ready w;
  register = λ r w. (none, w);
  after_start = [];
  before_stop = (λ w. (none, w + 1)) ∷ [];
  stop_server = λ w. (none, w);
  close_config = λ w. (none, w + 10);
  after_stop = [];
}

stop-node_example :
    (e : Hertz.Error) × (v : ℕ) × (Hertz.stop hertz_server true
        (call_all none quiet.before_stop 0).1
      ≡ (some e, v))
    × (Lifecycle.stop (record quiet { stop_server = Hertz.stop hertz_server true }) 0 ≡ (some e, v))
stop-node_example = Hertz.stop-node hertz_server true quiet 0
