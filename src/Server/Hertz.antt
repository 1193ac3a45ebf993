-- ===== src/Server/Hertz.antt =====
-- station/frame/core/plugin/server/hertz/hertz.go: the server that nodes use, over BaseServer. An engine is
-- the list of its routes. A world `W` is what the subservers work on.
use peers_touch_go.Prelude.{
  Bool, true, false, List, [], ◌∷◌, ◌++◌, map, Option, none, some, Str, codes, str_eq,
  if◌then◌else◌, ◌≡◌, refl,
}
use peers_touch_go.Server.{Handler}
use peers_touch_go.Server.Base
use peers_touch_go.Server.Base.{BaseServer, Outcome, done, refused, panicked}
use peers_touch_go.Lifecycle.{Node, and_then, call_all}
use peers_touch_go.Lifecycle

-- What a handler's function can be; `standard` is an `http.Handler`.
pub data Function (F : Type 0) : Type 0 where
  hertz standard unsupported : F → Function F

pub data Verb : Type 0 where
  post get any : Verb

pub record Route (F : Type 0) : Type 0 where
  pub verb : Verb
  pub path : Str
  pub function : Function F

abbrev pub verb_of : Str → Verb
unfolding str_eq
verb_of m = if str_eq m (codes "POST") then post else if str_eq m (codes "GET") then get else any

module _ {F : Type 0} where
  -- `Handle`: a function of another kind than hertz's is passed over.
  unfoldable pub handle : Handler (Function F) → Function F → List (Route F) → List (Route F)
  unfolding str_eq
  handle h (hertz f) routes =
      routes ++ record { verb = verb_of h.method; path = h.path; function = hertz f } ∷ []
  handle h (standard f) routes = routes
  handle h (unsupported f) routes = routes

  -- The loop of `Start`: a standard handler is made one of hertz, and an unsupported one ends it with an
  -- error.
  unfoldable pub route :
      Handler (Function F) → Function F → List (Route F) → Option (List (Route F))
  unfolding handle
  route h (hertz f) routes = some (handle h (hertz f) routes)
  route h (standard f) routes = some (handle h (hertz f) routes)
  route h (unsupported f) routes = none

  abbrev pub route_then :
      Option (List (Route F)) → (List (Route F) → Option (List (Route F))) → Option (List (Route F))
  route_then none next = none
  route_then (some r) next = next r

  unfoldable pub route_all : List (Handler (Function F)) → List (Route F) → Option (List (Route F))
  unfolding route
  route_all [] routes = some routes
  route_all (h ∷ l) routes = route_then (route h h.handler routes) (route_all l)

  abbrev pub without_wrappers : Handler (Function F) → Handler (Function F)
  without_wrappers h = record h { wrappers = [] }

  route-without_wrappers :
      (h : Handler (Function F)) (f : Function F) (routes : List (Route F))
      → route (without_wrappers h) f routes ≡ route h f routes
  unfolding route
  route-without_wrappers h (hertz f) routes = refl
  route-without_wrappers h (standard f) routes = refl
  route-without_wrappers h (unsupported f) routes = refl

  route_then-same :
      (o : Option (List (Route F))) (p q : List (Route F) → Option (List (Route F)))
      → ((r : List (Route F)) → p r ≡ q r)
      → route_then o p ≡ route_then o q
  route_then-same none p q h = refl
  route_then-same (some r) p q h = h r

  -- The routes of a server are the same whatever wrappers its handlers have: no wrapper is ever called.
  pub route_all-without_wrappers :
      (l : List (Handler (Function F))) (routes : List (Route F))
      → route_all (map without_wrappers l) routes ≡ route_all l routes
  unfolding route_all
  route_all-without_wrappers [] routes = refl
  route_all-without_wrappers (h ∷ l) routes = rw (route-without_wrappers h h.handler routes) (
      route_then-same (route h h.handler routes) (route_all (map without_wrappers l)) (route_all l)
        (route_all-without_wrappers l))

-- `base_panicked` is a panic of a subserver.
pub data Error : Type 0 where
  unsupported_handler close_failed timed_out base_refused base_panicked : Error

-- The end of the wait: the context has no parent that is ever done and is cancelled only after it, so it
-- is done by its deadline.
abbrev pub after_close : Bool → Option Error
after_close true = some timed_out
after_close false = some close_failed

pub record HertzServer (F W : Type 0) : Type 0 where
  pub base : BaseServer W (Function F)
  pub routes : List (Route F)
  pub started : Bool

module _ {F W : Type 0} where
  abbrev pub with_routes :
      HertzServer F W → W → Option (List (Route F)) → Option Error × (HertzServer F W × W)
  with_routes s w none = (some unsupported_handler, (s, w))
  with_routes s w (some r) = (none, (record s { routes = r; started = true }, w))

  abbrev pub with_base :
      HertzServer F W → Outcome (BaseServer W (Function F)) W → Option Error × (HertzServer F W × W)
  with_base s (refused b w) = (some base_refused, (record s { base = b }, w))
  with_base s (panicked b w) = (some base_panicked, (record s { base = b }, w))
  with_base s (done b w) = with_routes (record s { base = b }) w (route_all b.handlers s.routes)

  -- A second start is only logged.
  unfoldable pub start : HertzServer F W → W → Option Error × (HertzServer F W × W)
  unfolding route_all Base.start
  start s w = if s.started then (none, (s, w)) else with_base s (Base.start s.base w)

  abbrev pub stopped_base : Bool → Outcome (BaseServer W (Function F)) W → Option Error × W
  stopped_base closes (refused b w) = (some base_refused, w)
  stopped_base closes (panicked b w) = (some base_panicked, w)
  stopped_base closes (done b w) = (after_close closes, w)

  -- Whether the engine closes.
  unfoldable pub stop : HertzServer F W → Bool → W → Option Error × W
  unfolding Base.stop
  stop s closes w = stopped_base closes (Base.stop s.base w)

  stopped_base-error :
      (closes : Bool) (o : Outcome (BaseServer W (Function F)) W)
      → (e : Error) × (v : W) × (stopped_base closes o ≡ (some e, v))
  stopped_base-error true (done b w) = (timed_out, w, refl)
  stopped_base-error false (done b w) = (close_failed, w, refl)
  stopped_base-error closes (refused b w) = (base_refused, w, refl)
  stopped_base-error closes (panicked b w) = (base_panicked, w, refl)

  -- A node on this server never stops without an error: its hooks before the stop and the server are
  -- called, then the stop ends with an error of the server, or a panic of a subserver, with the
  -- configuration not closed and no hook after the stop called.
  pub stop-node :
      (s : HertzServer F W) (closes : Bool) (n : Node Error W) (w : W)
      → (e : Error) × (v : W) × (stop s closes (call_all none n.before_stop w).1 ≡ (some e, v))
        × (Lifecycle.stop (record n { stop_server = stop s closes }) w ≡ (some e, v))
  unfolding stop Lifecycle.stop
  stop-node s closes n w =
      let (e, v, q) =
        stopped_base-error closes (Base.stop s.base (call_all none n.before_stop w).1) in
      (e, v, q, rw q refl)
