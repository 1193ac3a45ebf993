-- ===== src/Lifecycle.antt =====
-- station/frame/core/plugin/native/node/native.go: Start, Stop and Run of a node, and what it registers.
-- Hooks, the server, the registry and the configuration work on a world `W`; a call gives an error or none.
-- The server is started by a goroutine, of which the node waits for a signal.
pub mod Quiet
mod Tests
use peers_touch_go.Prelude.{
  Bool, true, false, List, [], ◌∷◌, ◌++◌, Option, none, some, Str, codes, if◌then◌else◌,
}

pub record Registration : Type 0 where
  pub id : Str
  pub name : Str
  pub namespaces : List Str
  pub addresses : List Str
  pub server_address : Option Str

-- The address of the server, where there is one.
unfoldable pub to_peer : Str → Str → Option Str → Registration
to_peer id name none = record {
  id = id;
  name = name;
  namespaces = codes "native" ∷ [];
  addresses = [];
  server_address = none;
}
to_peer id name (some a) = record {
  id = id;
  name = name;
  namespaces = codes "native" ∷ [];
  addresses = a ∷ [];
  server_address = some a;
}

module _ (E W : Type 0) where
  abbrev pub Action : Type 0
  Action = W → Option E × W

  -- How the wait ends: the server is ready, or the context is done, which may be since the server did not
  -- start.
  pub data Wait : Type 0 where
    ready : W → Wait
    context_done : E → W → Wait

  pub record Node : Type 0 where
    pub id : Str
    pub name : Str
    pub address : Option Str
    pub before_start : List Action
    pub start_server : W → Wait
    pub register : Registration → Action
    pub after_start : List Action
    pub before_stop : List Action
    pub stop_server : Action
    pub close_config : Action
    pub after_stop : List Action

abbrev pub or_last : {E : Type 0} → Option E → Option E → Option E
or_last last none = last
or_last last (some e) = some e

module _ {E W : Type 0} where
  abbrev pub and_then : Option E × W → Action E W → Option E × W
  and_then (none, w) next = next w
  and_then (some e, w) next = (some e, w)

  -- The loop that returns the first error.
  unfoldable pub until_error : List (Action E W) → Action E W
  until_error [] w = (none, w)
  until_error (h ∷ l) w = and_then (h w) (until_error l)

  -- The loop that calls all hooks and keeps the last error, after one that it had.
  unfoldable pub call_all : Option E → List (Action E W) → Action E W
  call_all last [] w = (last, w)
  call_all last (h ∷ l) w = call_all (or_last last (h w).0) l (h w).1

  abbrev pub once_ready : Node E W → Wait E W → Option E × W
  once_ready n (context_done e w) = (some e, w)
  once_ready n (ready w) =
      and_then (n.register (to_peer n.id n.name n.address) w) (until_error n.after_start)

  unfoldable pub start : Node E W → Action E W
  unfolding until_error
  start n w = and_then (until_error n.before_start w) (λ v. once_ready n (n.start_server v))

  -- An error of the server or of the configuration is returned at once, in place of one of a hook.
  unfoldable pub stop : Node E W → Action E W
  unfolding call_all
  stop n w =
      let b = call_all none n.before_stop w in
      and_then (n.stop_server b.1) (λ v. and_then (n.close_config v) (call_all b.0 n.after_stop))

  -- The wait for a signal or the end of the context leaves the world `idle` makes of it.
  unfoldable pub run : Node E W → (W → W) → Action E W
  unfolding start stop
  run n idle w = and_then (start n w) (λ v. stop n (idle v))
