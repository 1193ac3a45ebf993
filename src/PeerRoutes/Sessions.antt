-- ===== src/PeerRoutes/Sessions.antt =====
-- station/frame/touch/peer: TouchHiTo of peer_msg.go over the map of session.go, and the goroutine that
-- watches a session. `sync.Map` is a map. Dialling and fresh UUIDs are arguments; messages are not modelled.
pub mod Kept
use peers_touch_go.Prelude.{
  ℕ, ◌-◌, ◌*◌, ◌^◌, Bool, true, false, List, [], ◌∷◌, ◌++◌, Option, none, some, Str, ltb,
  if◌then◌else◌, ◌≡◌,
}
use peers_touch_go.Prelude.Dict
use peers_touch_go.Prelude.Dict.{Dict}
use peers_touch_go.Prelude.Result.{Result, ok, err}
use peers_touch_go.PeerRoutes.{PeerAddrInfo}

pub record Session : Type 0 where
  pub local_peer_id : Str
  pub remote_addr : Str
  pub session_id : Str
  pub last_active : ℕ

pub data Error : Type 0 where
  no_local_peer empty_peer_address connection_failed : Error

abbrev pub session_key : Str → Str → Str
session_key peer_id addr = peer_id ++ b'|' ∷ addr

abbrev pub minute : ℕ
minute = 60 * 10 ^ 9

-- `dials`: a connection to the address can be made.
abbrev pub open_session :
    Bool → Str → ℕ → Str → Str → Option Session → Dict Session → Result Error Str × Dict Session
open_session dials uuid now peer_id addr (some s) m = (ok s.session_id, m)
open_session false uuid now peer_id addr none m = (err connection_failed, m)
open_session true uuid now peer_id addr none m = (
  ok uuid,
  Dict.put (session_key peer_id addr)
      (record { local_peer_id = peer_id; remote_addr = addr; session_id = uuid; last_active = now })
      m,
)

-- With the host's own id, unless that cannot be found out.
unfoldable pub touch_hi_to :
    Bool → Str → ℕ → Option Str → Str → Dict Session → Result Error Str × Dict Session
unfolding Dict.get Dict.put
touch_hi_to dials uuid now none addr m = (err no_local_peer, m)
touch_hi_to dials uuid now (some peer_id) addr m =
    open_session dials uuid now peer_id addr (Dict.get (session_key peer_id addr) m) m

-- The handler of peer_router.go, for an address that is bound: it is checked first.
unfoldable pub touch_hi_to_handler :
    Bool → Str → ℕ → Option Str → Str → Dict Session → Result Error Str × Dict Session
unfolding touch_hi_to
touch_hi_to_handler dials uuid now me [] m = (err empty_peer_address, m)
touch_hi_to_handler dials uuid now me (c ∷ addr) m = touch_hi_to dials uuid now me (c ∷ addr) m

-- One tick of a session's goroutine, and its end when the context of the session is done.
unfoldable pub session_tick : ℕ → Session → Dict Session → Dict Session
unfolding Dict.remove
session_tick now s m = if ltb minute (now - s.last_active) then Dict.remove s.session_id m else m

unfoldable pub session_done : Session → Dict Session → Dict Session
unfolding Dict.remove
session_done s m = Dict.remove s.session_id m
