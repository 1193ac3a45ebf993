-- ===== src/PeerRoutes/Sessions/Kept.antt =====
-- station/frame/touch/peer: what becomes of a session in the map.
use peers_touch_go.Prelude.{
  ℕ, Bool, true, false, ◌∷◌, Option, none, some, Str, str_eq_iff, ◌≡◌, refl, arith,
}
use peers_touch_go.Prelude.Dict
use peers_touch_go.Prelude.Dict.{Dict, get-put, get-remove}
use peers_touch_go.Prelude.Result.{ok}
use peers_touch_go.Prelude.TextLaws.{occurs, occurs-append}
use peers_touch_go.PeerRoutes.Sessions.{
  Session, session_key, open_session, touch_hi_to, session_tick, session_done,
}

-- No UUID has a `|`.
abbrev pub IsUuid : Str → Type 0
IsUuid s = occurs b'|' s ≡ false

-- Calls of TouchHiTo, and what the goroutines of sessions do, in any order.
pub data Runs : Dict Session → Dict Session → Type 0 where
  start : (m : Dict Session) → Runs m m
  touched :
      (dials : Bool) (uuid : Str) (now : ℕ) (me : Option Str) (addr : Str) (m n : Dict Session)
      → Runs m n
      → Runs m (touch_hi_to dials uuid now me addr n).1
  ticked :
      (now : ℕ) (s : Session) (m n : Dict Session)
      → IsUuid s.session_id
      → Runs m n
      → Runs m (session_tick now s n)
  ended :
      (s : Session) (m n : Dict Session)
      → IsUuid s.session_id
      → Runs m n
      → Runs m (session_done s n)

open_session-kept :
    (k : Str) (s : Session) (dials : Bool) (uuid : Str) (now : ℕ) (me addr : Str)
    (o : Option Session) (m : Dict Session)
    → Dict.get (session_key me addr) m ≡ o
    → Dict.get k m ≡ some s
    → Dict.get k (open_session dials uuid now me addr o m).1 ≡ some s
open_session-kept k s dials uuid now me addr (some t) m e h = h
open_session-kept k s false uuid now me addr none m e h = h
open_session-kept k s true uuid now me addr none m e h = ground (
  arith,
  get-put (session_key me addr) k
      (record { local_peer_id = me; remote_addr = addr; session_id = uuid; last_active = now }) m,
  str_eq_iff (session_key me addr) k,
)

touch_hi_to-kept :
    (k : Str) (s : Session) (dials : Bool) (uuid : Str) (now : ℕ) (me : Option Str) (addr : Str)
    (m : Dict Session)
    → Dict.get k m ≡ some s
    → Dict.get k (touch_hi_to dials uuid now me addr m).1 ≡ some s
unfolding touch_hi_to
touch_hi_to-kept k s dials uuid now none addr m h = h
touch_hi_to-kept k s dials uuid now (some me) addr m h =
    open_session-kept k s dials uuid now me addr (Dict.get (session_key me addr) m) m refl h

remove-kept :
    (k : Str) (s t : Session) (m : Dict Session)
    → occurs b'|' k ≡ true
    → IsUuid t.session_id
    → Dict.get k m ≡ some s
    → Dict.get k (Dict.remove t.session_id m) ≡ some s
remove-kept k s t m b u h = ground (arith, get-remove t.session_id k m, str_eq_iff t.session_id k)

get-Runs :
    (k : Str) (s : Session) (m n : Dict Session)
    → occurs b'|' k ≡ true
    → Runs m n
    → Dict.get k m ≡ some s
    → Dict.get k n ≡ some s
unfolding session_tick session_done
get-Runs k s _ _ b (start m) h = h
get-Runs k s _ _ b (touched dials uuid now me addr m n r) h =
    touch_hi_to-kept k s dials uuid now me addr n (get-Runs k s m n b r h)
get-Runs k s _ _ b (ticked now t m n u r) h =
    let g = get-Runs k s m n b r h in ground (arith, remove-kept k s t n b u g)
get-Runs k s _ _ b (ended t m n u r) h = remove-kept k s t n b u (get-Runs k s m n b r h)

session_key-occurs : (me addr : Str) → occurs b'|' (session_key me addr) ≡ true
session_key-occurs me addr = ground (arith, occurs-append b'|' me (b'|' ∷ addr))

-- Once a host has a session with an address, TouchHiTo gives it that session's id ever after, whatever was
-- called since, and though the session's goroutine found it idle for a minute or its context done:
-- these delete the session's id, which is never the key that it is stored under.
pub touch_hi_to-Runs :
    (me addr : Str) (s : Session) (m n : Dict Session) (dials : Bool) (uuid : Str) (now : ℕ)
    → Dict.get (session_key me addr) m ≡ some s
    → Runs m n
    → touch_hi_to dials uuid now (some me) addr n ≡ (ok s.session_id, n)
unfolding touch_hi_to
touch_hi_to-Runs me addr s m n dials uuid now h r =
    rw (get-Runs (session_key me addr) s m n (session_key-occurs me addr) r h) refl
