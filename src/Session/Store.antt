-- ===== src/Session/Store.antt =====
-- station/frame/touch/auth/session.go: `MemorySessionStore`. `Get` is in two parts, since it lets
-- the lock go before it deletes an expired session.
pub mod Lookup
pub mod Cleanup
pub mod Race
use peers_touch_go.Prelude.{
  ℕ, ◌+◌, Bool, true, false, [], Option, none, some, Str, ltb, ◌==◌, if◌then◌else◌,
}
use peers_touch_go.Prelude.Result.{Result, ok, err}
use peers_touch_go.Prelude.Dict
use peers_touch_go.Prelude.Dict.{Dict}
use peers_touch_go.Session.{
  Session, Error, session_not_found, session_expired, day, is_expired, touch,
}

pub record MemorySessionStore : Type 0 where
  pub sessions : Dict Session
  pub ttl : ℕ

unfoldable pub new_memory_session_store : ℕ → MemorySessionStore
new_memory_session_store ttl = record { sessions = []; ttl = if ttl == 0 then day else ttl }

-- The session as `Set` leaves it, also for the caller, who holds the same pointer.
abbrev pub with_expiry : ℕ → ℕ → Session → Session
with_expiry now ttl s = if s.expires_at == 0 then record s { expires_at = now + ttl } else s

unfoldable pub set : ℕ → Str → Session → MemorySessionStore → MemorySessionStore
unfolding Dict.put
set now id s m = record m { sessions = Dict.put id (with_expiry now m.ttl s) m.sessions }

unfoldable pub delete : Str → MemorySessionStore → MemorySessionStore
unfolding Dict.remove
delete id m = record m { sessions = Dict.remove id m.sessions }

-- What `Get` finds under the read lock.
pub data Found : Type 0 where
  missing : Found
  stale : Found
  live : Session → Found

abbrev pub judge : ℕ → Option Session → Found
judge now none = missing
judge now (some s) = if is_expired now s then stale else live s

unfoldable pub find : ℕ → Str → MemorySessionStore → Found
unfolding Dict.get
find now id m = judge now (Dict.get id m.sessions)

-- What `Get` does then. The touched session is the one in the map.
unfoldable pub finish :
    ℕ → Str → Found → MemorySessionStore → Result Error Session × MemorySessionStore
unfolding delete Dict.put
finish seen id missing m = (err session_not_found, m)
finish seen id stale m = (err session_expired, delete id m)
finish seen id (live s) m =
    (ok (touch seen s), record m { sessions = Dict.put id (touch seen s) m.sessions })

unfoldable pub get : ℕ → ℕ → Str → MemorySessionStore → Result Error Session × MemorySessionStore
unfolding find finish
get now seen id m = finish seen id (find now id m) m

-- `session.ExpiresAt.Before(now)`
unfoldable pub cleanup : ℕ → MemorySessionStore → MemorySessionStore
unfolding Dict.retain
cleanup now m = record m {
  sessions = Dict.retain (λ s. if ltb s.expires_at now then false else true) m.sessions;
}
