-- ===== src/Session/Store/Race.antt =====
-- `Get` lets the read lock go between finding a session expired and deleting it.
use peers_touch_go.Prelude.{ℕ, ◌≡◌, Str, arith, str_eq_refl}
use peers_touch_go.Prelude.Result.{err}
use peers_touch_go.Prelude.Dict.{get-remove}
use peers_touch_go.Session.{Session, session_not_found}
use peers_touch_go.Session.Store.{MemorySessionStore, stale, set, delete, find, finish, get}

-- Whenever one `Get` has found an id expired and another call sets a session under that id before
-- the `Get` goes on, the new session is lost, also one that has not expired: the next `Get` of the
-- id at any time finds nothing.
pub get-set_race :
    (now set_at t seen seen' : ℕ) (id : Str) (s : Session) (m : MemorySessionStore)
    → find now id m ≡ stale
    → let m' = (finish seen id (find now id m) (set set_at id s m)).1 in
      (get t seen' id m').0 ≡ err session_not_found
unfolding get finish delete find
get-set_race now set_at t seen seen' id s m h =
    ground (arith, get-remove id id (set set_at id s m).sessions, str_eq_refl id)
