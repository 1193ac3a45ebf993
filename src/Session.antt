-- ===== src/Session.antt =====
-- station/frame/touch/auth/session.go: sessions, and the manager over any session store. Times are
-- nanoseconds since the zero `time.Time`; the clock readings of a call are arguments, in the order
-- of the calls of `time.Now`. `Data`, which nothing reads or writes, is left out. A negative ttl is
-- not modelled.
pub mod Store
pub mod Manager
mod Tests
use peers_touch_go.Prelude.{ℕ, ◌+◌, ◌*◌, ◌^◌, ◌≤◌, ◌≢◌, ◌≡◌, Bool, Str, ltb, ◌==◌, if◌then◌else◌}
use peers_touch_go.Prelude.Result.{Result, ok, err}

-- The fields of `db.Actor` that authentication reads.
pub record Actor : Type 0 where
  pub id : ℕ
  pub name : Str
  pub email : Str
  pub password_hash : Str

pub record Session : Type 0 where
  pub id : Str
  pub user_id : ℕ
  pub email : Str
  pub created_at : ℕ
  pub expires_at : ℕ
  pub last_seen : ℕ
  pub ip_address : Str
  pub user_agent : Str

pub data Error : Type 0 where
  session_not_found session_expired : Error

-- `24 * time.Hour`
abbrev pub day : ℕ
day = 24 * 3600 * 10 ^ 9

-- `time.Now().After(s.ExpiresAt)`
abbrev pub is_expired : ℕ → Session → Bool
is_expired now s = ltb s.expires_at now

abbrev pub touch : ℕ → Session → Session
touch now s = record s { last_seen = now }

-- The interface `SessionStore`, as functions on the state of an implementation, with what the
-- manager relies on. `get` takes the readings of `IsExpired` and of `Touch`.
pub record SessionStore : Type 1 where
  pub State : Type 0
  pub set : ℕ → Str → Session → State → Result Error (Unit {0}) × State
  pub get : ℕ → ℕ → Str → State → Result Error Session × State
  pub delete : Str → State → Result Error (Unit {0}) × State
  pub cleanup : ℕ → State → Result Error (Unit {0}) × State
  pub set-ok : (now : ℕ) (id : Str) (s : Session) (m : State) → (set now id s m).0 ≡ ok tt
  pub get-set :
      (now t seen : ℕ) (id : Str) (s : Session) (m : State)
      → s.expires_at ≢ 0
      → t ≤ s.expires_at
      → (get t seen id (set now id s m).1).0 ≡ ok (touch seen s)
  pub get-delete :
      (t seen : ℕ) (id : Str) (m : State)
      → (get t seen id (delete id m).1).0 ≡ err session_not_found
  pub get-live :
      (t seen : ℕ) (id : Str) (m : State) {s : Session}
      → (get t seen id m).0 ≡ ok s
      → t ≤ s.expires_at
