-- ===== src/Session/Store/Lookup.antt =====
-- What `Get` returns after `Set`, `Delete` and `Get`.
use peers_touch_go.Prelude.{
  ℕ, ◌+◌, ◌≤◌, ◌<◌, ◌≡◌, refl, ◌≢◌, ◌⊎◌, inl, inr, ◌∙◌, Str, ltb, Bool-cases, arith, if◌then◌else◌,
  str_eq_iff, str_eq_refl,
}
use peers_touch_go.Prelude.Result.{ok, err}
use peers_touch_go.Prelude.Dict
use peers_touch_go.Prelude.Dict.{Dict, get-put, get-remove}
use peers_touch_go.Session.{Session, session_not_found, session_expired, touch, SessionStore}
use peers_touch_go.Session.Store.{
  MemorySessionStore, with_expiry, set, delete, Found, missing, stale, live, judge, find, finish,
  get, cleanup,
}

-- When a session ends that is set at `now`: at its own expiry, or after the ttl where it has none.
abbrev pub Ends : ℕ → ℕ → Session → ℕ → Type 0
Ends now ttl s end =
    (s.expires_at ≢ 0 × (end ≡ s.expires_at)) ⊎ ((s.expires_at ≡ 0) × (end ≡ now + ttl))

Ends-with_expiry :
    (now ttl end : ℕ) (s : Session)
    → Ends now ttl s end
    → with_expiry now ttl s ≡ record s { expires_at = end }
Ends-with_expiry now ttl end s (inl (n, e)) = rw e (ground arith)
Ends-with_expiry now ttl end s (inr (z, e)) = rw e (ground arith)

get-put_expiring :
    (now t seen : ℕ) (id : Str) (s : Session) (m : MemorySessionStore)
    → (get t seen id (set now id s m)).0 ≡ (
        if ltb (with_expiry now m.ttl s).expires_at t
        then err session_expired
        else ok (record (with_expiry now m.ttl s) { last_seen = seen }))
unfolding get find finish set
get-put_expiring now t seen id s m =
    ground (arith, get-put id id (with_expiry now m.ttl s) m.sessions, str_eq_refl id)

-- A session that is set ends at its expiry where it has one, and else when the ttl of the store has passed
-- since. Up to and at that time `Get` of the id gives it with this time as its expiry, last seen at the
-- reading of `Touch`, and else as it was set; after that time it is refused as expired.
pub get-set :
    (now t seen end : ℕ) (id : Str) (s : Session) (m : MemorySessionStore)
    → Ends now m.ttl s end
    → ((t ≤ end)
        × ((get t seen id (set now id s m)).0
            ≡ ok (record s { expires_at = end; last_seen = seen })))
      ⊎ ((end < t) × ((get t seen id (set now id s m)).0 ≡ err session_expired))
get-set now t seen end id s m e =
    let w = Ends-with_expiry now m.ttl end s e in
    let g = get-put_expiring now t seen id s m in
    elim (Bool-cases (ltb end t)) [
      | inl y ↦ inr (ground arith, g ∙ rw w (rw y refl))
      | inr n ↦ inl (ground arith, g ∙ rw w (rw n refl))
    ]

pub get-set_kept :
    (now t seen : ℕ) (id : Str) (s : Session) (m : MemorySessionStore)
    → s.expires_at ≢ 0
    → t ≤ s.expires_at
    → (get t seen id (set now id s m)).0 ≡ ok (touch seen s)
get-set_kept now t seen id s m h k = ground (arith, get-put_expiring now t seen id s m)

-- `Set` under one id does not change what `Get` of another returns.
pub get-set_ne :
    (now t seen : ℕ) (id other : Str) (s : Session) (m : MemorySessionStore)
    → id ≢ other
    → (get t seen other (set now id s m)).0 ≡ (get t seen other m).0
unfolding get find finish set
get-set_ne now t seen id other s m h =
    ground (arith, get-put id other (with_expiry now m.ttl s) m.sessions, str_eq_iff id other)

pub get-delete :
    (t seen : ℕ) (id : Str) (m : MemorySessionStore)
    → (get t seen id (delete id m)).0 ≡ err session_not_found
unfolding get find finish delete
get-delete t seen id m = ground (arith, get-remove id id m.sessions, str_eq_refl id)

pub get-live :
    (t seen : ℕ) (id : Str) (m : MemorySessionStore) {s : Session}
    → (get t seen id m).0 ≡ ok s
    → t ≤ s.expires_at
unfolding get find finish
get-live t seen id m h = ground arith

-- Once `Get` has refused a session as expired, the next `Get` of its id, at any time, finds no
-- session.
pub get_expired_once :
    (now seen t seen' : ℕ) (id : Str) (m : MemorySessionStore)
    → (get now seen id m).0 ≡ err session_expired
    → (get t seen' id (get now seen id m).1).0 ≡ err session_not_found
unfolding get find finish delete
get_expired_once now seen t seen' id m h =
    ground (arith, get-remove id id m.sessions, str_eq_refl id)

sessions-finish_ne :
    (seen : ℕ) (id other : Str) (f : Found) (m : MemorySessionStore)
    → id ≢ other
    → Dict.get other (finish seen id f m).1.sessions ≡ Dict.get other m.sessions
unfolding finish delete
sessions-finish_ne seen id other missing m h = refl
sessions-finish_ne seen id other stale m h =
    ground (arith, get-remove id other m.sessions, str_eq_iff id other)
sessions-finish_ne seen id other (live s) m h =
    ground (arith, get-put id other (touch seen s) m.sessions, str_eq_iff id other)

result-finish :
    (seen : ℕ) (id : Str) (f : Found) (m n : MemorySessionStore)
    → (finish seen id f m).0 ≡ (finish seen id f n).0
unfolding finish
result-finish seen id missing m n = refl
result-finish seen id stale m n = refl
result-finish seen id (live s) m n = refl

-- `Get` of one id, whatever it returns, does not change what `Get` of another returns.
pub get-get_ne :
    (now seen t seen' : ℕ) (id other : Str) (m : MemorySessionStore)
    → id ≢ other
    → (get t seen' other (get now seen id m).1).0 ≡ (get t seen' other m).0
unfolding get find
get-get_ne now seen t seen' id other m h =
    rw (sessions-finish_ne seen id other (judge now (Dict.get id m.sessions)) m h)
      (result-finish _ _ _ _ _)

-- The interface that the manager uses, filled by the in-memory store.
unfoldable pub memory_session_store : SessionStore
unfolding set get delete cleanup
memory_session_store = record {
  State = MemorySessionStore;
  set = λ now id s m. (ok tt, set now id s m);
  get = get;
  delete = λ id m. (ok tt, delete id m);
  cleanup = λ now m. (ok tt, cleanup now m);
  set-ok = λ now id s m. refl;
  get-set = get-set_kept;
  get-delete = get-delete;
  get-live = get-live;
}
