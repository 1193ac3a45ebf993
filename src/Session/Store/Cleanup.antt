-- ===== src/Session/Store/Cleanup.antt =====
-- `Cleanup`, and what every operation keeps.
use peers_touch_go.Prelude.{
  ℕ, ◌≤◌, ◌<◌, ◌≡◌, ◌↔◌, inl, inr, Option-cases, Bool, true, false, List, [], ◌∷◌, some, Str, arith,
  ltb, Bool-cases, if◌then◌else◌,
}
use peers_touch_go.Prelude.Result.{ok}
use peers_touch_go.Prelude.Dict
use peers_touch_go.Prelude.Dict.{
  Distinct, get-put, get-remove, get-retain, put-Distinct, remove-Distinct, retain-Distinct,
}
use peers_touch_go.Session.{Session, is_expired, touch}
use peers_touch_go.Session.Store.{
  MemorySessionStore, new_memory_session_store, missing, stale, judge, with_expiry, set, delete,
  find, finish, get, cleanup,
}

-- The sessions that `Cleanup` keeps.
abbrev pub unexpired : ℕ → Session → Bool
unexpired now s = if ltb s.expires_at now then false else true

-- In a store with one session to an id, `Cleanup` is not seen by a `Get` that is not earlier: it
-- returns a session exactly where it would have returned that session without the cleanup.
pub get-cleanup :
    (now t seen : ℕ) (id : Str) (m : MemorySessionStore)
    → Distinct m.sessions
    → now ≤ t
    → (s : Session) → ((get t seen id (cleanup now m)).0 ≡ ok s) ↔ ((get t seen id m).0 ≡ ok s)
unfolding get find finish cleanup
get-cleanup now t seen id m d h s = (
  λ p. ground (arith, get-retain (unexpired now) id m.sessions d),
  λ p. ground (arith, get-retain (unexpired now) id m.sessions d),
)

-- No session that had expired is left after `Cleanup`, and every other one is.
pub find-cleanup :
    (now : ℕ) (id : Str) (m : MemorySessionStore)
    → Distinct m.sessions
    → find now id (cleanup now m) ≡ (elim (find now id m) [ stale ↦ missing | other ↦ other ])
unfolding find cleanup
find-cleanup now id m d = ground (arith, get-retain (unexpired now) id m.sessions d)

-- A call of the store with the clock readings that it makes.
pub data Call : Type 0 where
  sets : ℕ → Str → Session → Call
  gets : ℕ → ℕ → Str → Call
  deletes : Str → Call
  cleanups : ℕ → Call

unfoldable pub step : Call → MemorySessionStore → MemorySessionStore
unfolding set get delete cleanup
step (sets now id s) m = set now id s m
step (gets now seen id) m = (get now seen id m).1
step (deletes id) m = delete id m
step (cleanups now) m = cleanup now m

unfoldable pub run : List Call → MemorySessionStore → MemorySessionStore
unfolding step
run [] m = m
run (c ∷ cs) m = run cs (step c m)

-- Every session has an expiry, and every id one session.
pub record IsValid (m : MemorySessionStore) : Type 0 where
  pub distinct : Distinct m.sessions
  pub ttl_set : 0 < m.ttl
  pub expiring : (id : Str) (s : Session) → Dict.get id m.sessions ≡ some s → 0 < s.expires_at

delete-IsValid : (id : Str) (m : MemorySessionStore) → IsValid m → IsValid (delete id m)
unfolding delete
delete-IsValid id m v = record {
  distinct = remove-Distinct id m.sessions v.distinct;
  ttl_set = v.ttl_set;
  expiring = λ j s h. ground (arith, get-remove id j m.sessions, v.expiring j s);
}

put-IsValid :
    (id : Str) (s : Session) (m : MemorySessionStore)
    → IsValid m
    → 0 < s.expires_at
    → IsValid (record m { sessions = Dict.put id s m.sessions })
put-IsValid id s m v e = record {
  distinct = put-Distinct id s m.sessions v.distinct;
  ttl_set = v.ttl_set;
  expiring = λ j x h. ground (arith, get-put id j s m.sessions, v.expiring j x);
}

get-IsValid :
    (now seen : ℕ) (id : Str) (m : MemorySessionStore) → IsValid m → IsValid (get now seen id m).1
unfolding get find finish
get-IsValid now seen id m v = elim (Option-cases (Dict.get id m.sessions)) [
  | inl p ↦ rw (p, judge, finish) v
  | inr (s, p) ↦ elim (Bool-cases (is_expired now s)) [
    | inl late ↦ rw (p, judge, late, finish) (delete-IsValid id m v)
    | inr fresh ↦
        rw (p, judge, fresh, finish) (put-IsValid id (touch seen s) m v (v.expiring id s p))
  ]
]

-- Every operation keeps a store valid: one session to an id, each with an expiry.
pub step-IsValid : (c : Call) (m : MemorySessionStore) → IsValid m → IsValid (step c m)
unfolding step set cleanup
step-IsValid (sets now id s) m v =
    put-IsValid id (with_expiry now m.ttl s) m v (let w = v.ttl_set in ground arith)
step-IsValid (gets now seen id) m v = get-IsValid now seen id m v
step-IsValid (deletes id) m v = delete-IsValid id m v
step-IsValid (cleanups now) m v = record {
  distinct = retain-Distinct (unexpired now) m.sessions v.distinct;
  ttl_set = v.ttl_set;
  expiring =
      λ j s h. ground (arith, get-retain (unexpired now) j m.sessions v.distinct, v.expiring j s);
}

run-IsValid : (cs : List Call) (m : MemorySessionStore) → IsValid m → IsValid (run cs m)
unfolding run
run-IsValid [] m v = v
run-IsValid (c ∷ cs) m v = run-IsValid cs (step c m) (step-IsValid c m v)

-- After any calls on a new store, whatever its ttl, every id has one session, the store's ttl is not
-- 0, and every session in the store has an expiry that is set.
pub run-new-IsValid : (ttl : ℕ) (cs : List Call) → IsValid (run cs (new_memory_session_store ttl))
unfolding new_memory_session_store Dict.get
run-new-IsValid ttl cs =
    run-IsValid cs (new_memory_session_store ttl)
      (record { distinct = tt; ttl_set = ground arith; expiring = λ j s h. cc })
