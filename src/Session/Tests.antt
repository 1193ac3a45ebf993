-- ===== src/Session/Tests.antt =====
-- Two sessions in a small store.
use mathlib.Core.Bool.{false≢true}
use peers_touch_go.Prelude.{
  ℕ, ◌≤◌, ◌<◌, ◌⊎◌, inr, ◌≡◌, ◌≢◌, ◌↔◌, refl, [], ◌∷◌, Str, codes, str_eq, str_eq_iff, arith,
}
use peers_touch_go.Prelude.Result.{ok, err}
use peers_touch_go.Prelude.Dict
use peers_touch_go.Session.{Actor, Session, session_not_found, session_expired, touch}
use peers_touch_go.Session.Store.{
  MemorySessionStore, new_memory_session_store, set, find, finish, get, cleanup, stale,
}
use peers_touch_go.Session.Store.Lookup.{get-set, memory_session_store}
use peers_touch_go.Session.Store.Cleanup.{
  get-cleanup, sets, gets, cleanups, run, IsValid, run-new-IsValid,
}
use peers_touch_go.Session.Store.Race.{get-set_race}
use peers_touch_go.Session.Manager.{
  SessionManager, create_session, validate_session, validate-create,
}

abbrev session : Str → ℕ → Session
session id expires_at = record {
  id = id;
  user_id = 7;
  email = codes "ada@example.org";
  created_at = 10;
  expires_at = expires_at;
  last_seen = 10;
  ip_address = codes "127.0.0.1";
  user_agent = codes "test";
}

abbrev two_sessions : MemorySessionStore
two_sessions = record {
  sessions = (codes "old", session (codes "old") 20) ∷ (codes "new", session (codes "new") 90) ∷ [];
  ttl = 50;
}

two_sessions-Distinct : Dict.Distinct two_sessions.sessions
unfolding Dict.get str_eq
two_sessions-Distinct = (refl, (refl, tt))

-- A session without an expiry gets the store's ttl.
get-set_example :
    ((60 ≤ 60)
      × ((get 60 61 (codes "x") (set 10 (codes "x") (session (codes "x") 0) two_sessions)).0
          ≡ ok (record (session (codes "x") 60) { last_seen = 61 })))
    ⊎ ((60 < 60)
        × ((get 60 61 (codes "x") (set 10 (codes "x") (session (codes "x") 0) two_sessions)).0
            ≡ err session_expired))
get-set_example =
    get-set 10 60 61 60 (codes "x") (session (codes "x") 0) two_sessions (inr (refl, refl))

-- At its end it is found, and one moment later it is not.
found_at_end :
    (get 60 61 (codes "x") (set 10 (codes "x") (session (codes "x") 0) two_sessions)).0
    ≡ ok (record (session (codes "x") 60) { last_seen = 61 })
unfolding get find finish set str_eq
found_at_end = refl

old_is_expired : (get 30 30 (codes "old") two_sessions).0 ≡ err session_expired
unfolding get find finish str_eq
old_is_expired = refl

old_is_not_new : codes "old" ≢ codes "new"
unfolding str_eq
old_is_not_new e = false≢true ((str_eq_iff (codes "old") (codes "new")).1 e)

get-cleanup_example :
    ((get 31 31 (codes "new") (cleanup 30 two_sessions)).0
      ≡ ok (touch 31 (session (codes "new") 90)))
    ↔ ((get 31 31 (codes "new") two_sessions).0 ≡ ok (touch 31 (session (codes "new") 90)))
get-cleanup_example =
    get-cleanup 30 31 31 (codes "new") two_sessions two_sessions-Distinct (omega arith)
      (touch 31 (session (codes "new") 90))

run-new-IsValid_example : IsValid (
    run
      (sets 10 (codes "x") (session (codes "x") 0) ∷ gets 70 70 (codes "x") ∷ cleanups 80 ∷ [])
      (new_memory_session_store 50))
run-new-IsValid_example =
    run-new-IsValid 50
      (sets 10 (codes "x") (session (codes "x") 0) ∷ gets 70 70 (codes "x") ∷ cleanups 80 ∷ [])

old_is_stale : find 30 (codes "old") two_sessions ≡ stale
unfolding find str_eq
old_is_stale = refl

-- The session set in between is good until 99.
get-set_race_example :
    (get 40 40
      (codes "old")
      (finish 30
        (codes "old")
        (find 30 (codes "old") two_sessions)
        (set 31 (codes "old") (session (codes "old") 99) two_sessions)).1).0
    ≡ err session_not_found
get-set_race_example =
    get-set_race 30 31 40 30 40 (codes "old") (session (codes "old") 99) two_sessions old_is_stale

abbrev ada : Actor
ada = record {
  id = 7;
  name = codes "ada";
  email = codes "ada@example.org";
  password_hash = codes "hash";
}

abbrev manager : SessionManager memory_session_store
unfolding memory_session_store
manager = record { state = two_sessions; ttl = 50 }

validate-create_example :
    (validate_session memory_session_store 60 60 60
      (codes "s")
      (create_session memory_session_store 10 10 10 10 ada
        (codes "s")
        (codes "ip")
        (codes "agent")
        manager).1).0
    ≡ ok (record {
      id = codes "s";
      user_id = 7;
      email = codes "ada@example.org";
      created_at = 10;
      expires_at = 60;
      last_seen = 60;
      ip_address = codes "ip";
      user_agent = codes "agent";
    })
unfolding manager
validate-create_example =
    validate-create memory_session_store 10 10 10 10 60 60 60 ada (codes "s") (codes "ip")
      (codes "agent") manager (omega arith) (omega arith) (omega arith)

new_is_valid :
    (validate_session memory_session_store 60 60 61 (codes "new") manager).0
    ≡ ok (touch 60 (session (codes "new") 90))
unfolding validate_session get find finish memory_session_store str_eq
new_is_valid = refl
