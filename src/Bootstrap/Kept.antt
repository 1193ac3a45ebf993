-- ===== src/Bootstrap/Kept.antt =====
-- station/frame/core/plugin/native/subserver/bootstrap: what the tables hold after a connection was saved.
use mathlib.Core.Path.{subst}
use peers_touch_go.Prelude.{
  ℕ, Bool, true, false, List, [], ◌∷◌, Option, none, some, Str, str_eq_refl, keep, ◌≡◌, arith, refl,
  sym, ap, ◌∙◌, Bool-cases, inl, inr, ◌==◌,
}
use peers_touch_go.Tables.{Table, First, found, not_found, failed, Laws, Leaves, first_of, not}
use peers_touch_go.Tables.Kept.{
  keep-Inserted_other, keep-Inserted_alone, keep-keep-not, keep_again, first_of-replace,
  first_of-true,
}
use peers_touch_go.Bootstrap.{PeerInfo, ConnectionInfo, before_create_connection}
use peers_touch_go.Bootstrap.Connections.{
  Conn, Readings, Saved, saved, panicked, with_created, with_deleted, of_peer, replace_connection,
  with_peer, upsert_peer, has_peer_id, save_peer_info, peer_info_of, connection_info_of,
  save_conn_info,
}

before_create_connection_peer :
    (i : ℕ) (c : ConnectionInfo) → (before_create_connection i c).peer_id ≡ c.peer_id
unfolding before_create_connection
before_create_connection_peer i c = ground arith

abbrev pub same_peer_row : PeerInfo → PeerInfo → Bool
same_peer_row p q = p.id == q.id

abbrev pub same_connection_row : ConnectionInfo → ConnectionInfo → Bool
same_connection_row p q = p.id == q.id

module _ {S : Type 0} (connected : S → Bool) (peers : Table S PeerInfo)
    (connections : Table S ConnectionInfo) where
  with_created-saved :
      (r : Bool × S) (t : S)
      → with_created connected peers connections r ≡ (saved, t)
      → (r.0 ≡ true) × (r.1 ≡ t)
  with_created-saved (true, s) t h = ground arith
  with_created-saved (false, s) t h = absurd (ground arith)

module _ {S : Type 0} (connected : S → Bool) (peers : Table S PeerInfo)
    (connections : Table S ConnectionInfo) (law : Laws connections same_connection_row) where
  abbrev pub rows_of : Str → S → List ConnectionInfo
  rows_of id s = keep (of_peer id) (law.rows s)

  -- The rows of the peers other than `id`.
  abbrev pub rows_beside : Str → S → List ConnectionInfo
  rows_beside id s = keep (λ c. not (of_peer id c)) (law.rows s)

  abbrev Replaced : ConnectionInfo → S → S → Type 0
  Replaced c s t =
      (rows_of c.peer_id t ≡ c ∷ []) × (rows_beside c.peer_id t ≡ rows_beside c.peer_id s)

  created_after-Replaced :
      (c : ConnectionInfo) (s u t : S)
      → law.rows u ≡ keep (λ r. not (of_peer c.peer_id r)) (law.rows s)
      → with_created connected peers connections (connections.create c u) ≡ (saved, t)
      → Replaced c s t
  created_after-Replaced c s u t e h =
      let (y, z) = with_created-saved connected peers connections (connections.create c u) t h in
      let i = law.create-Inserted c u y in
      (
        rw (← z) (
            keep-Inserted_alone (of_peer c.peer_id) c _ _ i (str_eq_refl c.peer_id)
              (rw e (keep-keep-not _ _))),
        rw (← z) (
            keep-Inserted_other (λ r. not (of_peer c.peer_id r)) c _ _ i
              (rw (str_eq_refl c.peer_id) refl)
            ∙ rw e (keep_again _ _)),
      )

  deleted-Replaced :
      (c : ConnectionInfo) (s t : S) (n : Option ℕ) (u : S)
      → connections.delete (of_peer c.peer_id) s ≡ (n, u)
      → with_deleted connected peers connections c (n, u) ≡ (saved, t)
      → Replaced c s t
  deleted-Replaced c s t none u d h = absurd (ground arith)
  deleted-Replaced c s t (some n) u d h =
      created_after-Replaced c s u t
        (rw (ap (λ (r : Option ℕ × S). r.1) d) at
          (law.delete-deleted (of_peer c.peer_id) s n (ap (λ (r : Option ℕ × S). r.0) d)).1)
        h

  replace_connection-Replaced :
      (k : Readings) (c : ConnectionInfo) (s t : S)
      → replace_connection connected peers connections k c s ≡ (saved, t)
      → Replaced (before_create_connection k.connection_row_id c) s t
  unfolding replace_connection
  replace_connection-Replaced k c s t h =
      let c' = before_create_connection k.connection_row_id c in
      let e = before_create_connection_peer k.connection_row_id c in
      let d = connections.delete (of_peer c'.peer_id) s in
      deleted-Replaced c' s t d.0 d.1 refl (rw e h)

  module _ (beside : Leaves peers law.rows) where
    with_peer-Replaced :
        (k : Readings) (c : ConnectionInfo) (s t : S) (r : Bool × S)
        → law.rows r.1 ≡ law.rows s
        → with_peer connected peers connections k c r ≡ (saved, t)
        → Replaced (before_create_connection k.connection_row_id c) s t
    with_peer-Replaced k c s t (false, u) e h = absurd (ground arith)
    with_peer-Replaced k c s t (true, u) e h =
        let (f, g) = replace_connection-Replaced k c u t h in (f, rw (← e) g)

    upsert_peer-Replaced :
        (k : Readings) (p : PeerInfo) (c : ConnectionInfo) (s t : S) (f : First PeerInfo)
        → upsert_peer connected peers connections k p c s f ≡ (saved, t)
        → Replaced (before_create_connection k.connection_row_id c) s t
    upsert_peer-Replaced k p c s t not_found h =
        with_peer-Replaced k c s t _ (beside.create_leaves _ s) h
    upsert_peer-Replaced k p c s t failed h = absurd (ground arith)
    upsert_peer-Replaced k p c s t (found e) h =
        with_peer-Replaced k c s t _ (beside.save_leaves _ s) h

    -- Where a connection that came or went was saved, its row is the only one of its peer, whatever
    -- other connections to that peer there are, and the rows of the other peers are as before.
    pub save_conn_info-rows :
        (c : Conn) (is_active : Bool) (peer_now now : ℕ) (k : Readings) (s t : S)
        → save_conn_info connected peers connections c is_active peer_now now k s ≡ (saved, t)
        → (rows_of c.remote_peer t
            ≡ before_create_connection k.connection_row_id (connection_info_of c is_active now)
              ∷ [])
          × (rows_beside c.remote_peer t ≡ rows_beside c.remote_peer s)
    unfolding save_conn_info save_peer_info connection_info_of
    save_conn_info-rows c is_active peer_now now k s t h = elim (Bool-cases (connected s)) [
      | inl y ↦
          upsert_peer-Replaced k (peer_info_of c peer_now) (connection_info_of c is_active now) s t
            _ (rw y at h)
      | inr n ↦ absurd (let z : Path (Saved × S) (panicked, s) (saved, t) = rw n at h in cc)
    ]

module _ {S : Type 0} (connected : S → Bool) (peers : Table S PeerInfo)
    (connections : Table S ConnectionInfo) (law : Laws peers same_peer_row)
    (beside : Leaves connections law.rows) where
  with_created-peers :
      (c : ConnectionInfo) (u t : S)
      → with_created connected peers connections (connections.create c u) ≡ (saved, t)
      → law.rows t ≡ law.rows u
  with_created-peers c u t h =
      rw (← (with_created-saved connected peers connections (connections.create c u) t h).1)
        (beside.create_leaves c u)

  with_deleted-peers :
      (c : ConnectionInfo) (r : Option ℕ × S) (t : S)
      → with_deleted connected peers connections c r ≡ (saved, t)
      → law.rows t ≡ law.rows r.1
  with_deleted-peers c (none, u) t h = absurd (ground arith)
  with_deleted-peers c (some n, u) t h = with_created-peers c u t h

  with_peer-peers :
      (k : Readings) (c : ConnectionInfo) (r : Bool × S) (t : S)
      → with_peer connected peers connections k c r ≡ (saved, t)
      → (r.0 ≡ true) × (law.rows t ≡ law.rows r.1)
  unfolding replace_connection
  with_peer-peers k c (false, u) t h = absurd (ground arith)
  with_peer-peers k c (true, u) t h = (
    refl,
    with_deleted-peers _ (connections.delete (of_peer c.peer_id) u) t h ∙ beside.delete_leaves _ u,
  )

  saved-seen :
      (p : PeerInfo → Bool) (x y : PeerInfo) (s t : S)
      → p y ≡ true
      → (x.id == y.id) ≡ true
      → first_of p (law.rows s) ≡ found x
      → (peers.save y s).0 ≡ true
      → law.rows t ≡ law.rows (peers.save y s).1
      → first_of p (law.rows t) ≡ found y
  saved-seen p x y s t b i f w z =
      rw z (
        rw (law.save-saved y x p s f i w) (first_of-replace p same_peer_row y x (law.rows s) f i b))

  upsert_peer-seen :
      (k : Readings) (p : PeerInfo) (c : ConnectionInfo) (s t : S) (e : PeerInfo)
      (f : First PeerInfo)
      → peers.first (has_peer_id p.peer_id) s ≡ f
      → first_of (has_peer_id p.peer_id) (law.rows s) ≡ found e
      → upsert_peer connected peers connections k p c s f ≡ (saved, t)
      → first_of (has_peer_id p.peer_id) (law.rows t)
        ≡ found (record e { last_seen_at = k.first_now })
  upsert_peer-seen k p c s t e not_found d g h =
      absurd (let z = law.first-not_found (has_peer_id p.peer_id) s d in cc)
  upsert_peer-seen k p c s t e failed d g h = absurd (ground arith)
  upsert_peer-seen k p c s t e (found x) d g h =
      let f = law.first-found (has_peer_id p.peer_id) s x d in
      let q : x ≡ e = let z : found x ≡ found e = sym f ∙ g in cc in
      let y : PeerInfo = record x { last_seen_at = k.first_now } in
      let (w, z) = with_peer-peers k c (peers.save y s) t h in
      subst
        (λ (o : PeerInfo).
          first_of (has_peer_id p.peer_id) (law.rows t)
          ≡ found (record o { last_seen_at = k.first_now }))
        q
        (saved-seen (has_peer_id p.peer_id) x y s t
          (first_of-true (has_peer_id p.peer_id) x (law.rows s) f) (ground arith) f w z)

  -- Where a connection to or from a peer that has a row was saved, the row is the one before, with the
  -- time of the call as the one when the peer was last seen; the time when it was first seen stays.
  pub save_conn_info-seen :
      (c : Conn) (is_active : Bool) (peer_now now : ℕ) (k : Readings) (s t : S) (e : PeerInfo)
      → first_of (has_peer_id c.remote_peer) (law.rows s) ≡ found e
      → save_conn_info connected peers connections c is_active peer_now now k s ≡ (saved, t)
      → first_of (has_peer_id c.remote_peer) (law.rows t)
        ≡ found (record e { last_seen_at = k.first_now })
  unfolding save_conn_info save_peer_info peer_info_of
  save_conn_info-seen c is_active peer_now now k s t e g h = elim (Bool-cases (connected s)) [
    | inl y ↦
        upsert_peer-seen k (peer_info_of c peer_now) (connection_info_of c is_active now) s t e _
          refl g (rw y at h)
    | inr n ↦ absurd (let z : Path (Saved × S) (panicked, s) (saved, t) = rw n at h in cc)
  ]
