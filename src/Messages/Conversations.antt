-- ===== src/Messages/Conversations.antt =====
-- station/frame/touch/message: the members of a conversation after some were added and removed.
use peers_touch_go.Prelude.{
  ℕ, Bool, true, false, List, [], ◌∷◌, Option, none, some, Str, str_eq, str_eq_refl, keep, any, ◌≡◌,
  arith, refl, sym, ap, ◌∙◌, Bool-cases, inl, inr, ◌==◌, ◌&&◌,
}
use peers_touch_go.Tables.{Laws, not}
use peers_touch_go.Tables.Kept.{
  keep-Inserted_other, keep-keep-not, keep-keep_implied, keep-keep_none, keep-none_cases,
  keep_never,
}
use peers_touch_go.Messages.{ConvMember, Error, no_database, Database, given_or_next}
use peers_touch_go.Messages.Services.{
  of_write, of_delete, is_member, and_then, add_member, remove_member, add_members, remove_members,
}

abbrev pub same_member : ConvMember → ConvMember → Bool
same_member a b = a.id == b.id

-- The rows of a conversation for one of some actors.
abbrev pub among : ℕ → List Str → ConvMember → Bool
among conv_pk dids m = m.conv_pk == conv_pk && any (str_eq m.did) dids

abbrev pub dids_of : List (Str × ℕ) → List Str
dids_of [] = []
dids_of ((did, i) ∷ l) = did ∷ dids_of l

module _ {S : Type 0} (d : Database S) (law : Laws d.members same_member) where
  of_write-none : (r : Bool × S) (t : S) → of_write r ≡ (none, t) → (r.0 ≡ true) × (r.1 ≡ t)
  of_write-none (true, s) t h = ground arith
  of_write-none (false, s) t h = absurd (ground arith)

  of_delete-none :
      (r : Option ℕ × S) (t : S) → of_delete r ≡ (none, t) → (n : ℕ) × (r.0 ≡ some n) × (r.1 ≡ t)
  of_delete-none (some n, s) t h = (n, refl, ground arith)
  of_delete-none (none, s) t h = absurd (ground arith)

  and_then-none :
      (r : Option Error × S) (next : S → Option Error × S) (u : S)
      → and_then d r next ≡ (none, u)
      → (t : S) × (r ≡ (none, t)) × (next t ≡ (none, u))
  and_then-none (none, t) next u h = (t, refl, h)
  and_then-none (some e, t) next u h = absurd (ground arith)

  add_member-keep :
      (pk : ℕ) (did role : Str) (i : ℕ) (s t : S) (p : ConvMember → Bool)
      → add_member d pk did role i s ≡ (none, t)
      → p (record { id = given_or_next i 0; conv_pk = pk; did = did; role = role }) ≡ false
      → keep p (law.rows t) ≡ keep p (law.rows s)
  unfolding add_member
  add_member-keep pk did role i s t p h f = elim (Bool-cases (d.connected s)) [
    | inl y ↦
        let m : ConvMember = record {
          id = given_or_next i 0;
          conv_pk = pk;
          did = did;
          role = role;
        } in
        let (w, z) = of_write-none (d.members.create m s) t (rw y at h) in
        rw (← z) (keep-Inserted_other p m _ _ (law.create-Inserted m s w) f)
    | inr n ↦
        absurd (let z : Path (Option Error × S) (some no_database, s) (none, t) = rw n at h in cc)
  ]

  remove_member-rows :
      (pk : ℕ) (did : Str) (s t : S)
      → remove_member d pk did s ≡ (none, t)
      → law.rows t ≡ keep (λ m. not (is_member pk did m)) (law.rows s)
  unfolding remove_member
  remove_member-rows pk did s t h = elim (Bool-cases (d.connected s)) [
    | inl y ↦
        let (n, w, z) = of_delete-none (d.members.delete (is_member pk did) s) t (rw y at h) in
        rw (← z) (law.delete-deleted (is_member pk did) s n w).1
    | inr n ↦
        absurd (let z : Path (Option Error × S) (some no_database, s) (none, t) = rw n at h in cc)
  ]

  beside-among :
      (pk : ℕ) (did : Str) (l : List Str) (m : ConvMember)
      → not (among pk (did ∷ l) m) ≡ true
      → (not (is_member pk did m) ≡ true) × (not (among pk l m) ≡ true)
  unfolding any
  beside-among pk did l m h = ground arith

  not_kept :
      (p q : ConvMember → Bool)
      → ((m : ConvMember) → p m ≡ true → q m ≡ true)
      → (m : ConvMember) → q m ≡ false
      → p m ≡ false
  not_kept p q f m h = ground (arith, f m)

  new_row-among :
      (pk : ℕ) (did role : Str) (i : ℕ) (l : List Str)
      → not (among pk (did ∷ l) (record { id = i; conv_pk = pk; did = did; role = role })) ≡ false
  unfolding any
  new_row-among pk did role i l = ground (arith, str_eq_refl did)

  add_members-beside :
      (pk : ℕ) (role : Str) (l : List (Str × ℕ)) (s t : S) (p : ConvMember → Bool)
      → ((m : ConvMember) → p m ≡ true → not (among pk (dids_of l) m) ≡ true)
      → add_members d pk role l s ≡ (none, t)
      → keep p (law.rows t) ≡ keep p (law.rows s)
  unfolding add_members any
  add_members-beside pk role [] s t p f h =
      ap (λ (r : Option Error × S). keep p (law.rows r.1)) (sym h)
  add_members-beside pk role ((did, i) ∷ l) s t p f h =
      let (u, a, b) = and_then-none _ _ t h in
      let r : ConvMember = record {
        id = given_or_next i 0;
        conv_pk = pk;
        did = did;
        role = role;
      } in
      add_members-beside pk role l u t p (λ m q. (beside-among pk did (dids_of l) m (f m q)).1) b
      ∙ add_member-keep pk did role i s u p a (
          not_kept p (λ m. not (among pk (did ∷ dids_of l) m)) f r
            (new_row-among pk did role (given_or_next i 0) (dids_of l)))

  remove_members-beside :
      (pk : ℕ) (l : List Str) (s t : S) (p : ConvMember → Bool)
      → ((m : ConvMember) → p m ≡ true → not (among pk l m) ≡ true)
      → remove_members d pk l s ≡ (none, t)
      → keep p (law.rows t) ≡ keep p (law.rows s)
  unfolding remove_members any
  remove_members-beside pk [] s t p f h =
      ap (λ (r : Option Error × S). keep p (law.rows r.1)) (sym h)
  remove_members-beside pk (did ∷ l) s t p f h =
      let (u, a, b) = and_then-none _ _ t h in
      remove_members-beside pk l u t p (λ m q. (beside-among pk did l m (f m q)).1) b
      ∙ (rw (remove_member-rows pk did s u a) (
          keep-keep_implied p (λ m. not (is_member pk did m)) (law.rows s)
            (λ m q. (beside-among pk did l m (f m q)).0)))

  -- Removing leaves nothing where there was nothing.
  remove_members-nothing :
      (pk : ℕ) (l : List Str) (s t : S) (p : ConvMember → Bool)
      → remove_members d pk l s ≡ (none, t)
      → keep p (law.rows s) ≡ []
      → keep p (law.rows t) ≡ []
  unfolding remove_members
  remove_members-nothing pk [] s t p h e =
      ap (λ (r : Option Error × S). keep p (law.rows r.1)) (sym h) ∙ e
  remove_members-nothing pk (did ∷ l) s t p h e =
      let (u, a, b) = and_then-none _ _ t h in
      remove_members-nothing pk l u t p b
        (rw (remove_member-rows pk did s u a) (keep-keep_none p _ (law.rows s) e))

  remove_members-none :
      (pk : ℕ) (l : List Str) (s t : S)
      → remove_members d pk l s ≡ (none, t)
      → keep (among pk l) (law.rows t) ≡ []
  unfolding remove_members any
  remove_members-none pk [] s t h = keep_never (among pk []) (law.rows t) (λ m. ground arith)
  remove_members-none pk (did ∷ l) s t h =
      let (u, a, b) = and_then-none _ _ t h in
      keep-none_cases (among pk (did ∷ l)) (is_member pk did) (among pk l) (law.rows t)
        (λ m x y. ground arith)
        (remove_members-nothing pk l u t (is_member pk did) b
          (rw (remove_member-rows pk did s u a) (keep-keep-not (is_member pk did) (law.rows s))))
        (remove_members-none pk l u t b)

  -- Where members were added to a conversation and then removed, each call without an error, none of them
  -- is left in it, not even one that was there before, and all other rows of members are as before.
  pub remove_members-add_members :
      (pk : ℕ) (role : Str) (l : List (Str × ℕ)) (s t u : S)
      → add_members d pk role l s ≡ (none, t)
      → remove_members d pk (dids_of l) t ≡ (none, u)
      → (keep (among pk (dids_of l)) (law.rows u) ≡ [])
        × (keep (λ m. not (among pk (dids_of l) m)) (law.rows u)
            ≡ keep (λ m. not (among pk (dids_of l) m)) (law.rows s))
  remove_members-add_members pk role l s t u h k =
      let p = λ (m : ConvMember). not (among pk (dids_of l) m) in
      (
        remove_members-none pk (dids_of l) t u k,
        remove_members-beside pk (dids_of l) t u p (λ m q. q) k
            ∙ add_members-beside pk role l s t p (λ m q. q) h,
      )
