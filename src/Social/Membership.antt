-- ===== src/Social/Membership.antt =====
-- What joining and leaving a collection do to its membership, whatever the listeners return.
use mathlib.Core.List.{map, Mem, mem-cons_self, mem-cons_of_mem}
use peers_touch_go.Prelude.{
  ℕ, ◌≡◌, refl, Bool, true, false, List, [], ◌∷◌, ◌++◌, append-nil, Option, none, some, Str, arith,
  if◌then◌else◌, keep, any,
}
use peers_touch_go.Social.{
  Collections, Members, notify, unchanged, add_member, differs, remove_member,
}

module _ (c : Collections) {L : Type 0} (identity : L → ℕ) where
  open c use {Item, Error, iri, as_iri, items_equal, contains, append}

  abbrev pub is_member : Str → Members c L → Bool
  is_member actor f = contains f.items (iri actor)

  any-append :
      (p : Item → Bool) (xs ys : List Item)
      → any p (xs ++ ys) ≡ (if any p xs then true else any p ys)
  unfolding any
  any-append p [] ys = refl
  any-append p (x ∷ xs) ys = ground (arith, any-append p xs ys)

  any-keep_none :
      (p q : Item → Bool) (xs : List Item)
      → ((x : Item) → p x ≡ true → q x ≡ false)
      → any p (keep q xs) ≡ false
  unfolding any keep
  any-keep_none p q [] h = refl
  any-keep_none p q (x ∷ xs) h = ground (arith, h x, any-keep_none p q xs h)

  any-keep_all :
      (p q : Item → Bool) (xs : List Item)
      → ((x : Item) → p x ≡ true → q x ≡ true)
      → any p (keep q xs) ≡ any p xs
  unfolding any keep
  any-keep_all p q [] h = refl
  any-keep_all p q (x ∷ xs) h = ground (arith, h x, any-keep_all p q xs h)

  keep-append : (q : Item → Bool) (xs ys : List Item) → keep q (xs ++ ys) ≡ keep q xs ++ keep q ys
  unfolding keep
  keep-append q [] ys = refl
  keep-append q (x ∷ xs) ys = ground (arith, keep-append q xs ys)

  keep_of_none :
      (p q : Item → Bool) (xs : List Item)
      → ((x : Item) → p x ≡ false → q x ≡ true)
      → any p xs ≡ false
      → keep q xs ≡ xs
  unfolding any keep
  keep_of_none p q [] h n = refl
  keep_of_none p q (x ∷ xs) h n = ground (arith, h x, keep_of_none p q xs h)

  -- Joining puts the actor at the end if it is not a member, and changes nothing else.
  pub items-add_member :
      (call : Str → L → Option Error) (actor : Str) (f : Members c L)
      → (add_member c identity call actor f).after.items
        ≡ (if is_member actor f then f.items else f.items ++ iri actor ∷ [])
  unfolding add_member
  items-add_member call actor f = ground (arith, c.append-new f.items (iri actor))

  -- After joining, the actor is a member, also where a listener failed.
  pub add_member-is_member :
      (call : Str → L → Option Error) (actor : Str) (f : Members c L)
      → is_member actor (add_member c identity call actor f).after ≡ true
  unfolding any
  add_member-is_member call actor f = ground (
    arith,
    items-add_member call actor f,
    c.contains-any (f.items ++ iri actor ∷ []) (iri actor),
    any-append (λ y. items_equal y (iri actor)) f.items (iri actor ∷ []),
    c.items_equal_refl actor,
  )

  -- Joining twice is joining once: the second call changes nothing, calls no listener and returns no
  -- error, also where a listener failed in the first.
  pub add_member_again :
      (call : Str → L → Option Error) (actor : Str) (f : Members c L)
      → let f' = (add_member c identity call actor f).after in
        add_member c identity call actor f' ≡ unchanged c identity f'
  unfolding add_member
  add_member_again call actor f = ground (arith, add_member-is_member call actor f)

  items-remove_member :
      (call : Str → L → Option Error) (actor : Str) (f : Members c L)
      → (remove_member c identity call actor f).after.items
        ≡ (if is_member actor f then keep (differs c identity (iri actor)) f.items else f.items)
  unfolding remove_member
  items-remove_member call actor f = ground arith

  -- After leaving the actor is no member, also where a listener failed.
  pub remove_member-is_member :
      (call : Str → L → Option Error) (actor : Str) (f : Members c L)
      → is_member actor (remove_member c identity call actor f).after ≡ false
  remove_member-is_member call actor f =
      let q = differs c identity (iri actor) in
      ground (
        arith,
        items-remove_member call actor f,
        c.contains-any (keep q f.items) (iri actor),
        any-keep_none (λ y. items_equal y (iri actor)) q f.items (λ x h. ground arith),
      )

  -- Leaving takes no other member out: one that no item equals together with the leaving actor.
  pub remove_member-is_member_ne :
      (call : Str → L → Option Error) (actor other : Str) (f : Members c L)
      → ((x : Item) → items_equal x (iri other) ≡ true → items_equal x (iri actor) ≡ false)
      → is_member other (remove_member c identity call actor f).after ≡ is_member other f
  remove_member-is_member_ne call actor other f apart =
      let q = differs c identity (iri actor) in
      ground (
        arith,
        items-remove_member call actor f,
        c.contains-any (keep q f.items) (iri other),
        c.contains-any f.items (iri other),
        any-keep_all (λ y. items_equal y (iri other)) q f.items (λ x h. ground (arith, apart x h)),
      )

  -- Joining and leaving again gives back the items of a collection that the actor was not in.
  pub items-remove-add :
      (add remove : Str → L → Option Error) (actor : Str) (f : Members c L)
      → is_member actor f ≡ false
      → (remove_member c identity remove actor
          (add_member c identity add actor f).after).after.items
        ≡ f.items
  unfolding keep
  items-remove-add add remove actor f new =
      rw
        (
          items-remove_member remove actor (add_member c identity add actor f).after,
          add_member-is_member add actor f,
          items-add_member add actor f,
          new,
          keep-append (differs c identity (iri actor)) f.items (iri actor ∷ []),
          c.items_equal_refl actor,
          append-nil,
        )
        (keep_of_none (λ y. items_equal y (iri actor)) (differs c identity (iri actor)) f.items
          (λ x h. ground arith) (rw (c.contains-any f.items (iri actor)) at new))

  -- A listener that fails ends the loop with its error: the listeners called are those before it,
  -- which did not fail, and itself.
  pub notify-append :
      (call : L → Option Error) (before rest : List L) (l : L) (e : Error)
      → ((x : L) → Mem x before → call x ≡ none)
      → call l ≡ some e
      → notify c identity call (before ++ l ∷ rest)
        ≡ (some e, map identity before ++ identity l ∷ [])
  unfolding notify
  notify-append call [] rest l e quiet h = rw h
  notify-append call (b ∷ before) rest l e quiet h = ground (
    arith,
    quiet b mem-cons_self,
    notify-append call before rest l e (λ x m. quiet x (mem-cons_of_mem b m)) h,
  )
