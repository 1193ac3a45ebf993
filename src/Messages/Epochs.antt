-- ===== src/Messages/Epochs.antt =====
-- station/frame/touch/message: the epoch of a conversation after its key was rotated.
use peers_touch_go.Prelude.{
  Bool, true, false, List, [], ◌∷◌, map, Option, none, some, Str, ◌≡◌, arith, refl, sym, ap, ◌∙◌,
  if◌then◌else◌, Bool-cases, inl, inr, ◌==◌,
}
use peers_touch_go.Prelude.Result.{Result, ok, err}
use peers_touch_go.Tables.{First, found, not_found, failed, first_of, Laws}
use peers_touch_go.Messages.{Conversation, Error, no_database, Database}
use peers_touch_go.Messages.Services.{
  of_first, of_write, of_conversation, next_epoch, get_conversation, key_rotate,
}

abbrev pub same_conversation : Conversation → Conversation → Bool
same_conversation a b = a.id == b.id

abbrev advance : Str → Conversation → Conversation
advance conv_id c = if of_conversation conv_id c then next_epoch c else c

first_of-advance :
    (conv_id : Str) (c : Conversation) (l : List Conversation)
    → first_of (of_conversation conv_id) l ≡ found c
    → first_of (of_conversation conv_id) (map (advance conv_id) l) ≡ found (next_epoch c)
first_of-advance conv_id c [] h = ground arith
first_of-advance conv_id c (x ∷ l) h = ground (arith, first_of-advance conv_id c l)

first_of-advance_none :
    (conv_id : Str) (l : List Conversation)
    → first_of (of_conversation conv_id) l ≡ not_found
    → map (advance conv_id) l ≡ l
first_of-advance_none conv_id [] h = refl
first_of-advance_none conv_id (x ∷ l) h = ground (arith, first_of-advance_none conv_id l)

module _ {S : Type 0} (d : Database S) (law : Laws d.conversations same_conversation) where
  of_write-done : (r : Bool × S) (t : S) → of_write r ≡ (none, t) → (r.0 ≡ true) × (r.1 ≡ t)
  of_write-done (true, s) t h = ground arith
  of_write-done (false, s) t h = absurd (ground arith)

  of_first-ok : (f : First Conversation) (c : Conversation) → of_first f ≡ ok c → f ≡ found c
  of_first-ok (found r) c h = ground arith
  of_first-ok not_found c h = absurd (ground arith)
  of_first-ok failed c h = absurd (ground arith)

  key_rotate-rows :
      (conv_id : Str) (s t : S)
      → key_rotate d conv_id s ≡ (none, t)
      → law.rows t ≡ map (advance conv_id) (law.rows s)
  unfolding key_rotate
  key_rotate-rows conv_id s t h = elim (Bool-cases (d.connected s)) [
    | inl y ↦
        let (w, z) =
          of_write-done (d.conversations.update (of_conversation conv_id) next_epoch s) t
            (rw y at h) in
        rw (← z) (law.update-updated (of_conversation conv_id) next_epoch s w)
    | inr n ↦
        absurd (let z : Path (Option Error × S) (some no_database, s) (none, t) = rw n at h in cc)
  ]

  get_conversation-found :
      (conv_id : Str) (s : S) (c : Conversation)
      → get_conversation d conv_id s ≡ ok c
      → first_of (of_conversation conv_id) (law.rows s) ≡ found c
  unfolding get_conversation
  get_conversation-found conv_id s c h = elim (Bool-cases (d.connected s)) [
    | inl y ↦
        law.first-found (of_conversation conv_id) s c
          (of_first-ok (d.conversations.first (of_conversation conv_id) s) c (rw y at h))
    | inr n ↦
        absurd (let z : Path (Result Error Conversation) (err no_database) (ok c) = rw n at h in cc)
  ]

  -- Where the key of a conversation was rotated without an error, a later Get of it that gives a row gives
  -- the one that was there with the next epoch.
  pub get_conversation-key_rotate :
      (conv_id : Str) (s t : S) (c e : Conversation)
      → get_conversation d conv_id s ≡ ok c
      → key_rotate d conv_id s ≡ (none, t)
      → get_conversation d conv_id t ≡ ok e
      → e ≡ next_epoch c
  get_conversation-key_rotate conv_id s t c e g h k =
      let f : found (next_epoch c) ≡ found e =
        sym (first_of-advance conv_id c (law.rows s) (get_conversation-found conv_id s c g))
        ∙ (ap (first_of (of_conversation conv_id)) (sym (key_rotate-rows conv_id s t h))
            ∙ get_conversation-found conv_id t e k) in
      cc

  -- Where no conversation has the id, rotating its key without an error changes no row.
  pub key_rotate_missing :
      (conv_id : Str) (s t : S)
      → first_of (of_conversation conv_id) (law.rows s) ≡ not_found
      → key_rotate d conv_id s ≡ (none, t)
      → law.rows t ≡ law.rows s
  key_rotate_missing conv_id s t f h =
      key_rotate-rows conv_id s t h ∙ first_of-advance_none conv_id (law.rows s) f
