-- ===== src/AiBox/Kept.antt =====
-- station/app/subserver/ai-box/service/provider_service.go: what is there after a provider was created,
-- updated or deleted.
use peers_touch_go.Prelude.{
  ℕ, zero, suc, Bool, true, false, Option, none, some, Str, str_eq, str_eq_refl, keep, ◌≡◌, ◌≢◌,
  arith, refl, sym, ap, ◌∙◌, ◌&&◌,
}
use peers_touch_go.Prelude.Result.{ok}
use peers_touch_go.Tables.{Table, First, found, not_found, failed, first_of, not, Laws}
use peers_touch_go.Tables.Kept.{first_of-Inserted, keep-keep-not, keep_again, first_of-keep_none}
use peers_touch_go.AiBox.{Provider, AiProvider, Json, convert_to_proto}
use peers_touch_go.AiBox.Service.{
  CreateProviderRequest, Readings, get_user_id, is_provider, new_provider, generate_provider_id,
  create_provider, with_created, found_provider, answered, with_saved, with_deleted,
  delete_provider, get_provider,
}

abbrev pub same_provider : Provider → Provider → Bool
same_provider p q = str_eq p.id q.id && str_eq p.peers_user_id q.peers_user_id

abbrev pub mine : Str → Provider → Bool
mine id = is_provider id get_user_id

mine_self : (p : Provider) → p.peers_user_id ≡ get_user_id → mine p.id p ≡ true
mine_self p h = rw h (rw (str_eq_refl p.id) (str_eq_refl get_user_id))

pub found-injective : (p q : Provider) → found p ≡ found q → p ≡ q
found-injective p q h = cc

module _ {S : Type 0} (j : Json) (t : Table S Provider) (law : Laws t same_provider) where
  found_provider-ok :
      (f : First Provider) (p : Provider) → found_provider j t f ≡ ok p → f ≡ found p
  found_provider-ok (found q) p h = ground arith
  found_provider-ok not_found p h = absurd (ground arith)
  found_provider-ok failed p h = absurd (ground arith)

  read-ok :
      (f : First Provider) (v : AiProvider)
      → answered j t f ≡ ok v
      → (p : Provider) × (f ≡ found p) × (convert_to_proto j p ≡ v)
  read-ok (found p) v h = (p, refl, ground arith)
  read-ok not_found v h = absurd (ground arith)
  read-ok failed v h = absurd (ground arith)

  get_provider-found :
      (id : Str) (s : S) (v : AiProvider)
      → get_provider j t id s ≡ ok v
      → (p : Provider) × (first_of (mine id) (law.rows s) ≡ found p) × (convert_to_proto j p ≡ v)
  unfolding get_provider
  get_provider-found id s v h =
      let (p, e, f) = read-ok (t.first (mine id) s) v h in (p, law.first-found (mine id) s p e, f)

  with_created-ok :
      (p : Provider) (r : Bool × S) (v : AiProvider) (u : S)
      → with_created j t p r ≡ (ok v, u)
      → (r.0 ≡ true) × (convert_to_proto j p ≡ v) × (r.1 ≡ u)
  with_created-ok p (true, s) v u h = ground arith
  with_created-ok p (false, s) v u h = absurd (ground arith)

  -- Where no provider of the user has the id that a creation makes, and it succeeds, a Get of this id that
  -- succeeds gives what the creation gave.
  pub get-create :
      (q : CreateProviderRequest) (k : Readings) (s u : S) (v w : AiProvider)
      → first_of (mine (generate_provider_id k.nanos)) (law.rows s) ≡ not_found
      → create_provider j t q k s ≡ (ok v, u)
      → get_provider j t (generate_provider_id k.nanos) u ≡ ok w
      → w ≡ v
  unfolding create_provider
  get-create q k s u v w f h g =
      let p = new_provider get_user_id q k in
      let id = generate_provider_id k.nanos in
      let (y, e, z) = with_created-ok p (t.create p s) v u h in
      let (o, a, b) = get_provider-found id u w g in
      let c : first_of (mine id) (law.rows u) ≡ found p =
        rw (← z)
          (first_of-Inserted (mine id) p _ _ (law.create-Inserted p s y) (mine_self p refl) f) in
      sym b ∙ (ap (convert_to_proto j) (found-injective o p (sym a ∙ c)) ∙ e)

  pub with_saved-ok :
      (p : Provider) (r : Bool × S) (v : AiProvider) (u : S)
      → with_saved j t p r ≡ (ok v, u)
      → (r.0 ≡ true) × (convert_to_proto j p ≡ v) × (r.1 ≡ u)
  with_saved-ok p (true, s) v u h = ground arith
  with_saved-ok p (false, s) v u h = absurd (ground arith)

  with_deleted-none :
      (r : Option ℕ × S) (u : S)
      → with_deleted j t r ≡ (none, u)
      → (n : ℕ) × (r.0 ≡ some (suc n)) × (r.1 ≡ u)
  with_deleted-none (none, s) u h = absurd (ground arith)
  with_deleted-none (some zero, s) u h = absurd (ground arith)
  with_deleted-none (some (suc n), s) u h = (n, refl, ground arith)

  -- After a provider was deleted without an error no Get of it succeeds, and the rows of all others are
  -- as before.
  pub get-delete :
      (id : Str) (s u : S) (w : AiProvider)
      → delete_provider j t id s ≡ (none, u)
      → (get_provider j t id u ≢ ok w)
        × (keep (λ p. not (mine id p)) (law.rows u) ≡ keep (λ p. not (mine id p)) (law.rows s))
  unfolding delete_provider
  get-delete id s u w h =
      let (n, e, z) = with_deleted-none (t.delete (mine id) s) u h in
      let (_, d) = law.delete-deleted (mine id) s (suc n) e in
      let f : law.rows u ≡ keep (λ p. not (mine id p)) (law.rows s) = rw (← z) d in
      (
        (λ g.
            let (p, a, b) = get_provider-found id u w g in
            let c =
              first_of-keep_none (mine id) (law.rows u)
                (rw f (keep-keep-not (mine id) (law.rows s))) in
            let x : found p ≡ not_found = sym a ∙ c in cc),
        rw f (keep_again _ _),
      )
