-- ===== src/AiBox/Pages.antt =====
-- station/app/subserver/ai-box/service/provider_service.go: the rows that an update leaves, and a page of
-- the list.
use peers_touch_go.Prelude.{
  ℕ, suc, ◌+◌, ◌-◌, ◌*◌, ◌%◌, ◌^◌, ◌<◌, ◌≤◌, Bool, true, false, ◌&&◌, List, [], ◌∷◌, min,
  length-take, length-drop, map, str_eq, codes, Option, none, some, Str, str_eq_refl, str_eq_iff,
  keep, length, take, drop, ◌≡◌, arith, refl, sym, ap, ◌∙◌,
}
use peers_touch_go.Prelude.Int.{pos}
use peers_touch_go.Prelude.Result.{Result, ok, err}
use peers_touch_go.Tables.{Table, First, found, not_found, failed, first_of, not, SameRows, Laws}
use peers_touch_go.Tables.Sorting.{length-SameRows}
use peers_touch_go.Tables.Kept.{first_of-replace, first_of-true, keep-replace}
use peers_touch_go.AiBox.{
  Provider, ProviderConfig, AiProvider, Json, int32_mod, to_int, convert_to_proto,
}
use peers_touch_go.AiBox.Service.{
  Error, UpdateProviderRequest, PageData, get_user_id, found_provider, marshalled, new_config,
  or_old, updated, with_config, with_found, update_provider, is_shown, offset_of, with_page,
  with_count, list_providers,
}
use peers_touch_go.AiBox.Kept.{same_provider, mine, with_saved-ok, found-injective}

same-mine :
    (id : Str) (x e : Provider) → same_provider x e ≡ true → mine id e ≡ true → mine id x ≡ true
same-mine id x e h k = ground (
  arith,
  str_eq_iff x.id e.id,
  str_eq_iff x.peers_user_id e.peers_user_id,
  str_eq_iff e.id id,
  str_eq_iff x.id id,
  str_eq_iff e.peers_user_id get_user_id,
  str_eq_iff x.peers_user_id get_user_id,
)

ok-injective : (a b : PageData) → Path (Result Error PageData) (ok a) (ok b) → a ≡ b
ok-injective a b h = cc

to_int-pos : (n : ℕ) → n < 2 ^ 31 → to_int n ≡ pos n
to_int-pos n h = ground arith

le_mul_suc : (a b : ℕ) → a ≤ a * suc b
le_mul_suc a b = grind arith

offset_of-pos :
    (page size : ℕ)
    → page * suc size < 2 ^ 31
    → to_int (offset_of (record { page = page + 1; size = suc size })) ≡ pos (page * suc size)
offset_of-pos page size h =
    let a : (page + 1 + int32_mod - 1) % int32_mod ≡ page = omega (arith, le_mul_suc page size) in
    rw a (
      let b : (page * suc size) % int32_mod ≡ page * suc size = omega arith in
      rw b (to_int-pos (page * suc size) h))

-- A field after a request that has the value or does not.
abbrev pub Given : {A : Type 0} → Option A → A → A → Type 0
Given none old new = new ≡ old
Given (some x) old new = new ≡ x

Given-or_old : {A : Type 0} (o : Option A) (old : A) → Given o old (or_old old o)
Given-or_old none old = refl
Given-or_old (some x) old = refl

-- The text of a config: JSON of the one of the request, where there is one.
abbrev pub GivenConfig : Json → Option ProviderConfig → Str → Str → Type 0
GivenConfig j none old new = new ≡ old
GivenConfig j (some c) old new = j.marshal c ≡ some new

-- The row of `e` after the request: the fields of the request, the time, and nothing else.
abbrev pub Edited : Json → UpdateProviderRequest → ℕ → Provider → Provider → Type 0
Edited j q now e n =
    Given q.display_name e.name n.name
    × Given q.description e.description n.description
    × Given q.logo e.logo n.logo
    × Given q.enabled e.enabled n.enabled
    × GivenConfig j q.config e.config n.config
    × (n.updated_at ≡ now)
    × ((record n {
      name = e.name;
      description = e.description;
      logo = e.logo;
      enabled = e.enabled;
      config = e.config;
      updated_at = e.updated_at;
    })
        ≡ e)

length-map : {A B : Type 0} (f : A → B) (xs : List A) → length (map f xs) ≡ length xs
length-map f [] = refl
length-map f (x ∷ xs) = ap suc (length-map f xs)

length_cut :
    {R Q : Type 0} (size start : ℕ) (f : R → Q) (xs ys : List R)
    → SameRows xs ys
    → length (map f (take (suc size) (drop start xs))) ≡ min (suc size) (length ys - start)
length_cut size start f xs ys h =
    length-map f _
    ∙ (length-take (suc size) (drop start xs)
        ∙ ap (min (suc size))
            (length-drop start xs ∙ ap (λ n. n - start) (length-SameRows xs ys h)))

-- A row of the one user, and where only enabled rows are asked for an enabled one.
abbrev pub is_own : Bool → Provider → Bool
is_own true p = str_eq p.peers_user_id (codes "default_user") && p.enabled
is_own false p = str_eq p.peers_user_id (codes "default_user")

is_shown-is_own : (b : Bool) → is_shown get_user_id b ≡ is_own b
is_shown-is_own true = refl
is_shown-is_own false = refl

module _ {S : Type 0} (j : Json) (t : Table S Provider) (law : Laws t same_provider) where
  -- What an update leaves: the edited row, and all others as they were.
  abbrev pub Updated : UpdateProviderRequest → ℕ → S → S → Provider → AiProvider → Type 0
  Updated q now s u e v =
      (n : Provider) × Edited j q now e n
      × (first_of (mine q.id) (law.rows u) ≡ found n)
      × (convert_to_proto j n ≡ v)
      × (keep (λ p. not (mine q.id p)) (law.rows u) ≡ keep (λ p. not (mine q.id p)) (law.rows s))

  marshalled-ok : (o : Option Str) (new : Str) → marshalled j t o ≡ ok new → o ≡ some new
  marshalled-ok none new h = absurd (ground arith)
  marshalled-ok (some x) new h = ground arith

  new_config-GivenConfig :
      (o : Option ProviderConfig) (old new : Str)
      → new_config j t old o ≡ ok new
      → GivenConfig j o old new
  new_config-GivenConfig none old new h = ground arith
  new_config-GivenConfig (some c) old new h = marshalled-ok (j.marshal c) new h

  updated-Edited :
      (q : UpdateProviderRequest) (now : ℕ) (e : Provider) (text : Str)
      → new_config j t e.config q.config ≡ ok text
      → Edited j q now e (updated j t q e now text)
  updated-Edited q now e text h = (
    Given-or_old q.display_name e.name,
    Given-or_old q.description e.description,
    Given-or_old q.logo e.logo,
    Given-or_old q.enabled e.enabled,
    new_config-GivenConfig q.config e.config text h,
    refl,
    refl,
  )

  with_config-Updated :
      (q : UpdateProviderRequest) (now : ℕ) (s u : S) (e : Provider) (v : AiProvider)
      (r : Result Error Str)
      → new_config j t e.config q.config ≡ r
      → first_of (mine q.id) (law.rows s) ≡ found e
      → with_config j t q e now s r ≡ (ok v, u)
      → Updated q now s u e v
  with_config-Updated q now s u e v (err x) c f h = absurd (ground arith)
  with_config-Updated q now s u e v (ok text) c f h =
      let n = updated j t q e now text in
      let (y, a, z) = with_saved-ok j t law n (t.save n s) v u h in
      let same : same_provider e n ≡ true = rw (str_eq_refl e.id) (str_eq_refl e.peers_user_id) in
      let m = first_of-true (mine q.id) e (law.rows s) f in
      let saved = law.save-saved n e (mine q.id) s f same y in
      (
        n,
        updated-Edited q now e text c,
        rw (← z) (rw saved (first_of-replace (mine q.id) same_provider n e (law.rows s) f same m)),
        a,
        rw (← z) (
            rw saved (
              keep-replace (λ p. not (mine q.id p)) same_provider n (law.rows s)
                (λ x k. rw (same-mine q.id x n k m) refl) (rw m refl))),
      )

  with_found-Updated :
      (q : UpdateProviderRequest) (now : ℕ) (s u : S) (e : Provider) (v : AiProvider)
      (f : First Provider)
      → t.first (mine q.id) s ≡ f
      → first_of (mine q.id) (law.rows s) ≡ found e
      → with_found j t q now s (found_provider j t f) ≡ (ok v, u)
      → Updated q now s u e v
  with_found-Updated q now s u e v not_found d f h = absurd (ground arith)
  with_found-Updated q now s u e v failed d f h = absurd (ground arith)
  with_found-Updated q now s u e v (found p) d f h =
      let x : e ≡ p = found-injective e p (sym f ∙ law.first-found (mine q.id) s p d) in
      with_config-Updated q now s u e v (new_config j t e.config q.config) refl f (rw x h)

  -- An update that succeeds, of the first row with the id and the user, gives this row the fields that
  -- the request has, and the time; a config is stored as JSON. Every field that the request does not have,
  -- and every other row, is as before. The answer is made of the row.
  pub update_provider-Updated :
      (q : UpdateProviderRequest) (now : ℕ) (s u : S) (e : Provider) (v : AiProvider)
      → first_of (mine q.id) (law.rows s) ≡ found e
      → update_provider j t q now s ≡ (ok v, u)
      → Updated q now s u e v
  unfolding update_provider
  update_provider-Updated q now s u e v f h =
      with_found-Updated q now s u e v (t.first (mine q.id) s) refl f h

  with_page-ok :
      (n : ℕ) (o : Option (List Provider)) (d : PageData)
      → with_page j t n o ≡ ok d
      → (l : List Provider) × (o ≡ some l)
        × (d.total ≡ to_int (n % int32_mod))
        × (d.list ≡ map (convert_to_proto j) l)
  with_page-ok n none d h = absurd (ground arith)
  with_page-ok n (some l) d h =
      let e = ok-injective _ d h in (l, refl, rw (← e) refl, rw (← e) refl)

  counted :
      (page size : ℕ) (p : Provider → Bool) (s : S) (d : PageData) (o : Option ℕ)
      → t.count p s ≡ o
      → (page * suc size) + suc size < 2 ^ 31
      → length (keep p (law.rows s)) < 2 ^ 31
      → with_count j t (record { page = page + 1; size = suc size }) p s o ≡ ok d
      → (d.total ≡ pos (length (keep p (law.rows s))))
        × ((xs : List Provider) × SameRows xs (keep p (law.rows s))
            × (d.list ≡ map (convert_to_proto j) (take (suc size) (drop (page * suc size) xs))))
  counted page size p s d none k b c h = absurd (ground arith)
  counted page size p s d (some n) k b c h =
      let (l, f, g, m) = with_page-ok n _ d h in
      let x : n ≡ length (keep p (law.rows s)) = law.count-counted p s n k in
      let y : t.find_page p (pos (suc size)) (pos (page * suc size)) s ≡ some l =
        rw (← (to_int-pos (suc size) (omega arith)))
          (rw (← (offset_of-pos page size (omega arith))) f) in
      let (xs, same, z) = law.find_page-found p size (page * suc size) s l y in
      let w : n % int32_mod ≡ n = omega arith in
      (g ∙ (rw w (rw x (to_int-pos _ c))), (xs, same, m ∙ ap (map (convert_to_proto j)) z))

  -- The page of a positive number and size, while its last row comes before the row 2 ^ 31 and the user has
  -- fewer rows than that, of which a listing of the enabled ones takes only these: the total is the number
  -- of these rows, and the list is the page cut out of them in some order, each in the form of an answer.
  -- It is full where there are enough rows. As the query has no order, another page may be cut out of them
  -- in another one.
  pub list_providers_lem :
      (page size : ℕ) (enabled_only : Bool) (s : S) (d : PageData)
      → (page * suc size) + suc size < 2 ^ 31
      → length (keep (is_own enabled_only) (law.rows s)) < 2 ^ 31
      → list_providers j t (record { page = page + 1; size = suc size }) enabled_only s ≡ ok d
      → (d.total ≡ pos (length (keep (is_own enabled_only) (law.rows s))))
        × ((xs : List Provider) × SameRows xs (keep (is_own enabled_only) (law.rows s))
            × (d.list ≡ map (convert_to_proto j) (take (suc size) (drop (page * suc size) xs))))
        × (length d.list
            ≡ min (suc size) (length (keep (is_own enabled_only) (law.rows s)) - page * suc size))
  unfolding list_providers
  list_providers_lem page size enabled_only s d b c h =
      let p = is_shown get_user_id enabled_only in
      let e : p ≡ is_own enabled_only = is_shown-is_own enabled_only in
      let (g, (xs, same, m)) = counted page size p s d (t.count p s) refl b (rw e c) h in
      let n =
        length_cut size (page * suc size) (convert_to_proto j) xs (keep p (law.rows s)) same in
      rw (← e) (g, (xs, same, m), ap length m ∙ n)
