-- ===== src/WebFinger/Accounts.antt =====
-- Which account a resource names.
use peers_touch_go.Prelude.{
  ℕ, ◌<◌, ◌≡◌, refl, ap, Bool-cases, ◌∙◌, ◌≢◌, str_eq, inl, inr, Bool, true, false, List, [], ◌∷◌,
  ◌++◌, Str, codes, arith, get_elem?, length,
}
use peers_touch_go.Prelude.Result.{ok, err}
use peers_touch_go.Prelude.Text.{contains, split, trim_space}
use peers_touch_go.Prelude.TextLaws.{
  occurs, occurs-append, contains-occurs, occurs-trim_space, split_free, split-append,
  length-split-occurs,
}
use peers_touch_go.WebFinger.{
  out_of_range, or_panic, prefix, value, validate_parts, validate_value, validate, request_of_parts,
  parse_actor_discovery_request, is_empty,
}

-- The colon that the check finds in the trimmed text is in the resource.
colon : (r : Str) → contains (trim_space r) (codes ":") ≡ occurs b':' r
colon r = contains-occurs b':' (trim_space r) ∙ occurs-trim_space b':' r refl

not_empty_of_occurs : (c : ℕ) (s : Str) → occurs c s ≡ true → is_empty s ≡ false
not_empty_of_occurs c [] h = cc
not_empty_of_occurs c (d ∷ s) h = refl

not_empty_trimmed : (r : Str) → occurs b':' r ≡ true → is_empty (trim_space r) ≡ false
not_empty_trimmed r h = not_empty_of_occurs b':' (trim_space r) (occurs-trim_space b':' r refl ∙ h)

not_empty : (s : Str) → s ≢ [] → is_empty s ≡ false
not_empty [] h = absurd (h refl)
not_empty (c ∷ s) h = refl

split-acct : (x : Str) → split b':' (codes "acct:" ++ x) ≡ codes "acct" ∷ split b':' x
split-acct x = split-append b':' (codes "acct") x refl

-- The domain part, up to a colon or to the end.
data Ends : Str → Str → Type 0 where
  at_end : (v : Str) → Ends v v
  at_colon : (v rest : Str) → Ends v (v ++ b':' ∷ rest)

split-Ends :
    (v x : Str) → Ends v x → occurs b':' v ≡ false → (rest : List Str) × (split b':' x ≡ v ∷ rest)
split-Ends v x (at_end _) h = ([], split_free b':' v h)
split-Ends v x (at_colon _ rest) h = (split b':' rest, split-append b':' v rest h)

abbrev pub account : Str → Str → Str
account user domain = user ++ b'@' ∷ domain

-- A user and a domain that make up an account: not empty, and without the separators.
pub record IsAccount (url_ok : Str → Bool) (user domain : Str) : Type 0 where
  pub user_given : user ≢ []
  pub domain_given : domain ≢ []
  pub user_at : occurs b'@' user ≡ false
  pub user_colon : occurs b':' user ≡ false
  pub domain_at : occurs b'@' domain ≡ false
  pub domain_colon : occurs b':' domain ≡ false
  pub domain_ok : url_ok domain ≡ true

module _ (url_ok : Str → Bool) (user domain : Str) (a : IsAccount url_ok user domain) where
  split-account : split b'@' (account user domain) ≡ user ∷ domain ∷ []
  split-account =
      split-append b'@' user domain a.user_at
      ∙ ap (λ r. user ∷ r) (split_free b'@' domain a.domain_at)

  at_account : contains (account user domain) (codes "@") ≡ true
  at_account =
      ground
        (arith, contains-occurs b'@' (account user domain), occurs-append b'@' user (b'@' ∷ domain))

  validate_value-account : validate_value url_ok (account user domain) ≡ ok tt
  unfolding validate_value
  validate_value-account = ground (
    arith,
    split-account,
    at_account,
    not_empty user a.user_given,
    not_empty domain a.domain_given,
    a.domain_ok,
  )

  no_colon : occurs b':' (account user domain) ≡ false
  no_colon = ground (arith, occurs-append b':' user (b'@' ∷ domain), a.user_colon, a.domain_colon)

  parse-Ends :
      (x : Str) (rels : List Str)
      → Ends (account user domain) x
      → parse_actor_discovery_request url_ok (codes "acct:" ++ x) rels
        ≡ ok (record {
          resource = codes "acct:" ++ x;
          domain = domain;
          username = user;
          requested_rels = rels;
        })
  unfolding parse_actor_discovery_request validate prefix value str_eq
  parse-Ends x rels e =
      let (rest, p) = split-Ends (account user domain) x e no_colon in
      ground (
        arith,
        p,
        split-acct x,
        colon (codes "acct:" ++ x),
        not_empty_trimmed (codes "acct:" ++ x) refl,
        validate_value-account,
        split-account,
      )

  -- For a user and a domain that are not empty and have no `@` and no `:`, and a domain that
  -- `url.Parse` accepts, parsing gives back the user and the domain of the resource made of them.
  pub parse-account :
      (rels : List Str)
      → parse_actor_discovery_request url_ok (codes "acct:" ++ account user domain) rels
        ≡ ok (record {
          resource = codes "acct:" ++ account user domain;
          domain = domain;
          username = user;
          requested_rels = rels;
        })
  parse-account rels = parse-Ends _ rels (at_end _)

  -- For such a user and domain, the domain with a port is accepted too and loses the port, and
  -- with it whatever follows the colon.
  pub parse_port_lost :
      (port : Str) (rels : List Str)
      → parse_actor_discovery_request url_ok
          (codes "acct:" ++ (account user domain ++ b':' ∷ port))
          rels
        ≡ ok (record {
          resource = codes "acct:" ++ (account user domain ++ b':' ∷ port);
          domain = domain;
          username = user;
          requested_rels = rels;
        })
  parse_port_lost port rels = parse-Ends _ rels (at_colon _ port)

or_panic-second : (xs : List Str) → 1 < length xs → (s : Str) × (or_panic (get_elem? xs 1) ≡ ok s)
or_panic-second [] h = absurd (omega arith)
or_panic-second (x ∷ []) h = absurd (omega arith)
or_panic-second (x ∷ y ∷ xs) h = (y, refl)

or_panic-first : (xs : List Str) → 1 < length xs → (s : Str) × (or_panic (get_elem? xs 0) ≡ ok s)
or_panic-first [] h = absurd (omega arith)
or_panic-first (x ∷ xs) h = (x, refl)

validate_value_no_panic :
    (url_ok : Str → Bool) (v : Str) → validate_value url_ok v ≢ err out_of_range
unfolding validate_value
validate_value_no_panic url_ok v = elim (Bool-cases (contains v (codes "@"))) [
  | inl at ↦ rw at (go v (split b'@' v))
  | inr none_at ↦ rw none_at (λ e. cc)
]
  where
    go : (v : Str) (ps : List Str) → validate_parts url_ok v ps ≢ err out_of_range
    go v [] e = cc
    go v (x ∷ []) e = cc
    go v (x ∷ y ∷ []) e = ground arith
    go v (x ∷ y ∷ z ∷ ps) e = cc

request_no_panic :
    (url_ok : Str → Bool) (r : Str) (rels : List Str) (v : Str) (ps : List Str)
    → request_of_parts url_ok r rels v ps ≢ err out_of_range
request_no_panic url_ok r rels v [] e = cc
request_no_panic url_ok r rels v (x ∷ []) e = cc
request_no_panic url_ok r rels v (x ∷ y ∷ []) e = cc
request_no_panic url_ok r rels v (x ∷ y ∷ z ∷ ps) e = cc

-- Parsing never panics, whatever the resource.
pub parse_no_panic :
    (url_ok : Str → Bool) (r : Str) (rels : List Str)
    → parse_actor_discovery_request url_ok r rels ≢ err out_of_range
unfolding parse_actor_discovery_request validate prefix value
parse_no_panic url_ok r rels e = elim (Bool-cases (occurs b':' r)) [
  | inl here ↦
      let (p, first) = or_panic-first (split b':' r) (length-split-occurs b':' r here) in
      let (v, second) = or_panic-second (split b':' r) (length-split-occurs b':' r here) in
      ground (
        arith,
        e,
        first,
        second,
        colon r,
        validate_value_no_panic url_ok v,
        request_no_panic url_ok r rels v (split b'@' v),
      )
  | inr absent ↦ ground (arith, e, colon r)
]
