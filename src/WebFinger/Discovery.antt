-- ===== src/WebFinger/Discovery.antt =====
-- station/frame/touch: the handler of WebFinger (wellknown_handler.go), with webfinger/discovery.go, and the
-- access control of router.go and config.go.
use peers_touch_go.Prelude.{
  ℕ, Bool, true, false, List, [], ◌∷◌, Option, none, some, Str, codes, str_eq, str_eq_iff, drop,
  keep, any, if◌then◌else◌, ◌≡◌, ap, ◌∙◌, arith, refl, map,
}
use peers_touch_go.Prelude.Dict
use peers_touch_go.Prelude.Dict.{Dict, get-put}
use peers_touch_go.Prelude.Result.{Result, ok, err}
use peers_touch_go.Prelude.Text.{split, trim_space, has_prefix, cut}
use peers_touch_go.WebFinger.{Error, is_empty, check, WebFingerLink, WebFingerResponse}

-- The relations that the query asks for.
unfoldable pub requested_rels : Str → List Str
unfolding split trim_space keep
requested_rels [] = []
requested_rels (c ∷ s) =
    keep (λ r. if is_empty r then false else true) (map trim_space (split b',' (c ∷ s)))

-- The map for the lookup.
unfoldable pub requested_map : List Str → Dict Bool → Dict Bool
requested_map [] m = m
requested_map (r ∷ l) m = requested_map l (Dict.put r true m)

abbrev pub or_false : Option Bool → Bool
or_false none = false
or_false (some b) = b

abbrev pub is_requested : Dict Bool → WebFingerLink → Bool
is_requested m l = or_false (Dict.get l.rel m)

unfoldable pub filter_requested_relationships : WebFingerResponse → List Str → WebFingerResponse
unfolding requested_map keep
filter_requested_relationships response [] = response
filter_requested_relationships response (r ∷ l) = record response {
  links = keep (is_requested (requested_map (r ∷ l) [])) response.links;
}

requested_map-any :
    (l : List Str) (m : Dict Bool) (k : Str)
    → or_false (Dict.get k (requested_map l m))
      ≡ (if any (str_eq k) l then true else or_false (Dict.get k m))
unfolding requested_map any
requested_map-any [] m k = refl
requested_map-any (r ∷ l) m k = ground (
  arith,
  requested_map-any l (Dict.put r true m) k,
  get-put r k true m,
  str_eq_iff r k,
  str_eq_iff k r,
)

keep-same :
    {A : Type 0} (p q : A → Bool) (xs : List A) → ((x : A) → p x ≡ q x) → keep p xs ≡ keep q xs
unfolding keep
keep-same p q [] h = refl
keep-same p q (x ∷ xs) h = ground (arith, h x, keep-same p q xs h)

abbrev pub no_rels : List Str → Bool
no_rels [] = true
no_rels (r ∷ l) = false

if_same : (b : Bool) → (if b then true else false) ≡ b
if_same true = refl
if_same false = refl

-- Without a relation asked for the response is as it was; with some, its links are those that have one of
-- them, in their order, and all else is as it was.
pub filter_requested_relationships_lem :
    (response : WebFingerResponse) (rels : List Str)
    → filter_requested_relationships response rels ≡ (record response {
      links =
          if no_rels rels
          then response.links
          else keep (λ l. any (str_eq l.rel) rels) response.links;
    })
unfolding filter_requested_relationships Dict.get
filter_requested_relationships_lem response [] = refl
filter_requested_relationships_lem response (r ∷ l) =
    ap (λ (ls : List WebFingerLink). record response { links = ls })
      (keep-same (is_requested (requested_map (r ∷ l) [])) (λ k. any (str_eq k.rel) (r ∷ l))
        response.links
        (λ k. requested_map-any (r ∷ l) [] k.rel ∙ if_same (any (str_eq k.rel) (r ∷ l))))

pub record RouterConfig : Type 0 where
  pub management : Bool
  pub activity_pub : Bool
  pub well_known : Bool
  pub user : Bool
  pub peer : Bool
  pub message : Bool

-- The switch of CommonAccessControlWrapper.
unfoldable pub is_enabled : RouterConfig → Str → Bool
unfolding str_eq
is_enabled c n =
    if str_eq n (codes "management")
    then c.management
    else if str_eq n (codes "activitypub")
    then c.activity_pub
    else if str_eq n (codes ".well-known")
    then c.well_known
    else if str_eq n (codes "actor")
    then c.user
    else if str_eq n (codes "peer")
    then c.peer
    else if str_eq n (codes "message")
    then c.message
    else false

-- `not_found` is the answer 404 of a wrapper.
pub data Answer (A : Type 0) : Type 0 where
  not_found : Answer A
  passed_on : A → Answer A

abbrev pub access_control : {A : Type 0} → RouterConfig → Str → A → Answer A
access_control c family a = if is_enabled c family then passed_on a else not_found

-- The wrapper of both handlers of the well-known routes.
abbrev pub well_known_wrapped : {A : Type 0} → RouterConfig → A → Answer A
well_known_wrapped c a = access_control c (codes "WellKnown") a

-- No configuration lets a request through this wrapper, while the family of these routes is enabled by the
-- setting for well-known routes.
pub well_known_wrapped_lem :
    {A : Type 0} (c : RouterConfig) (a : A)
    → (well_known_wrapped c a ≡ not_found) × (is_enabled c (codes ".well-known") ≡ c.well_known)
unfolding is_enabled
well_known_wrapped_lem c a = (refl, refl)

-- The domain of a base URL: without its scheme, its port and its path. `fold` is the comparison of
-- `EqualFold`.
abbrev pub before : ℕ → Str → Str
before sep s = elim (cut sep s) [ none ↦ s | some (a, b) ↦ a ]

abbrev pub without_scheme : Str → Str
without_scheme s =
    if has_prefix s (codes "http://")
    then drop 7 s
    else if has_prefix s (codes "https://")
    then drop 8 s
    else s

unfoldable pub is_local_domain : (Str → Str → Bool) → Str → Str → Bool
unfolding has_prefix cut
is_local_domain fold base_url domain =
    fold (before b'/' (before b':' (without_scheme base_url))) domain

-- `panicked` is the panic of a function that is not implemented.
pub data Failure : Type 0 where
  unbound panicked : Failure
  invalid : Error → Failure

-- `DiscoverActor` of any resource panics.
abbrev pub discover_actor : Str → Option WebFingerResponse
discover_actor resource = none

abbrev pub with_discovered : List Str → Option WebFingerResponse → Result Failure WebFingerResponse
with_discovered rels none = err panicked
with_discovered rels (some r) = ok (filter_requested_relationships r rels)

abbrev pub with_checked : Str → Str → Result Error (Unit {0}) → Result Failure WebFingerResponse
with_checked resource rel (err e) = err (invalid e)
with_checked resource rel (ok u) = with_discovered (requested_rels rel) (discover_actor resource)

-- The handler: 400 for parameters that cannot be bound or are refused, else what is discovered, with the
-- links that are asked for.
unfoldable pub webfinger_handler : Option Str → Str → Result Failure WebFingerResponse
unfolding check requested_rels filter_requested_relationships
webfinger_handler none rel = err unbound
webfinger_handler (some resource) rel = with_checked resource rel (check resource)

with_checked-err :
    (resource rel : Str) (r : Result Error (Unit {0}))
    → (e : Failure) × (with_checked resource rel r ≡ err e)
with_checked-err resource rel (err e) = (invalid e, refl)
with_checked-err resource rel (ok u) = (panicked, refl)

-- No request is answered with a response: the handler answers 400, or it panics.
pub webfinger_handler_fails :
    (resource : Option Str) (rel : Str) → (e : Failure) × (webfinger_handler resource rel ≡ err e)
unfolding webfinger_handler
webfinger_handler_fails none rel = (unbound, refl)
webfinger_handler_fails (some resource) rel = with_checked-err resource rel (check resource)
