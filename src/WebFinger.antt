-- ===== src/WebFinger.antt =====
-- station/frame/touch/model: actor.go (`WebFingerResource`, `WebFingerParams`) and webfinger.go, the
-- parsing of a WebFinger resource and the response for an actor. Text is a list of bytes. Whether
-- `url.Parse` accepts "http://" and a domain is the parameter `url_ok`.
pub mod Accounts
pub mod Discovery
pub mod Links
mod Tests
use Prim.Native.Nat.{zero, suc}
use peers_touch_go.Prelude.{
  ℕ, Bool, true, false, List, [], ◌∷◌, ◌++◌, Option, none, some, Str, codes, str_eq, if◌then◌else◌,
  get_elem?,
}
use peers_touch_go.Prelude.Result.{Result, ok, err, ◌>>=◌}
use peers_touch_go.Prelude.Dict
use peers_touch_go.Prelude.Dict.{Dict}
use peers_touch_go.Prelude.Text.{contains, split, trim_space}

-- `out_of_range` is no error value but the run-time panic of an index.
pub data Error : Type 0 where
  invalid_resource_format unsupported_prefix_type out_of_range : Error
  missing_at invalid_account invalid_domain : Str → Error

abbrev pub or_panic : Option Str → Result Error Str
or_panic none = err out_of_range
or_panic (some s) = ok s

unfoldable pub prefix : Str → Result Error Str
unfolding split
prefix r = or_panic (get_elem? (split b':' r) 0)

unfoldable pub value : Str → Result Error Str
unfolding split
value r = or_panic (get_elem? (split b':' r) 1)

abbrev pub is_empty : Str → Bool
is_empty [] = true
is_empty (c ∷ s) = false

-- `WebFingerParams.Check`, on the resource.
unfoldable pub check : Str → Result Error (Unit {0})
unfolding prefix trim_space contains str_eq
check r =
    if is_empty (trim_space r)
    then err invalid_resource_format
    else if contains r (codes ":")
    then (prefix r >>= λ p. if str_eq p (codes "acct") then ok tt else err unsupported_prefix_type)
    else err invalid_resource_format

module _ (url_ok : Str → Bool) where
  -- The parts of the value: two, neither of them empty, and the second a domain.
  abbrev pub validate_parts : Str → List Str → Result Error (Unit {0})
  validate_parts v (user ∷ domain ∷ []) =
      if is_empty user
      then err (invalid_account v)
      else if is_empty domain
      then err (invalid_account v)
      else if url_ok domain
      then ok tt
      else err (invalid_domain domain)
  validate_parts v other = err (invalid_account v)

  unfoldable pub validate_value : Str → Result Error (Unit {0})
  unfolding split contains
  validate_value v =
      if contains v (codes "@") then validate_parts v (split b'@' v) else err (missing_at v)

  unfoldable pub validate : Str → Result Error (Unit {0})
  unfolding prefix value validate_value trim_space contains str_eq
  validate r =
      if is_empty (trim_space r)
      then err invalid_resource_format
      else if contains (trim_space r) (codes ":")
      then (prefix r >>= λ p.
          if str_eq p (codes "acct")
          then value r >>= validate_value
          else err unsupported_prefix_type)
      else err invalid_resource_format

  pub record ActorDiscoveryRequest : Type 0 where
    pub resource : Str
    pub domain : Str
    pub username : Str
    pub requested_rels : List Str

  abbrev pub request_of_parts : Str → List Str → Str → List Str → Result Error ActorDiscoveryRequest
  request_of_parts r rels v (user ∷ domain ∷ []) =
      ok (record { resource = r; domain = domain; username = user; requested_rels = rels })
  request_of_parts r rels v other = err (invalid_account v)

  unfoldable pub parse_actor_discovery_request : Str → List Str → Result Error ActorDiscoveryRequest
  unfolding validate value split
  parse_actor_discovery_request r rels = do
    u ← validate r
    v ← value r
    request_of_parts r rels v (split b'@' v)

-- The fields of `WebFingerActivityPubActor` that the response reads.
pub record WebFingerActor : Type 0 where
  pub id : Str
  pub preferred_username : Str
  pub name : Str
  pub summary : Str
  pub inbox : Str
  pub outbox : Str

pub record WebFingerLink : Type 0 where
  pub rel : Str
  pub media_type : Str
  pub href : Str

pub record WebFingerResponse : Type 0 where
  pub subject : Str
  pub aliases : List Str
  pub properties : Dict Str
  pub links : List WebFingerLink

abbrev pub activity_json : Str
activity_json = codes "application/activity+json"

abbrev pub rel_self : Str
rel_self = codes "self"

abbrev pub rel_profile_page : Str
rel_profile_page = codes "http://webfinger.net/rel/profile-page"

abbrev pub rel_inbox : Str
rel_inbox = codes "https://www.w3.org/ns/activitystreams#inbox"

abbrev pub rel_outbox : Str
rel_outbox = codes "https://www.w3.org/ns/activitystreams#outbox"

abbrev pub put_unless_empty : Str → Str → Dict Str → Dict Str
put_unless_empty key [] d = d
put_unless_empty key (c ∷ s) d = Dict.put key (c ∷ s) d

abbrev pub link_unless_empty : Str → Str → List WebFingerLink
link_unless_empty rel [] = []
link_unless_empty rel (c ∷ s) = record { rel = rel; media_type = activity_json; href = c ∷ s } ∷ []

unfoldable pub build_webfinger_response : WebFingerActor → Str → Str → WebFingerResponse
unfolding Dict.put
build_webfinger_response actor base_url resource = record {
  subject = resource;
  aliases = actor.id ∷ [];
  properties =
      put_unless_empty (codes "https://www.w3.org/ns/activitystreams#summary") actor.summary (
        put_unless_empty (codes "https://www.w3.org/ns/activitystreams#name") actor.name (
          Dict.put (codes "https://www.w3.org/ns/activitystreams#preferredUsername")
            actor.preferred_username []));
  links =
      (record { rel = rel_self; media_type = activity_json; href = actor.id }
        ∷ record {
          rel = rel_profile_page;
          media_type = codes "text/html";
          href = base_url ++ (codes "/@" ++ actor.preferred_username);
        }
        ∷ [])
      ++ (link_unless_empty rel_inbox actor.inbox ++ link_unless_empty rel_outbox actor.outbox);
}
