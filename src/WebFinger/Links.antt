-- ===== src/WebFinger/Links.antt =====
-- The links of the response.
use peers_touch_go.Prelude.{
  ◌≡◌, refl, List, [], ◌∷◌, Option, none, some, Str, if◌then◌else◌, str_eq,
}
use peers_touch_go.WebFinger.{
  WebFingerActor, WebFingerLink, rel_self, rel_inbox, rel_outbox, build_webfinger_response,
}

-- The target of the first link with a relation.
unfoldable pub href_of : Str → List WebFingerLink → Option Str
href_of rel [] = none
href_of rel (l ∷ ls) = if str_eq l.rel rel then some l.href else href_of rel ls

abbrev pub unless_empty : Str → Option Str
unless_empty [] = none
unless_empty (c ∷ s) = some (c ∷ s)

-- A client finds the actor under "self", its inbox and its outbox each under its relation exactly if
-- the actor has one, and the actor's id as the only alias; the subject is the resource asked for.
pub build_webfinger_response_links :
    (actor : WebFingerActor) (base_url resource : Str)
    → let r = build_webfinger_response actor base_url resource in
      (r.subject ≡ resource)
      × (r.aliases ≡ actor.id ∷ [])
      × (href_of rel_self r.links ≡ some actor.id)
      × (href_of rel_inbox r.links ≡ unless_empty actor.inbox)
      × (href_of rel_outbox r.links ≡ unless_empty actor.outbox)
unfolding build_webfinger_response href_of str_eq
build_webfinger_response_links actor base_url resource = go actor.inbox actor.outbox refl refl
  where
    go :
        (i o : Str)
        → actor.inbox ≡ i
        → actor.outbox ≡ o
        → let r = build_webfinger_response actor base_url resource in
          (r.subject ≡ resource)
          × (r.aliases ≡ actor.id ∷ [])
          × (href_of rel_self r.links ≡ some actor.id)
          × (href_of rel_inbox r.links ≡ unless_empty actor.inbox)
          × (href_of rel_outbox r.links ≡ unless_empty actor.outbox)
    go [] [] p q = rw (p, q) (refl, refl, refl, refl, refl)
    go [] (c ∷ o) p q = rw (p, q) (refl, refl, refl, refl, refl)
    go (c ∷ i) [] p q = rw (p, q) (refl, refl, refl, refl, refl)
    go (c ∷ i) (d ∷ o) p q = rw (p, q) (refl, refl, refl, refl, refl)
