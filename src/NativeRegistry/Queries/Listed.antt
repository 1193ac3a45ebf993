-- ===== src/NativeRegistry/Queries/Listed.antt =====
-- station/frame/core/plugin/native/registry/native.go: which peers a listing has.
use mathlib.Core.Path.{subst}
use peers_touch_go.Prelude.{
  true, false, List, [], ◌∷◌, ◌++◌, Option, none, some, Str, str_eq, any, if◌then◌else◌, ◌≡◌, refl,
  arith, map,
}
use peers_touch_go.Prelude.Result.{ok}
use peers_touch_go.NativeRegistry.{Network, NativeRegistry, Peer, peer_key}
use peers_touch_go.NativeRegistry.Bootstrap.{is_bootstrap_node}
use peers_touch_go.NativeRegistry.Queries.{
  lookup, see, prepend, provided, direct, list_peers, decode_peer, listed_text,
}

module _ (n : Network) (r : NativeRegistry) where
  abbrev pub IsOther : Str → Type 0
  IsOther id = (str_eq id n.self ≡ false) × (is_bootstrap_node n id r ≡ false)

  -- Each id stands once and is neither the host's nor that of a bootstrap node.
  abbrev pub Others : List Str → Type 0
  Others [] = Unit
  Others (id ∷ ids) = ((any (str_eq id) ids ≡ false) × IsOther id) × Others ids

  lookup-IsOther :
      (seen : List Str) (id : Str) (p : Peer)
      → lookup n r seen id ≡ some p
      → (any (str_eq id) seen ≡ false) × IsOther id
  lookup-IsOther seen id p h = ground arith

  see-Others :
      (p : Option Peer) (id : Str) (seen : List Str)
      → lookup n r seen id ≡ p
      → Others seen
      → Others (see n p id seen)
  see-Others none id seen h o = o
  see-Others (some p) id seen h o = (lookup-IsOther seen id p h, o)

  provided-Others : (seen ids : List Str) → Others seen → Others (provided n r seen ids).1
  unfolding provided
  provided-Others seen [] o = o
  provided-Others seen (id ∷ ids) o =
      provided-Others (see n (lookup n r seen id) id seen) ids
        (see-Others (lookup n r seen id) id seen refl o)

  -- What is stored for an id, decoded.
  abbrev pub value_of : Str → Option Peer
  value_of id = decode_peer n (n.get_value (peer_key id))

  -- The peers are those stored for the ids, in the opposite order.
  abbrev pub Stored : List Peer → List (Option Peer) → List Str → Type 0
  Stored [] values [] = values ≡ []
  Stored [] values (id ∷ ids) = values ≡ value_of id ∷ map value_of ids
  Stored (p ∷ ps) values ids = Stored ps (some p ∷ values) ids

  lookup-value :
      (seen : List Str) (id : Str) (p : Peer) → lookup n r seen id ≡ some p → value_of id ≡ some p
  lookup-value seen id p h = ground arith

  Stored-none : (seen : List Str) → Stored [] (map value_of seen) seen
  Stored-none [] = refl
  Stored-none (id ∷ seen) = refl

  see-Stored :
      (p : Option Peer) (id : Str) (seen : List Str) (ps : List Peer) (ids : List Str)
      → lookup n r seen id ≡ p
      → Stored ps (map value_of (see n p id seen)) ids
      → Stored (prepend n p ps) (map value_of seen) ids
  see-Stored none id seen ps ids h s = s
  see-Stored (some p) id seen ps ids h s =
      let e : value_of id ≡ some p = lookup-value seen id p h in
      subst (λ v. Stored ps (v ∷ map value_of seen) ids) e s

  provided-Stored :
      (seen ids : List Str)
      → Stored (provided n r seen ids).0 (map value_of seen) (provided n r seen ids).1
  unfolding provided
  provided-Stored seen [] = Stored-none seen
  provided-Stored seen (id ∷ ids) =
      let p = lookup n r seen id in
      see-Stored p id seen (provided n r (see n p id seen) ids).0
        (provided n r (see n p id seen) ids).1 refl (provided-Stored (see n p id seen) ids)

  -- The connected ids that are not among the seen ones.
  abbrev pub unseen : List Str → List Str → List Str
  unfolding any str_eq
  unseen seen [] = []
  unseen seen (id ∷ ids) = if any (str_eq id) seen then unseen seen ids else id ∷ unseen seen ids

  abbrev pub names : List Peer → List Str
  names [] = []
  names (p ∷ ps) = p.name ∷ names ps

  direct-names : (seen ids : List Str) → names (direct n seen ids) ≡ unseen seen ids
  unfolding direct unseen
  direct-names seen [] = refl
  direct-names seen (id ∷ ids) = ground (arith, direct-names seen ids)

  -- A listing has first what is stored for some ids, each decoded, where the ids are all different and none
  -- is the host's or a bootstrap node's; and then, with its id as name, each connected peer whose id is not
  -- one of these.
  pub list_peers-Others :
      (found : List Peer) × (more : List Peer) × (seen : List Str) × (list_peers n true r
        ≡ ok (found ++ more))
      × Stored found [] seen
      × Others seen
      × (names more ≡ unseen seen n.connected)
  unfolding list_peers
  list_peers-Others =
      let (ps, seen) = provided n r [] (n.providers listed_text) in
      (
        ps,
        direct n seen n.connected,
        seen,
        refl,
        provided-Stored [] (n.providers listed_text),
        provided-Others [] (n.providers listed_text) tt,
        direct-names seen n.connected,
      )
