-- ===== src/NativeRegistry/Registering/Keys.antt =====
-- station/frame/core/plugin/native/registry: the keys under which peers are announced, stored and found.
use mathlib.Core.Bool.{false≢true}
use peers_touch_go.Prelude.{
  Bool, Option, none, some, Str, str_eq, str_eq_iff, ◌≡◌, ◌≢◌, refl, arith,
}
use peers_touch_go.Prelude.Dict
use peers_touch_go.Prelude.Text.{has_prefix}
use peers_touch_go.NativeRegistry.{
  Network, NativeRegistry, Registration, Peer, peer_key, validate, decoded_id,
}
use peers_touch_go.NativeRegistry.Registering.{
  Outside, Registered, register, deregister, put_data, announcement, peer_of_registration,
}
use peers_touch_go.NativeRegistry.Queries.{listed_text}

put_data-announced :
    (o : Outside) (id : Str) (done : Registered) (m : Option Str)
    → (put_data o id done m).announced ≡ done.announced
put_data-announced o id done none = refl
put_data-announced o id done (some v) = ground arith

announcement-unlisted : (id : Str) → announcement id ≢ listed_text
unfolding str_eq
announcement-unlisted id e = false≢true ((str_eq_iff (announcement id) listed_text).1 e)

-- No registration announces the text under which the registry looks for the providers of peers.
pub register-unlisted :
    (n : Network) (o : Outside) (r : Option Registration)
    → (register n o r).announced ≢ some listed_text
unfolding register
register-unlisted n o none = λ e. cc
register-unlisted n o (some r) = λ e. ground (
  arith,
  announcement-unlisted r.id,
  put_data-announced o r.id _ (o.marshal (peer_of_registration r)),
)

-- The validator takes the key under which a peer is stored exactly when its id decodes.
pub validate-peer_key :
    (n : Network) (id : Str) → validate n (peer_key id) ≡ decoded_id (n.decode_id id)
unfolding validate has_prefix
validate-peer_key n id = ground arith

-- Deregistering an id leaves the peer that is kept under it in the map, when its name is another.
pub get-deregister :
    (takes : Str → Str → Bool) (id : Str) (p : Peer) (r : NativeRegistry)
    → Dict.get id r.peers ≡ some p
    → p.name ≢ id
    → Dict.get id (deregister takes id r).1.peers ≡ some p
unfolding deregister
get-deregister takes id p r h d =
    ground (arith, Dict.get-remove p.name id r.peers, str_eq_iff p.name id)
