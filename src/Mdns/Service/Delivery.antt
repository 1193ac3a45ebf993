-- ===== src/Mdns/Service/Delivery.antt =====
-- station/frame/core/plugin/native/internal/mdns/mdns.go: which peers a discovery gives to the callback.
use peers_touch_go.Prelude.{
  ℕ, Bool, true, false, List, [], ◌∷◌, Option, none, some, ◌≡◌, ◌≢◌, refl, arith, Str, str_eq_iff,
  codes,
}
use peers_touch_go.NetworkId.{NetworkId}
use peers_touch_go.Mdns.{MdnsService}
use peers_touch_go.Mdns.Records.{
  ServiceEntry, Peer, Converted, skipped, crashed, converted, entry_to_peer, convert, peer_of,
  network_id_of, parse_txt_records, field,
}
use peers_touch_go.Mdns.Service.{
  Choice, got, finished, shut_down, Ending, own_name, visit, deliver, perform_discovery,
}

-- The peer has an id, and its entry is not the service's own.
abbrev pub IsForeign : Str → Peer → Type 0
IsForeign own p = (p.id ≢ []) × (p.entry_name ≢ own)

abbrev pub AllForeign : Str → List Peer → Type 0
AllForeign own [] = Unit
AllForeign own (p ∷ ps) = IsForeign own p × AllForeign own ps

abbrev pub PeerFrom : ServiceEntry → Converted → Type 0
PeerFrom e skipped = Unit
PeerFrom e crashed = Unit
PeerFrom e (converted p) = (p.id ≢ []) × (p.entry_name ≡ e.name)

abbrev pub Foreign : Str → Converted → Type 0
Foreign own skipped = Unit
Foreign own crashed = Unit
Foreign own (converted p) = IsForeign own p

module _ (capacity : ℕ → ℕ) where
  peer_of-PeerFrom :
      (e : ServiceEntry) (info : List (Str × Str)) (r : Option (Option NetworkId))
      → field (codes "node_id") info ≢ []
      → PeerFrom e (peer_of capacity e info r)
  peer_of-PeerFrom e info none h = tt
  peer_of-PeerFrom e info (some n) h = (h, refl)

  convert-PeerFrom :
      (e : ServiceEntry) (info : List (Str × Str)) (id : Str)
      → field (codes "node_id") info ≡ id
      → PeerFrom e (convert capacity e info id)
  convert-PeerFrom e info [] h = tt
  convert-PeerFrom e info (x ∷ id) h =
      peer_of-PeerFrom e info (network_id_of capacity (field (codes "network_id") info)) (λ e. cc)

  entry_to_peer-PeerFrom : (e : ServiceEntry) → PeerFrom e (entry_to_peer capacity e)
  unfolding entry_to_peer
  entry_to_peer-PeerFrom e = convert-PeerFrom e (parse_txt_records e.info_fields) _ refl

  foreign :
      (own : Str) (e : ServiceEntry) (r : Converted) → e.name ≢ own → PeerFrom e r → Foreign own r
  foreign own e skipped h p = tt
  foreign own e crashed h p = tt
  foreign own e (converted p) h (i, n) = ground arith

  visit-Foreign : (own : Str) (e : Option ServiceEntry) → Foreign own (visit capacity own e)
  visit-Foreign own none = tt
  visit-Foreign own (some e) = ground (
    arith,
    str_eq_iff e.name own,
    foreign own e (entry_to_peer capacity e),
    entry_to_peer-PeerFrom e,
  )

  deliver-AllForeign :
      (own : Str) (w : Bool) (r : Converted) (rest : List Peer × Ending)
      → Foreign own r
      → AllForeign own rest.0
      → AllForeign own (deliver capacity w r rest).0
  deliver-AllForeign own w skipped rest f a = a
  deliver-AllForeign own w crashed rest f a = tt
  deliver-AllForeign own true (converted p) rest f a = (f, a)
  deliver-AllForeign own false (converted p) rest f a = a

  -- Every peer that a discovery gives to the callback has a node id, and its entry does not bear the name
  -- under which the service announces itself.
  pub perform_discovery-AllForeign :
      (s : MdnsService) (l : List Choice)
      → AllForeign (own_name s.options) (perform_discovery capacity s l).0
  unfolding perform_discovery
  perform_discovery-AllForeign s [] = tt
  perform_discovery-AllForeign s (finished ∷ l) = tt
  perform_discovery-AllForeign s (shut_down ∷ l) = tt
  perform_discovery-AllForeign s (got e ∷ l) =
      deliver-AllForeign (own_name s.options) s.watched (visit capacity (own_name s.options) e)
        (perform_discovery capacity s l) (visit-Foreign (own_name s.options) e)
        (perform_discovery-AllForeign s l)
