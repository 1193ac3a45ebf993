-- ===== src/Mdns/Service/Lifecycle.antt =====
-- station/frame/core/plugin/native/internal/mdns/mdns.go: the states that calls of the service reach.
use peers_touch_go.Prelude.{
  Bool, true, List, [], ◌∷◌, Option, none, some, ◌≡◌, arith, Str, if◌then◌else◌,
}
use peers_touch_go.Prelude.Result.{ok}
use peers_touch_go.NetworkId.{Codec}
use peers_touch_go.Mdns.{
  Options, MdnsService, Zone, new_mdns_service, make_service, default_service_config, apply_options,
}
use peers_touch_go.Mdns.Records.{Node, build_txt_records}
use peers_touch_go.Mdns.Service.{then_start, zone_of, start, stop, watch, advertise_node, set_txt}

module _ (c : Codec) (accepts : Zone → Bool) where
  -- A service as it is made, and after any calls.
  pub data Reaches : MdnsService → Type 0 where
    made :
        (opts : List (Options → Options)) (s : MdnsService)
        → new_mdns_service opts ≡ ok s
        → Reaches s
    started : (s : MdnsService) → Reaches s → Reaches (start c accepts s).1
    stopped : (s : MdnsService) → Reaches s → Reaches (stop c accepts s).1
    watching : (s : MdnsService) → Reaches s → Reaches (watch c accepts s)
    advertised :
        (n : Option Node) (s : MdnsService) → Reaches s → Reaches (advertise_node c accepts n s).1

-- The server announces the zone of the options that hold, and the ticker runs, exactly while the
-- service is running.
abbrev pub IsConsistent : MdnsService → Type 0
IsConsistent s =
    (s.ticking ≡ s.running) × (s.announced ≡ (if s.running then some (zone_of s.options) else none))

module _ (c : Codec) (accepts : Zone → Bool) where
  make_service-IsConsistent :
      (o : Options) (n : Str) (s : MdnsService) → make_service o n ≡ ok s → IsConsistent s
  make_service-IsConsistent o [] s h = ground arith
  make_service-IsConsistent o (x ∷ n) s h = ground arith

  start-IsConsistent : (s : MdnsService) → IsConsistent s → IsConsistent (start c accepts s).1
  unfolding start
  start-IsConsistent s h = ground arith

  stop-IsConsistent : (s : MdnsService) → IsConsistent s → IsConsistent (stop c accepts s).1
  unfolding stop
  stop-IsConsistent s h = ground arith

  restart-IsConsistent :
      (s : MdnsService)
      → s.running ≡ true
      → IsConsistent (then_start c accepts (stop c accepts s)).1
  unfolding start stop
  restart-IsConsistent s r = ground arith

  advertise_node-IsConsistent :
      (n : Option Node) (s : MdnsService)
      → IsConsistent s
      → IsConsistent (advertise_node c accepts n s).1
  unfolding advertise_node
  advertise_node-IsConsistent none s h = h
  advertise_node-IsConsistent (some n) s h =
      ground (arith, restart-IsConsistent (set_txt (build_txt_records c n) s))

  -- In whatever order Start, Stop, Watch and AdvertiseNode are called on a new service, and whether or
  -- not its server can be made, the ticker runs exactly while the service is running, and exactly then
  -- the server announces, with the options that hold.
  pub Reaches-IsConsistent : (s : MdnsService) → Reaches c accepts s → IsConsistent s
  unfolding watch new_mdns_service
  Reaches-IsConsistent _ (made opts s e) =
      make_service-IsConsistent (apply_options default_service_config opts) _ s e
  Reaches-IsConsistent _ (started s r) = start-IsConsistent s (Reaches-IsConsistent s r)
  Reaches-IsConsistent _ (stopped s r) = stop-IsConsistent s (Reaches-IsConsistent s r)
  Reaches-IsConsistent _ (watching s r) = Reaches-IsConsistent s r
  Reaches-IsConsistent _ (advertised n s r) =
      advertise_node-IsConsistent n s (Reaches-IsConsistent s r)

  -- AdvertiseNode on a running service whose new server can be made returns no error, and the server then
  -- announces the node's records; but the context stays cancelled, so every discovery may end at once.
  pub advertise_node-running :
      (n : Node) (s : MdnsService)
      → let t = set_txt (build_txt_records c n) s in
        s.running ≡ true
        → accepts (zone_of t.options) ≡ true
        → advertise_node c accepts (some n) s ≡ (
          none,
          record t { cancelled = true; ticking = true; announced = some (zone_of t.options) },
        )
  unfolding advertise_node start stop
  advertise_node-running n s r a = ground arith
