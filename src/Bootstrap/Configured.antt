-- ===== src/Bootstrap/Configured.antt =====
-- station/frame/core/plugin/native/subserver/bootstrap: options.go, and what plugin.go makes of the
-- configuration. Durations are nanoseconds; one that is negative or past an int64 is not modelled.
use peers_touch_go.Prelude.{
  ℕ, ◌*◌, ◌^◌, Bool, List, [], ◌∷◌, ◌++◌, append-nil, append_assoc, Option, none, some, Str, ◌≡◌,
  ◌∙◌, refl, arith,
}
use peers_touch_go.Prelude.Result.{Result, ok, err, ◌>>=◌}
use peers_touch_go.Bootstrap.Lifecycle.{Error, listen_address_invalid, cons_parsed, parse_all}

pub record Options : Type 0 where
  pub enabled : Bool
  pub enable_mdns : Bool
  pub identity_key : Option Str
  pub listen_addrs : List Str
  pub bootstrap_nodes : List Str
  pub dht_refresh_interval : ℕ
  pub private_key : Option Str
  pub listen_multi_addrs : List Str

abbrev pub Setting : Type 0
Setting = Options → Options

abbrev pub with_identity_key : Option Str → Setting
with_identity_key k o = record o { identity_key = k }

abbrev pub with_listen_addrs : List Str → Setting
with_listen_addrs l o = record o { listen_addrs = o.listen_addrs ++ l }

abbrev pub with_mdns : Bool → Setting
with_mdns b o = record o { enable_mdns = b }

abbrev pub with_enabled : Bool → Setting
with_enabled b o = record o { enabled = b }

abbrev pub with_bootstrap_nodes : List Str → Setting
with_bootstrap_nodes l o = record o { bootstrap_nodes = o.bootstrap_nodes ++ l }

abbrev pub with_dht_refresh_interval : ℕ → Setting
with_dht_refresh_interval d o = record o { dht_refresh_interval = d }

abbrev pub with_private_key : Option Str → Setting
with_private_key k o = record o { private_key = k }

abbrev pub with_listen_multi_addrs : List Str → Setting
with_listen_multi_addrs l o = record o { listen_multi_addrs = l }

abbrev pub apply_all : List Setting → Setting
apply_all [] o = o
apply_all (f ∷ l) o = apply_all l (f o)

-- `bootstrapOptions`, what the configuration holds; the interval is in seconds.
pub record Config : Type 0 where
  pub enabled : Bool
  pub enable_mdns : Bool
  pub identity_key : Str
  pub listen_addrs : List Str
  pub bootstrap_nodes : List Str
  pub dht_refresh_interval : ℕ

abbrev pub second : ℕ
second = 10 ^ 9

module _ (new_multiaddr : Str → Option Str) where
  abbrev pub cons_node : Option Str → Result Error (List Setting) → Result Error (List Setting)
  cons_node none rest = err listen_address_invalid
  cons_node (some a) rest = rest >>= λ l. ok (with_bootstrap_nodes (a ∷ []) ∷ l)

  -- The loop over the nodes, with what follows it; an address that is not one is a panic.
  unfoldable pub node_settings : List Setting → List Str → Result Error (List Setting)
  node_settings after [] = ok after
  node_settings after (n ∷ ns) = cons_node (new_multiaddr n) (node_settings after ns)

  unfoldable pub plugin_options : Config → Result Error (List Setting)
  unfolding node_settings
  plugin_options c =
      node_settings (with_dht_refresh_interval (c.dht_refresh_interval * second) ∷ [])
        c.bootstrap_nodes
      >>= λ l. ok (with_enabled c.enabled ∷ with_listen_addrs c.listen_addrs ∷ l)

  -- `New`: the options of the caller, then those of the configuration.
  unfoldable pub new_options : List Setting → Config → Options → Result Error Options
  unfolding plugin_options
  new_options opts c o = plugin_options c >>= λ l. ok (apply_all (opts ++ l) o)

  apply_all-append :
      (l m : List Setting) (o : Options) → apply_all (l ++ m) o ≡ apply_all m (apply_all l o)
  apply_all-append [] m o = refl
  apply_all-append (f ∷ l) m o = apply_all-append l m (f o)

  abbrev with_nodes : ℕ → Options → List Str → Options
  with_nodes d o nodes = record o {
    bootstrap_nodes = o.bootstrap_nodes ++ nodes;
    dht_refresh_interval = d;
  }

  abbrev run : Options → List Setting → Result Error Options
  run o l = ok (apply_all l o)

  abbrev prepend : Setting → List Setting → Result Error (List Setting)
  prepend f l = ok (f ∷ l)

  run_late :
      (opts : List Setting) (f g : Setting) (o : Options) (r : Result Error (List Setting))
      → ((r >>= λ l. prepend f (g ∷ l)) >>= λ l. run o (opts ++ l))
        ≡ (r >>= run (g (f (apply_all opts o))))
  run_late opts f g o (ok l) = rw (apply_all-append opts (f ∷ g ∷ l) o) refl
  run_late opts f g o (err e) = refl

  cons_nodes :
      (d : ℕ) (a : Str) (o : Options) (r : Result Error (List Setting))
      (q : Result Error (List Str))
      → (r >>= run (with_bootstrap_nodes (a ∷ []) o))
        ≡ (q >>= λ nodes. ok (with_nodes d (with_bootstrap_nodes (a ∷ []) o) nodes))
      → ((r >>= prepend (with_bootstrap_nodes (a ∷ []))) >>= run o)
        ≡ ((q >>= λ l. ok (a ∷ l)) >>= λ nodes. ok (with_nodes d o nodes))
  cons_nodes d a o (ok l) (ok m) h = rw h (rw append_assoc refl)
  cons_nodes d a o (ok l) (err e) h = absurd (ground arith)
  cons_nodes d a o (err e) (ok m) h = absurd (ground arith)
  cons_nodes d a o (err e) (err f) h = ground arith

  cons_parsed_nodes :
      (d : ℕ) (ns : List Str) (o : Options) (p : Option Str)
      → ((o : Options)
          → (node_settings (with_dht_refresh_interval d ∷ []) ns >>= run o)
            ≡ (parse_all new_multiaddr ns >>= λ nodes. ok (with_nodes d o nodes)))
      → (cons_node p (node_settings (with_dht_refresh_interval d ∷ []) ns) >>= run o)
        ≡ (cons_parsed p (parse_all new_multiaddr ns) >>= λ nodes. ok (with_nodes d o nodes))
  cons_parsed_nodes d ns o none ih = refl
  cons_parsed_nodes d ns o (some a) ih = cons_nodes d a o _ _ (ih (with_bootstrap_nodes (a ∷ []) o))

  apply_nodes :
      (d : ℕ) (ns : List Str) (o : Options)
      → (node_settings (with_dht_refresh_interval d ∷ []) ns >>= run o)
        ≡ (parse_all new_multiaddr ns >>= λ nodes. ok (with_nodes d o nodes))
  unfolding node_settings parse_all
  apply_nodes d [] o = rw append-nil
  apply_nodes d (n ∷ ns) o = cons_parsed_nodes d ns o (new_multiaddr n) (apply_nodes d ns)

  -- The configuration, after the options of the caller, sets whether the server is enabled and the
  -- interval, and adds the addresses and the nodes, each of which must be an address. Nothing else of it
  -- is read: whether mDNS is enabled and the key stay what the caller made them.
  pub new_options_lem :
      (opts : List Setting) (c : Config) (o : Options)
      → new_options opts c o ≡ (
          parse_all new_multiaddr c.bootstrap_nodes >>= λ nodes.
          let p = apply_all opts o in
          ok (record p {
            enabled = c.enabled;
            listen_addrs = p.listen_addrs ++ c.listen_addrs;
            bootstrap_nodes = p.bootstrap_nodes ++ nodes;
            dht_refresh_interval = c.dht_refresh_interval * second;
          }))
  unfolding new_options plugin_options
  new_options_lem opts c o =
      run_late opts (with_enabled c.enabled) (with_listen_addrs c.listen_addrs) o (
        node_settings (with_dht_refresh_interval (c.dht_refresh_interval * second) ∷ [])
          c.bootstrap_nodes)
      ∙ apply_nodes (c.dht_refresh_interval * second) c.bootstrap_nodes _
