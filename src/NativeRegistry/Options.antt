-- ===== src/NativeRegistry/Options.antt =====
-- station/frame/core/plugin/native/registry: options.go, and what plugin.go makes of the configuration.
-- Durations are nanoseconds; a negative one is not modelled.
pub mod Configured
use peers_touch_go.Prelude.{
  ℕ, ◌*◌, ◌^◌, Bool, true, false, List, [], ◌∷◌, ◌++◌, Option, none, some, Str, codes, ltb, ◌==◌,
  if◌then◌else◌, length, ◌≡◌,
}
use peers_touch_go.Prelude.Result.{Result, ok, err, ◌>>=◌}

-- The registry's options with the native ones; those that nothing sets are left out. The mode 0 is
-- `ModeAuto`.
pub record Options : Type 0 where
  pub run_mode : ℕ
  pub identity_key_file : Str
  pub bootstrap_node_retry_times : ℕ
  pub bootstrap_refresh_interval : ℕ
  pub bootstrap_nodes : List Str
  pub relay_nodes : List Str
  pub mdns_enable : Bool
  pub bootstrap_enable : Bool
  pub bootstrap_listen_addrs : List Str
  pub interval : ℕ
  pub connect_timeout : ℕ

-- A run-time panic: of an address, or of a duration.
pub data Panic : Type 0 where
  invalid_address invalid_duration : Panic

abbrev pub Setting : Type 0
Setting = Options → Result Panic Options

module _ (parse_addr : Str → Option Str) where
  abbrev pub add_parsed : Option Str → Options → Result Panic Options
  add_parsed none o = err invalid_address
  add_parsed (some a) o = ok (record o { bootstrap_nodes = o.bootstrap_nodes ++ a ∷ [] })

  unfoldable pub with_bootstrap_nodes : List Str → Setting
  with_bootstrap_nodes [] o = ok o
  with_bootstrap_nodes (b ∷ l) o =
      (if ltb (length b) 10 then ok o else add_parsed (parse_addr b) o) >>= λ p.
      with_bootstrap_nodes l p

  abbrev pub add_relay : Option Str → Options → Result Panic Options
  add_relay none o = err invalid_address
  add_relay (some a) o = ok (record o { relay_nodes = o.relay_nodes ++ a ∷ [] })

  unfoldable pub with_relay_nodes : List Str → Setting
  with_relay_nodes [] o = ok o
  with_relay_nodes (b ∷ l) o = add_relay (parse_addr b) o >>= λ p. with_relay_nodes l p

abbrev pub with_mdns_enable : Bool → Setting
with_mdns_enable b o = ok (record o { mdns_enable = b })

abbrev pub with_bootstrap_enable : Bool → Setting
with_bootstrap_enable b o = ok (record o { bootstrap_enable = b })

abbrev pub with_bootstrap_listen_addrs : List Str → Setting
with_bootstrap_listen_addrs l o =
    ok (record o { bootstrap_listen_addrs = o.bootstrap_listen_addrs ++ l })

abbrev pub with_running_mode : ℕ → Setting
with_running_mode m o = ok (record o { run_mode = m })

abbrev pub with_bootstrap_node_retry_times : ℕ → Setting
with_bootstrap_node_retry_times n o = ok (record o { bootstrap_node_retry_times = n })

abbrev pub with_bootstrap_refresh_interval : ℕ → Setting
with_bootstrap_refresh_interval n o = ok (record o { bootstrap_refresh_interval = n })

abbrev pub with_identity_key_file : Str → Setting
with_identity_key_file s o = ok (record o { identity_key_file = s })

abbrev pub with_interval : ℕ → Setting
with_interval n o = ok (record o { interval = n })

abbrev pub with_connect_timeout : ℕ → Setting
with_connect_timeout n o = ok (record o { connect_timeout = n })

-- `configOptions`, with the mode of the run; the settings of TURN are left out.
pub record Config : Type 0 where
  pub connect_timeout : Str
  pub interval : Str
  pub bootstrap_nodes : List Str
  pub bootstrap_refresh_interval : Str
  pub bootstrap_node_retry_times : ℕ
  pub mdns_enable : Bool
  pub bootstrap_enable : Bool
  pub bootstrap_to_self : Bool
  pub bootstrap_listen_addrs : List Str
  pub identity_key_file : Str
  pub run_mode : ℕ

-- `time.ParseDuration` of what is given.
abbrev pub parsed_duration : Option ℕ → Result Panic ℕ
parsed_duration none = err invalid_duration
parsed_duration (some d) = ok d

abbrev pub duration_or : (Str → Option ℕ) → ℕ → Str → Result Panic ℕ
duration_or parse default [] = ok default
duration_or parse default (c ∷ s) = parsed_duration (parse (c ∷ s))

abbrev pub key_file_or_default : Str → Str
key_file_or_default [] = codes "libp2pIdentity.key"
key_file_or_default (c ∷ s) = c ∷ s

module _ (parse_addr : Str → Option Str) (parse_duration : Str → Option ℕ) where
  -- The options that the plugin makes, applied in their order to what there is. A duration is parsed
  -- while they are made, hence before any is applied.
  unfoldable pub plugin_options : Config → Setting
  unfolding with_bootstrap_nodes
  plugin_options c o = duration_or parse_duration (180 * 10 ^ 9) c.interval >>= λ interval.
      duration_or parse_duration (2 * 10 ^ 9) c.bootstrap_refresh_interval >>= λ refresh.
      duration_or parse_duration (10 * 10 ^ 9) c.connect_timeout >>= λ timeout.
      (if c.run_mode == 0 then ok o else with_running_mode c.run_mode o) >>= λ a.
      with_bootstrap_nodes parse_addr c.bootstrap_nodes a >>= λ b.
      with_bootstrap_node_retry_times
        (if c.bootstrap_node_retry_times == 0 then 5 else c.bootstrap_node_retry_times) b
      >>= λ d. with_interval interval d >>= λ e. with_bootstrap_refresh_interval refresh e >>= λ f.
          with_connect_timeout timeout f >>= λ g.
          with_bootstrap_enable c.bootstrap_enable g >>= λ h.
          with_bootstrap_enable c.bootstrap_to_self h >>= λ i.
          with_bootstrap_listen_addrs c.bootstrap_listen_addrs i >>= λ j.
          with_mdns_enable c.mdns_enable j >>= λ k.
          with_identity_key_file (key_file_or_default c.identity_key_file) k
