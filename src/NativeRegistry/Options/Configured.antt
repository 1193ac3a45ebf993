-- ===== src/NativeRegistry/Options/Configured.antt =====
-- station/frame/core/plugin/native/registry/plugin.go: what the configuration decides.
use peers_touch_go.Prelude.{ℕ, Option, Str, ◌≡◌, arith}
use peers_touch_go.Prelude.Result.{ok}
use peers_touch_go.NativeRegistry.Options.{Options, Config, plugin_options}

module _ (parse_addr : Str → Option Str) (parse_duration : Str → Option ℕ) where
  -- Whatever the configuration says of `bootstrap-enable`, the plugin's options enable the bootstrap server
  -- exactly if `bootstrap-to-self` is set; and mDNS exactly if `mdns-enable` is.
  pub plugin_options-enabled :
      (c : Config) (o p : Options)
      → plugin_options parse_addr parse_duration c o ≡ ok p
      → (p.bootstrap_enable ≡ c.bootstrap_to_self) × (p.mdns_enable ≡ c.mdns_enable)
  unfolding plugin_options
  plugin_options-enabled c o p h = ground arith
