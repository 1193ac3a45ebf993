-- ===== src/Bootstrap.antt =====
-- station/frame/core/plugin/native/subserver/bootstrap: the rows of peers and of their connections (the
-- package model). The rows of host_notifee.go, savePeerInfo of store.go and the rest stand below.
pub mod Connections
pub mod Configured
pub mod Kept
pub mod Lifecycle
mod Tests
use peers_touch_go.Prelude.{ℕ, Bool, Str, ◌==◌, if◌then◌else◌}

-- The field IsActive, which nothing sets, is left out.
pub record PeerInfo : Type 0 where
  pub id : ℕ
  pub peer_id : Str
  pub first_seen_at : ℕ
  pub last_seen_at : ℕ

-- A time that is not set is 0. The fields that are no columns are left out.
pub record ConnectionInfo : Type 0 where
  pub id : ℕ
  pub peer_id : Str
  pub ipv4 : Str
  pub ipv6 : Str
  pub direction : Str
  pub local_multi_addr : Str
  pub remote_multi_addr : Str
  pub connected_at : ℕ
  pub disconnected_at : ℕ
  pub is_active : Bool

-- `BeforeCreate` of each of the two.
unfoldable pub before_create_peer : ℕ → PeerInfo → PeerInfo
before_create_peer next_id p = if p.id == 0 then record p { id = next_id } else p

unfoldable pub before_create_connection : ℕ → ConnectionInfo → ConnectionInfo
before_create_connection next_id c = if c.id == 0 then record c { id = next_id } else c
