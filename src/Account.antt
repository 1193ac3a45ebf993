-- ===== src/Account.antt =====
-- station/frame/touch: the parameters and the checks of an account (util/validation.go, model/actor.go,
-- model/profile.go), and signing up and logging in (actor/actor.go, and the ids of actor/profile.go).
pub mod Validation
pub mod ProfileChecks
pub mod Service
pub mod Profile
mod Tests
use peers_touch_go.Prelude.{Str}

pub record SignParams : Type 0 where
  pub name : Str
  pub email : Str
  pub password : Str

pub record LoginParams : Type 0 where
  pub email : Str
  pub password : Str
