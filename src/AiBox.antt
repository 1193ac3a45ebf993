-- ===== src/AiBox.antt =====
-- station/app/subserver/ai-box: the rows of providers (db/models), and their form in an answer
-- (convertToProto of service/provider_service.go). encoding/json is a parameter. An int32 is its 32 bits.
pub mod Service
pub mod Kept
pub mod Pages
pub mod Handlers
mod Tests
use peers_touch_go.Prelude.{
  ℕ, ◌+◌, ◌-◌, ◌*◌, ◌%◌, ◌^◌, Bool, true, false, ◌||◌, Option, none, some, Str, codes, str_eq, ltb,
  [], if◌then◌else◌,
}
use peers_touch_go.Prelude.Int.{ℤ, pos, negsuc}
use peers_touch_go.Prelude.Dict.{Dict}

pub record Provider : Type 0 where
  pub id : Str
  pub name : Str
  pub peers_user_id : Str
  pub sort : ℕ
  pub enabled : Bool
  pub check_model : Str
  pub logo : Str
  pub description : Str
  pub key_vaults : Str
  pub source_type : Str
  pub settings : Str
  pub config : Str
  pub accessed_at : ℕ
  pub created_at : ℕ
  pub updated_at : ℕ

pub record ProviderConfig : Type 0 where
  pub api_key : Str
  pub endpoint : Str
  pub proxy_url : Str
  pub timeout : ℕ
  pub max_retries : ℕ
  pub custom_config : Dict Str

pub record AiProvider : Type 0 where
  pub id : Str
  pub name : Str
  pub display_name : Str
  pub enabled : Bool
  pub description : Str
  pub logo : Str
  pub sort : ℕ
  pub config : ProviderConfig
  pub created_at : ℕ
  pub updated_at : ℕ

pub record Json : Type 0 where
  pub marshal : ProviderConfig → Option Str
  pub unmarshal : Str → Option ProviderConfig

abbrev pub int32_mod : ℕ
int32_mod = 2 ^ 32

-- The number that 32 bits stand for.
abbrev pub to_int : ℕ → ℤ
to_int n = if ltb n (2 ^ 31) then pos n else negsuc (int32_mod - n - 1)

abbrev pub default_config : ProviderConfig
default_config = record {
  api_key = [];
  endpoint = [];
  proxy_url = [];
  timeout = 30;
  max_retries = 3;
  custom_config = [];
}

abbrev pub or_default : Option ProviderConfig → ProviderConfig
or_default none = default_config
or_default (some c) = c

abbrev pub no_config : Str → Bool
unfolding str_eq
no_config s = str_eq s [] || str_eq s (codes "{}")

module _ (j : Json) where
  unfoldable pub read_config : Str → ProviderConfig
  unfolding str_eq
  read_config s = if no_config s then default_config else or_default (j.unmarshal s)

  -- The five fields that are copied.
  abbrev pub copied : ProviderConfig → ProviderConfig
  copied c = record c { custom_config = [] }

  unfoldable pub convert_to_proto : Provider → AiProvider
  unfolding read_config
  convert_to_proto p = record {
    id = p.id;
    name = p.name;
    display_name = p.name;
    enabled = p.enabled;
    description = p.description;
    logo = p.logo;
    sort = p.sort % int32_mod;
    config = copied (read_config p.config);
    created_at = p.created_at;
    updated_at = p.updated_at;
  }
