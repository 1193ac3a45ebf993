-- ===== src/Auth/Service.antt =====
-- station/frame/touch/auth/auth.go: `AuthService`, which hands calls to the provider of its default
-- method.
use peers_touch_go.Prelude.{◌≡◌, [], Option, none, some, Str, codes, arith, if◌then◌else◌, str_eq}
use peers_touch_go.Prelude.Result.{Result, err}
use peers_touch_go.Prelude.Dict
use peers_touch_go.Prelude.Dict.{Dict, get-put}
use peers_touch_go.Auth.{Credentials, AuthError, no_auth_provider, AuthResult, TokenInfo}

-- The methods that the service calls, each with the readings of its call fixed.
pub record AuthProvider : Type 0 where
  pub get_method : Str
  pub authenticate : Credentials → Result AuthError AuthResult
  pub validate_token : Str → Result AuthError TokenInfo

pub record AuthService : Type 0 where
  pub providers : Dict AuthProvider
  pub default_method : Str

abbrev pub auth_method_jwt : Str
auth_method_jwt = codes "jwt"

abbrev pub auth_method_oauth2 : Str
auth_method_oauth2 = codes "oauth2"

unfoldable pub new_auth_service : AuthService
new_auth_service = record { providers = []; default_method = auth_method_jwt }

unfoldable pub register_provider : AuthProvider → AuthService → AuthService
unfolding Dict.put
register_provider q s = record s { providers = Dict.put q.get_method q s.providers }

unfoldable pub get_provider : Str → AuthService → Option AuthProvider
unfolding Dict.get
get_provider method s = Dict.get method s.providers

unfoldable pub get_default_provider : AuthService → Option AuthProvider
unfolding Dict.get
get_default_provider s = Dict.get s.default_method s.providers

abbrev pub authenticate_with : Credentials → Option AuthProvider → Result AuthError AuthResult
authenticate_with c none = err no_auth_provider
authenticate_with c (some q) = q.authenticate c

unfoldable pub authenticate : Credentials → AuthService → Result AuthError AuthResult
unfolding get_default_provider
authenticate c s = authenticate_with c (get_default_provider s)

abbrev pub validate_with : Str → Option AuthProvider → Result AuthError TokenInfo
validate_with t none = err no_auth_provider
validate_with t (some q) = q.validate_token t

unfoldable pub validate_token : Str → AuthService → Result AuthError TokenInfo
unfolding get_default_provider
validate_token t s = validate_with t (get_default_provider s)

-- Registering a provider makes the service answer with it if its method is the default, and changes
-- no answer if it is not.
pub authenticate-register :
    (q : AuthProvider) (c : Credentials) (t : Str) (s : AuthService)
    → (authenticate c (register_provider q s)
        ≡ (if str_eq q.get_method s.default_method then q.authenticate c else authenticate c s))
      × (validate_token t (register_provider q s) ≡ (
          if str_eq q.get_method s.default_method then q.validate_token t else validate_token t s))
unfolding authenticate validate_token get_default_provider register_provider
authenticate-register q c t s = (
  ground (arith, get-put q.get_method s.default_method q s.providers),
  ground (arith, get-put q.get_method s.default_method q s.providers),
)
