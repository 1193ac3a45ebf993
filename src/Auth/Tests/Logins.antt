-- ===== src/Auth/Tests/Logins.antt =====
-- A login of Ada's, with a session.
use peers_touch_go.Prelude.{true, [], ◌∷◌, some, codes, str_eq, ◌≡◌, refl}
use peers_touch_go.Prelude.Result.{ok}
use peers_touch_go.Session.{Actor}
use peers_touch_go.Auth.{found, authenticate}
use peers_touch_go.Auth.Login.{
  LoginReadings, SessionLoginResult, login_with_session, login_with_session_sound, hex, with_random,
  with_authenticated, login_provider,
}
use peers_touch_go.Auth.Tests.{ada, login, stamp, platform}

abbrev readings : LoginReadings
readings = record {
  access = stamp;
  refresh = stamp;
  created = 10;
  now = 10;
  seen = 10;
  set_at = 10;
}

abbrev logged_in : SessionLoginResult
logged_in = record {
  access_token = codes "token";
  refresh_token = codes "token";
  token_type = codes "Bearer";
  expires_at = 86400000000010;
  session_id = codes "0aff";
  user_id = ada.id;
  user_name = ada.name;
  user_email = ada.email;
}

ada_logs_in :
    login_with_session true platform readings
      (some (10 ∷ 255 ∷ []))
      login
      (codes "10.0.0.1")
      (codes "curl")
    ≡ ok logged_in
unfolding login_with_session with_authenticated platform authenticate hex with_random login_provider
    str_eq
ada_logs_in = refl

login_with_session_sound_example :
    (u : Actor) × (platform.find_by_email (codes "ada@example.org") ≡ found u)
    × (platform.password_matches u.password_hash (codes "pw") ≡ true)
    × (ada.id ≡ u.id)
    × (ada.email ≡ u.email)
login_with_session_sound_example =
    login_with_session_sound platform readings (some (10 ∷ 255 ∷ [])) login (codes "10.0.0.1")
      (codes "curl") logged_in ada_logs_in
