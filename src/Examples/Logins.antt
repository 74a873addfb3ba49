-- ===== src/Examples/Logins.antt =====
-- A login: the callback, and a request that comes back with its cookie.
use projet_etude_app_demo.Prelude.{
  ◌≡◌, ◌⊎◌, refl, Bytes, str, str_eq, cut_prefix, [], ◌∷◌, Option, some, none, if◌then◌else◌, arith,
}
use projet_etude_app_demo.Request.{Request}
use projet_etude_app_demo.Auth.{
  IdToken, seal_cookie, session_cookie_name, resolved, or_nobody, principal_of_token,
}
use projet_etude_app_demo.Store.Exec.{ok}
use projet_etude_app_demo.Http.Keeps.{end_of_flow}
use projet_etude_app_demo.Http.Login.{Login, callback_handler, state_cookie_name}
use projet_etude_app_demo.Http.Login.Callback.{IsLoggedIn, IsTurnedAway, callback_handler-Outcome}
use projet_etude_app_demo.Http.Login.Later.{logged_in_round_trip}
use projet_etude_app_demo.Examples.{platform, idp, hmac, config, authenticator, exchange, request}

abbrev login : Login
login = record { cfg = config }

unfoldable state_cookies : Bytes → Option Bytes
unfolding str_eq
state_cookies name = if str_eq name state_cookie_name then some (str "s") else none

unfoldable callback_query : Bytes → Bytes
unfolding str_eq
callback_query name = if str_eq name (str "state") then str "s" else str "alice"

abbrev back_from_idp : Request
back_from_idp = record request { cookie = state_cookies; query = callback_query }

callback_handler-Outcome_example :
    let y = end_of_flow (callback_handler login platform.oauth idp hmac back_from_idp exchange) in
    IsLoggedIn login platform.oauth idp hmac back_from_idp exchange y ⊎ IsTurnedAway exchange y
callback_handler-Outcome_example =
    callback_handler-Outcome login platform.oauth idp hmac back_from_idp exchange refl

unfoldable sealed_cookies : Bytes → Bytes → Option Bytes
unfolding str_eq
sealed_cookies key name =
    if str_eq name session_cookie_name then some (seal_cookie hmac key (str "tok")) else none

abbrev logged_in : Bytes → Request
logged_in key = record request { header = λ name. []; cookie = sealed_cookies key }

abbrev token : IdToken
token = record {
  subject = str "tok";
  claims = ok (record { email = str "a@b"; groups = str "viewers" ∷ [] });
}

logged_in_round_trip_example :
    resolved idp hmac authenticator (logged_in (str "key"))
    ≡ or_nobody (principal_of_token config token)
unfolding sealed_cookies str_eq cut_prefix
logged_in_round_trip_example =
    logged_in_round_trip idp hmac authenticator (logged_in (str "key")) (str "tok") token
      (record { enabled = refl; no_bearer = refl; cookie = refl }) refl (λ e. cc)
      (omega arith, (omega arith, (omega arith, tt))) refl
