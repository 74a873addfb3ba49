-- ===== src/Http/Login.antt =====
-- internal/auth/login.go. oauth2 is the parameter `Oauth`, the provider and its verifier `Idp`.
pub mod Callback
pub mod Later
use projet_etude_app_demo.Prelude.{
  Bool, true, false, not, ◌&&◌, Bytes, str, str_eq, is_empty, [], ◌++◌, Option, none, some, pos,
  negsuc, if◌then◌else◌,
}
use projet_etude_app_demo.Prelude.Base64
use projet_etude_app_demo.Request.{Request, is_https}
use projet_etude_app_demo.Auth.{Config, Idp, IdToken, seal_cookie, session_cookie_name}
use projet_etude_app_demo.Store.Exec.{Result, ok, err, error_text}
use projet_etude_app_demo.Http.Exchange.{
  Cookie, Header, set_cookie, location, Exchange, returned, Handler, http_error, add_header,
  redirect,
}
use projet_etude_app_demo.Http.Input.{Oauth}

-- Login: `oauth` and `verifier` are set exactly if OIDC is enabled.
pub record Login : Type 0 where
  pub cfg : Config

unfoldable pub new_login : Idp → Config → Result Login
new_login idp cfg =
    if cfg.enabled
    then (elim (idp.discover cfg.issuer_url) [ err e ↦ err e | ok _ ↦ ok (record { cfg = cfg }) ])
    else ok (record { cfg = cfg })

abbrev pub state_cookie_name : Bytes
state_cookie_name = str "app_oidc_state"

abbrev pub state_cookie : Request → Bytes → Cookie
state_cookie r state = record {
  name = state_cookie_name;
  value = state;
  path = str "/";
  http_only = true;
  secure = is_https r;
  same_site_lax = true;
  max_age = pos 300;
}

abbrev pub session_cookie : Request → Bytes → Cookie
session_cookie r sealed = record {
  name = session_cookie_name;
  value = sealed;
  path = str "/";
  http_only = true;
  secure = is_https r;
  same_site_lax = true;
  max_age = pos 3600;
}

abbrev pub cleared : Bytes → Cookie
cleared name = record {
  name = name;
  value = [];
  path = str "/";
  http_only = false;
  secure = false;
  same_site_lax = false;
  max_age = negsuc 0;
}

unfoldable pub random_state : Request → Bytes
random_state r = Base64.encode (r.chance.bytes 16)

abbrev pub auth_disabled : Exchange → Exchange
auth_disabled x = http_error (str "auth disabled\n") 503 x

unfoldable pub start_handler : Login → Oauth → Handler
unfolding random_state http_error add_header redirect
start_handler l oauth r x =
    let state = random_state r in
    returned (
      if l.cfg.enabled
      then redirect (oauth.auth_code_url state) (add_header (set_cookie (state_cookie r state)) x)
      else auth_disabled x)

-- c.Value != "" && c.Value == r.URL.Query().Get("state")
abbrev pub same_state : Option Bytes → Bytes → Bool
same_state none state = false
same_state (some value) state = not (is_empty value) && str_eq value state

unfoldable pub state_matches : Request → Bool
unfolding str_eq
state_matches r = same_state (r.cookie state_cookie_name) (r.query (str "state"))

abbrev pub verified :
    Login → (Bytes → Bytes → Bytes) → Request → Bytes → Result IdToken → Exchange → Exchange
verified l hmac r raw (err e) x = http_error (str "verify: " ++ error_text e) 401 x
verified l hmac r raw (ok tok) x =
    redirect (str "/")
      (add_header (set_cookie (session_cookie r (seal_cookie hmac l.cfg.session_key raw))) x)

abbrev pub exchanged :
    Login → Idp → (Bytes → Bytes → Bytes) → Request → Result (Option Bytes) → Exchange → Exchange
exchanged l idp hmac r (err e) x = http_error (str "exchange: " ++ error_text e) 502 x
exchanged l idp hmac r (ok none) x = http_error (str "no id_token") 502 x
exchanged l idp hmac r (ok (some raw)) x = verified l hmac r raw (idp.verify raw) x

unfoldable pub callback_handler : Login → Oauth → Idp → (Bytes → Bytes → Bytes) → Handler
unfolding state_matches http_error add_header redirect seal_cookie
callback_handler l oauth idp hmac r x = returned (
    if not l.cfg.enabled
    then auth_disabled x
    else if not (state_matches r)
    then http_error (str "bad state\n") 400 x
    else exchanged l idp hmac r (oauth.exchange (r.query (str "code")))
        (add_header (set_cookie (cleared state_cookie_name)) x))

unfoldable pub logout_handler : Handler
unfolding add_header redirect
logout_handler r x =
    returned (redirect (str "/") (add_header (set_cookie (cleared session_cookie_name)) x))
