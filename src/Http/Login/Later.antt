-- ===== src/Http/Login/Later.antt =====
-- The session cookie of internal/auth/login.go, in a later request: CallbackHandler seals it, and
-- Middleware of internal/auth/auth.go opens it.
use projet_etude_app_demo.Prelude.{◌≡◌, ◌≢◌, true, Bytes, str, [], All, cut_prefix, none, some}
use projet_etude_app_demo.Prelude.Base64.{IsByte}
use projet_etude_app_demo.Request.{Request}
use projet_etude_app_demo.Auth.{
  Idp, IdToken, Authenticator, seal_cookie, session_cookie_name, principal_of_token,
  principal_from_request, verify_and_map, resolved, or_nobody,
}
use projet_etude_app_demo.Auth.Session.{unseal-seal}
use projet_etude_app_demo.Store.Exec.{ok}

module _ (idp : Idp) (hmac : Bytes → Bytes → Bytes) (a : Authenticator) (r : Request)
    (raw : Bytes) where
  -- The request shows the sealed cookie, and no bearer token.
  pub record Returns : Type 0 where
    pub enabled : a.cfg.enabled ≡ true
    pub no_bearer : cut_prefix (str "Bearer ") (r.header (str "Authorization")) ≡ none
    pub cookie : r.cookie session_cookie_name ≡ some (seal_cookie hmac a.cfg.session_key raw)

  -- With authentication on, a key that is not empty and a verifier, a later request that shows the
  -- session cookie of a token and no bearer token has the principal of that token, if the provider
  -- still verifies it.
  pub logged_in_round_trip :
      (token : IdToken)
      → Returns
      → a.has_verifier ≡ true
      → a.cfg.session_key ≢ []
      → All IsByte raw
      → idp.verify raw ≡ ok token
      → resolved idp hmac a r ≡ or_nobody (principal_of_token a.cfg token)
  unfolding resolved principal_from_request verify_and_map cut_prefix
  logged_in_round_trip token back verifier key bytes vouched = rw (
    back.enabled,
    back.no_bearer,
    back.cookie,
    unseal-seal hmac a.cfg.session_key raw key bytes,
    verifier,
    vouched,
    resolved,
  )
