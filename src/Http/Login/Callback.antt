-- ===== src/Http/Login/Callback.antt =====
-- CallbackHandler of internal/auth/login.go: what it answers, and what its cookie is worth later.
use projet_etude_app_demo.Prelude.{
  ◌≤◌, ◌≡◌, refl, sym, ◌∙◌, ap, subst, if◌then◌else◌, ◌⊎◌, inl, inr, Bool, true, false, not, Bytes,
  str, [], ◌∷◌, ◌++◌, append_assoc, Option, none, some, arith,
}
use projet_etude_app_demo.Request.{Request}
use projet_etude_app_demo.Auth.{Idp, IdToken, seal_cookie}
use projet_etude_app_demo.Store.Exec.{Result, ok, err}
use projet_etude_app_demo.Http.Exchange.{
  Header, set_cookie, location, Exchange, http_error, write_header, write, add_header, redirect,
}
use projet_etude_app_demo.Http.Input.{Oauth}
use projet_etude_app_demo.Http.Login.{
  Login, state_cookie_name, session_cookie, cleared, auth_disabled, verified, exchanged,
  state_matches, callback_handler,
}
use projet_etude_app_demo.Http.Keeps.{end_of_flow}

add_header_fresh :
    (h : Header) (x : Exchange)
    → x.wire ≡ none
    → add_header h x ≡ record x { headers = x.headers ++ h ∷ [] }
unfolding add_header
add_header_fresh h x fresh =
    rw (fresh, add_header) (ap (λ w. record x { wire = w; headers = x.headers ++ h ∷ [] }) fresh)

-- An error answer: no header but, at most, the one that clears the cookie of the state.
pub record IsTurnedAway (before after : Exchange) : Type 0 where
  pub status : 400 ≤ after.recorded
  pub headers :
      (after.headers ≡ before.headers)
      ⊎ (after.headers ≡ before.headers ++ set_cookie (cleared state_cookie_name) ∷ [])

-- A session: the state is that of the cookie, the code was exchanged for an id_token that the provider
-- verifies, and the cookie seals that token.
pub record IsLoggedIn (l : Login) (oauth : Oauth) (idp : Idp) (hmac : Bytes → Bytes → Bytes)
    (r : Request) (before after : Exchange) : Type 0 where
  pub raw : Bytes
  pub token : IdToken
  pub state : state_matches r ≡ true
  pub code : oauth.exchange (r.query (str "code")) ≡ ok (some raw)
  pub vouched : idp.verify raw ≡ ok token
  pub status : after.recorded ≡ 302
  pub headers :
      after.headers
      ≡ before.headers
        ++ set_cookie (cleared state_cookie_name)
          ∷ set_cookie (session_cookie r (seal_cookie hmac l.cfg.session_key raw))
          ∷ location (str "/")
          ∷ []

module _ (l : Login) (oauth : Oauth) (idp : Idp) (hmac : Bytes → Bytes → Bytes) (r : Request)
    (x : Exchange) (fresh : x.wire ≡ none) where
  abbrev Outcome : Exchange → Type 0
  Outcome y = IsLoggedIn l oauth idp hmac r x y ⊎ IsTurnedAway x y

  abbrev unstated : Exchange
  unstated = record x { headers = x.headers ++ set_cookie (cleared state_cookie_name) ∷ [] }

  verified-Outcome :
      (raw : Bytes)
      → state_matches r ≡ true
      → oauth.exchange (r.query (str "code")) ≡ ok (some raw)
      → (v : Result IdToken) → idp.verify raw ≡ v
      → Outcome (verified l hmac r raw v unstated)
  unfolding http_error write write_header redirect
  verified-Outcome raw state code (err e) v =
      inr (record { status = omega arith; headers = inr refl })
  verified-Outcome raw state code (ok tok) v = inl (record {
    raw = raw;
    token = tok;
    state = state;
    code = code;
    vouched = v;
    status = refl;
    headers =
        ap (λ (y : Exchange). (add_header (location (str "/")) y).headers)
          (add_header_fresh _ unstated fresh)
        ∙ ap (λ (y : Exchange). y.headers) (add_header_fresh (location (str "/")) _ fresh)
        ∙ ap (λ hs. hs ++ location (str "/") ∷ []) (append_assoc x.headers _ _)
        ∙ append_assoc x.headers _ _;
  })

  exchanged-Outcome :
      (t : Result (Option Bytes))
      → state_matches r ≡ true
      → oauth.exchange (r.query (str "code")) ≡ t
      → Outcome (exchanged l idp hmac r t unstated)
  unfolding http_error write write_header
  exchanged-Outcome (err e) state code = inr (record { status = omega arith; headers = inr refl })
  exchanged-Outcome (ok none) state code = inr (record { status = omega arith; headers = inr refl })
  exchanged-Outcome (ok (some raw)) state code =
      verified-Outcome raw state code (idp.verify raw) refl

  answer-Outcome :
      (enabled matches : Bool)
      → state_matches r ≡ matches
      → Outcome (
          if not enabled
          then auth_disabled x
          else if not matches
          then http_error (str "bad state\n") 400 x
          else exchanged l idp hmac r
              (oauth.exchange (r.query (str "code")))
              (add_header (set_cookie (cleared state_cookie_name)) x))
  unfolding http_error write write_header
  answer-Outcome false matches e = inr (record { status = omega arith; headers = inl refl })
  answer-Outcome true false e = inr (record { status = omega arith; headers = inl refl })
  answer-Outcome true true e =
      subst (λ y. Outcome (exchanged l idp hmac r (oauth.exchange (r.query (str "code"))) y))
        (sym (add_header_fresh (set_cookie (cleared state_cookie_name)) x fresh))
        (exchanged-Outcome (oauth.exchange (r.query (str "code"))) e refl)

  -- Before a status is sent, CallbackHandler answers in one of two ways. It sets the session
  -- cookie and redirects, if the state of the query is that of the cookie and the code is
  -- exchanged for an id_token that the provider verifies; the cookie seals that token. Or it
  -- answers 400 or more, and sets no cookie but, at most, the one that deletes the state.
  pub callback_handler-Outcome : Outcome (end_of_flow (callback_handler l oauth idp hmac r x))
  unfolding callback_handler
  callback_handler-Outcome = answer-Outcome l.cfg.enabled (state_matches r) refl
