-- ===== src/Auth.antt =====
-- internal/auth/auth.go and internal/auth/session.go. The OIDC provider is the parameter `Idp`, and
-- HMAC-SHA256 the parameter `hmac`.
pub mod Session
pub mod Roles
pub mod Access
use projet_etude_app_demo.Prelude.{
  ℕ, Bool, true, false, not, ◌&&◌, ◌||◌, Bytes, str, str_eq, is_empty, cut_prefix, split_at_byte,
  split_all, trim_space, List, [], ◌∷◌, ◌++◌, Option, none, some, if◌then◌else◌,
}
use projet_etude_app_demo.Prelude.Base64
use projet_etude_app_demo.Request.{
  Role, anonymous, viewer, operator, Principal, Context, Request, with_principal,
}
use projet_etude_app_demo.Store.Exec.{Error, message, driver, Result, ok, err}

unfoldable pub authenticated : Principal → Bool
authenticated p = elim p.role [ anonymous ↦ false | _ ↦ true ]

unfoldable pub can_read : Principal → Bool
can_read p = elim p.role [ anonymous ↦ false | viewer ↦ true | operator ↦ true ]

unfoldable pub can_mutate : Principal → Bool
can_mutate p = elim p.role [ operator ↦ true | _ ↦ false ]

abbrev pub nobody : Principal
nobody = record { sub = str "anonymous"; email = []; role = anonymous }

-- principalFromCtx
unfoldable pub principal_from : Context → Principal
principal_from c = elim c.principal [ none ↦ nobody | some p ↦ p ]

pub record Config : Type 0 where
  pub issuer_url : Bytes
  pub client_id : Bytes
  pub client_secret : Bytes
  pub redirect_url : Bytes
  pub viewer_group : Bytes
  pub operator_group : Bytes
  pub operator_emails : List Bytes
  pub session_key : Bytes
  pub enabled : Bool

abbrev pub or_default : Bytes → Bytes → Bytes
or_default [] d = d
or_default (c ∷ s) d = c ∷ s

-- The loop over strings.Split(v, ","): blanks round an address are dropped, and so are empty ones.
unfoldable pub trimmed_emails : List Bytes → List Bytes
trimmed_emails [] = []
trimmed_emails (e ∷ es) =
    if is_empty (trim_space e) then trimmed_emails es else trim_space e ∷ trimmed_emails es

unfoldable pub parse_emails : Bytes → List Bytes
unfolding trimmed_emails
parse_emails v = if is_empty v then [] else trimmed_emails (split_all b',' [] v)

-- `env` is os.Getenv.
unfoldable pub config_from_env : (Bytes → Bytes) → Config
unfolding parse_emails
config_from_env env = record {
  issuer_url = env (str "OIDC_ISSUER_URL");
  client_id = env (str "OIDC_CLIENT_ID");
  client_secret = env (str "OIDC_CLIENT_SECRET");
  redirect_url = env (str "OIDC_REDIRECT_URL");
  viewer_group = or_default (env (str "OIDC_VIEWER_GROUP")) (str "viewers");
  operator_group = or_default (env (str "OIDC_OPERATOR_GROUP")) (str "operators");
  operator_emails = parse_emails (env (str "OIDC_OPERATOR_EMAILS"));
  session_key = env (str "SESSION_KEY");
  enabled =
      not (is_empty (env (str "OIDC_ISSUER_URL"))) && not (is_empty (env (str "OIDC_CLIENT_ID")));
}

-- The claims that the program reads of an ID token, and the token's subject.
pub record Claims : Type 0 where
  pub email : Bytes
  pub groups : List Bytes

pub record IdToken : Type 0 where
  pub subject : Bytes
  pub claims : Result Claims

-- oidc.NewProvider, and the Verify of the verifier that it gives for a client.
pub record Idp : Type 0 where
  pub discover : Bytes → Result (Unit {0})
  pub verify : Bytes → Result IdToken

-- `has_verifier` is `verifier != nil`.
pub record Authenticator : Type 0 where
  pub cfg : Config
  pub has_verifier : Bool

unfoldable pub new : Idp → Config → Result Authenticator
new idp cfg =
    if cfg.enabled
    then (elim (idp.discover cfg.issuer_url) [
      | err e ↦ err e
      | ok _ ↦ ok (record { cfg = cfg; has_verifier = true })
    ])
    else ok (record { cfg = cfg; has_verifier = false })

unfoldable pub contains : List Bytes → Bytes → Bool
contains [] needle = false
contains (h ∷ hs) needle = str_eq h needle || contains hs needle

abbrev pub is_nil : List Bytes → Bool
is_nil [] = true
is_nil (_ ∷ _) = false

-- The `switch` of verifyAndMap.
unfoldable pub role_of : Config → Claims → Role
unfolding contains
role_of cfg claims =
    if contains claims.groups cfg.operator_group
    then operator
    else if contains claims.groups cfg.viewer_group
    then viewer
    else if is_nil claims.groups
    then (if contains cfg.operator_emails claims.email then operator else viewer)
    else anonymous

abbrev pub authorized : Bytes → Bytes → Role → Result Principal
authorized sub email anonymous = err (message (str "user has no authorized group"))
authorized sub email viewer = ok (record { sub = sub; email = email; role = viewer })
authorized sub email operator = ok (record { sub = sub; email = email; role = operator })

unfoldable pub principal_of_token : Config → IdToken → Result Principal
unfolding role_of
principal_of_token cfg tok = elim tok.claims [
  | err e ↦ err e
  | ok claims ↦ authorized tok.subject claims.email (role_of cfg claims)
]

unfoldable pub verify_and_map : Idp → Authenticator → Bytes → Result Principal
unfolding principal_of_token
verify_and_map idp a raw =
    if a.has_verifier
    then (elim (idp.verify raw) [ err e ↦ err e | ok tok ↦ principal_of_token a.cfg tok ])
    else err (message (str "auth disabled"))

abbrev pub session_cookie_name : Bytes
session_cookie_name = str "app_session"

-- <token>.<sig>, both in base64.
unfoldable pub seal_cookie : (Bytes → Bytes → Bytes) → Bytes → Bytes → Bytes
seal_cookie hmac key token = Base64.encode token ++ b'.' ∷ Base64.encode (hmac key token)

-- The test of the signature, once the token is decoded.
abbrev pub check_signature : (Bytes → Bytes → Bytes) → Bytes → Bytes → Bytes → Option Bytes
check_signature hmac key token signature =
    if str_eq (Base64.encode (hmac key token)) signature then some token else none

unfoldable pub unseal_parts : (Bytes → Bytes → Bytes) → Bytes → Bytes → Bytes → Option Bytes
unseal_parts hmac key token signature = elim (Base64.decode token) [
  | none ↦ none
  | some t ↦ check_signature hmac key t signature
]

unfoldable pub unseal_cookie : (Bytes → Bytes → Bytes) → Bytes → Bytes → Option Bytes
unfolding unseal_parts
unseal_cookie hmac [] value = none
unseal_cookie hmac (k ∷ key) value = elim (split_at_byte b'.' value) [
  | none ↦ none
  | some (token, signature) ↦ unseal_parts hmac (k ∷ key) token signature
]

-- The token of the session cookie, if there is one and its seal is good.
abbrev pub session_token : (Bytes → Bytes → Bytes) → Bytes → Option Bytes → Option Bytes
session_token hmac key none = none
session_token hmac key (some value) = unseal_cookie hmac key value

-- A bearer token is the only credential that is looked at, if there is one.
unfoldable pub principal_from_request :
    Idp → (Bytes → Bytes → Bytes) → Authenticator → Request → Result Principal
unfolding verify_and_map
principal_from_request idp hmac a r =
    elim (cut_prefix (str "Bearer ") (r.header (str "Authorization"))) [
      | some token ↦ verify_and_map idp a token
      | none ↦ elim (session_token hmac a.cfg.session_key (r.cookie session_cookie_name)) [
        | some token ↦ verify_and_map idp a token
        | none ↦ err (message (str "no credentials"))
      ]
    ]

abbrev pub dev : Principal
dev = record { sub = str "dev"; email = []; role = operator }

abbrev pub or_nobody : Result Principal → Principal
or_nobody (ok p) = p
or_nobody (err e) = nobody

-- The principal that Middleware puts into the context of a request.
unfoldable pub resolved : Idp → (Bytes → Bytes → Bytes) → Authenticator → Request → Principal
unfolding principal_from_request
resolved idp hmac a r =
    if a.cfg.enabled then or_nobody (principal_from_request idp hmac a r) else dev

-- Middleware: what the next handler is given.
unfoldable pub middleware : Idp → (Bytes → Bytes → Bytes) → Authenticator → Request → Request
unfolding resolved with_principal
middleware idp hmac a r = with_principal (resolved idp hmac a r) r

-- What RequireRead and RequireMutate do with a request: the status that they answer with, or none if
-- the handler runs.
unfoldable pub read_denial : Principal → Option ℕ
unfolding authenticated can_read
read_denial p =
    if not (authenticated p) then some 401 else if not (can_read p) then some 403 else none

unfoldable pub mutate_denial : Principal → Option ℕ
unfolding authenticated can_mutate
mutate_denial p =
    if not (authenticated p) then some 401 else if not (can_mutate p) then some 403 else none
