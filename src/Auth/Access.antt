-- ===== src/Auth/Access.antt =====
-- Principals and the guards in internal/auth/auth.go.

use projet_etude_app_demo.Prelude.{
  ◌≡◌, ◌≢◌, ◌↔◌, refl, sym, ap, subst, ◌∙◌, ◌⊎◌, inl, inr, true, Bool-cases, Bytes, str, cut_prefix,
  Option, none, some, Option-cases, arith,
}
use projet_etude_app_demo.Request.{Role, anonymous, viewer, operator, Principal, Request}
use projet_etude_app_demo.Store.Exec.{Result, ok, err, Error}
use projet_etude_app_demo.Auth.{
  Config, Claims, IdToken, Idp, Authenticator, role_of, authorized, principal_of_token,
  verify_and_map, session_cookie_name, session_token, principal_from_request, nobody, resolved,
  read_denial, mutate_denial,
}
use projet_etude_app_demo.Auth.Roles.{MayOperate, role_of-operator_iff}

-- The credential that a request presents: the bearer token, or else the token of a sealed cookie.
abbrev pub presented : (Bytes → Bytes → Bytes) → Config → Request → Option Bytes
presented hmac cfg r = elim (cut_prefix (str "Bearer ") (r.header (str "Authorization"))) [
  | some token ↦ some token
  | none ↦ session_token hmac cfg.session_key (r.cookie session_cookie_name)
]

-- Where a principal with rights comes from.
pub record IsVouched (idp : Idp) (cfg : Config) (presented : Option Bytes) (p : Principal)
    : Type 0 where
  pub raw : Bytes
  pub shown : presented ≡ some raw
  pub token : IdToken
  pub verified : idp.verify raw ≡ ok token
  pub claims : Claims
  pub decoded : token.claims ≡ ok claims
  pub sub : p.sub ≡ token.subject
  pub email : p.email ≡ claims.email
  pub role : p.role ≡ role_of cfg claims

authorized-eq-ok :
    (sub email : Bytes) (role : Role) (p : Principal)
    → authorized sub email role ≡ ok p
    → (p.sub ≡ sub) × (p.email ≡ email) × (p.role ≡ role)
authorized-eq-ok sub email anonymous p h = cc
authorized-eq-ok sub email viewer p h = ground arith
authorized-eq-ok sub email operator p h = ground arith

Result-cases {ℓ} :
    {A : Type ℓ} (r : Result A) → ((a : A) × (r ≡ ok a)) ⊎ ((e : Error) × (r ≡ err e))
Result-cases (ok a) = inl (a, refl)
Result-cases (err e) = inr (e, refl)

module _ (idp : Idp) (hmac : Bytes → Bytes → Bytes) (a : Authenticator) (r : Request) where
  abbrev shown : Option Bytes
  shown = presented hmac a.cfg r

  verify-IsVouched :
      (raw : Bytes) (p : Principal)
      → shown ≡ some raw
      → verify_and_map idp a raw ≡ ok p
      → IsVouched idp a.cfg shown p
  unfolding verify_and_map principal_of_token
  verify-IsVouched raw p s h = elim (Bool-cases a.has_verifier) [
    | inr missing ↦ cc (rw (missing, verify_and_map) at h)
    | inl set ↦ elim (Result-cases (idp.verify raw)) [
      | inr (e, bad) ↦ cc (rw (set, bad, verify_and_map) at h)
      | inl (tok, good) ↦ elim (Result-cases tok.claims) [
        | inr (e, bad) ↦ cc (rw (set, good, bad, verify_and_map, principal_of_token) at h)
        | inl (claims, decoded) ↦
            let (sub, email, role) =
              authorized-eq-ok tok.subject claims.email (role_of a.cfg claims) p
                (rw (set, good, decoded, verify_and_map, principal_of_token) at h) in
            record {
              raw = raw;
              shown = s;
              token = tok;
              verified = good;
              claims = claims;
              decoded = decoded;
              sub = sub;
              email = email;
              role = role;
            }
      ]
    ]
  ]

  from_request-IsVouched :
      (p : Principal) → principal_from_request idp hmac a r ≡ ok p → IsVouched idp a.cfg shown p
  unfolding principal_from_request cut_prefix
  from_request-IsVouched p h =
      elim (Option-cases (cut_prefix (str "Bearer ") (r.header (str "Authorization")))) [
        | inr (raw, bearer) ↦
            verify-IsVouched raw p (rw bearer) (rw (bearer, principal_from_request) at h)
        | inl no_bearer ↦
            elim (Option-cases
              (session_token hmac a.cfg.session_key (r.cookie session_cookie_name))) [
                | inr (raw, sealed) ↦
                    verify-IsVouched raw p (rw (no_bearer, sealed))
                      (rw (no_bearer, sealed, principal_from_request) at h)
                | inl nothing ↦ cc (rw (no_bearer, nothing, principal_from_request) at h)
              ]
      ]

  resolved_of_ok :
      (p : Principal)
      → a.cfg.enabled ≡ true
      → principal_from_request idp hmac a r ≡ ok p
      → resolved idp hmac a r ≡ p
  unfolding resolved
  resolved_of_ok p on e = ground arith

  resolved_of_err :
      (e : Error)
      → a.cfg.enabled ≡ true
      → principal_from_request idp hmac a r ≡ err e
      → resolved idp hmac a r ≡ nobody
  unfolding resolved
  resolved_of_err e on failed = ground arith

  -- With authentication on, a principal that is not anonymous comes from a token that the provider
  -- verified: its subject, its address and the role of its claims.
  pub resolved-IsVouched :
      a.cfg.enabled ≡ true
      → (resolved idp hmac a r).role ≢ anonymous
      → IsVouched idp a.cfg shown (resolved idp hmac a r)
  resolved-IsVouched on known = elim (Result-cases (principal_from_request idp hmac a r)) [
    | inl (p, e) ↦
        subst (IsVouched idp a.cfg shown) (sym (resolved_of_ok p on e)) (from_request-IsVouched p e)
    | inr (e, failed) ↦
        absurd (known (ap (λ (p : Principal). p.role) (resolved_of_err e on failed)))
  ]

  -- With authentication on, RequireMutate lets a request through only if the claims of a verified
  -- token that the request shows make its bearer an operator.
  pub mutate_denial_sound :
      a.cfg.enabled ≡ true
      → mutate_denial (resolved idp hmac a r) ≡ none
      → (v : IsVouched idp a.cfg shown (resolved idp hmac a r)) × MayOperate a.cfg v.claims
  unfolding mutate_denial
  mutate_denial_sound on free =
      let is_operator : (resolved idp hmac a r).role ≡ operator = ground (arith, free) in
      let v = resolved-IsVouched on (λ e. ground (arith, is_operator, e)) in
      (v, (role_of-operator_iff a.cfg v.claims).0 (sym v.role ∙ is_operator))

pub Role-cases : (r : Role) → (r ≡ anonymous) ⊎ ((r ≡ viewer) ⊎ (r ≡ operator))
Role-cases anonymous = inl refl
Role-cases viewer = inr (inl refl)
Role-cases operator = inr (inr refl)

-- RequireRead lets through every principal that is not anonymous and RequireMutate exactly the
-- operators; an anonymous principal gets 401 from both, and a viewer 403 from RequireMutate.
pub denials :
    (p : Principal)
    → ((read_denial p ≡ none) ↔ (p.role ≢ anonymous))
      × ((mutate_denial p ≡ none) ↔ (p.role ≡ operator))
      × ((p.role ≡ anonymous) → (read_denial p ≡ some 401) × (mutate_denial p ≡ some 401))
      × ((p.role ≡ viewer) → mutate_denial p ≡ some 403)
unfolding read_denial mutate_denial
denials p = (
  (
    λ h e. ground arith,
    λ h. elim (Role-cases p.role) [ inl e ↦ absurd (h e) | inr e ↦ ground arith ],
  ),
  (λ h. ground arith, λ h. ground arith),
  λ h. (ground arith, ground arith),
  λ h. ground arith,
)
