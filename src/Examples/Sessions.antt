-- ===== src/Examples/Sessions.antt =====
-- The theorems on sessions and roles, with a bearer token and a sealed cookie.
use mathlib.Core.List.{Memᴰ}
use projet_etude_app_demo.Prelude.{
  ◌≡◌, ◌≢◌, ◌↔◌, refl, Bytes, str, [], ◌∷◌, ◌++◌, none, some, true, arith, cut_prefix, str_eq,
}
use projet_etude_app_demo.Prelude.Base64
use projet_etude_app_demo.Request.{operator, anonymous, viewer}
use projet_etude_app_demo.Auth.{
  Claims, seal_cookie, unseal_cookie, role_of, resolved, mutate_denial, authenticated, can_mutate,
  Authenticator, principal_from_request, verify_and_map, principal_of_token, contains,
}
use projet_etude_app_demo.Auth.Session.{unseal-seal, unseal_sound}
use projet_etude_app_demo.Auth.Roles.{MayOperate, role_of_iff}
use projet_etude_app_demo.Auth.Access.{
  IsVouched, presented, resolved-IsVouched, mutate_denial_sound,
}
use projet_etude_app_demo.Examples.{idp, hmac, config, authenticator, request, headers}

abbrev cookie : Bytes
cookie = seal_cookie hmac (str "key") (str "tok")

unseal-seal_example : unseal_cookie hmac (str "key") cookie ≡ some (str "tok")
unseal-seal_example =
    unseal-seal hmac (str "key") (str "tok") (λ e. cc)
      (omega arith, (omega arith, (omega arith, tt)))

opened : unseal_cookie hmac (str "key") cookie ≡ some (str "tok")
opened =
    unseal-seal hmac (str "key") (str "tok") (λ e. cc)
      (omega arith, (omega arith, (omega arith, tt)))

unseal_sound_example :
    (str "key" ≢ [])
    × (front : Bytes) × (cookie ≡ front ++ b'.' ∷ Base64.encode (hmac (str "key") (str "tok")))
    × (Base64.decode front ≡ some (str "tok"))
unseal_sound_example = unseal_sound hmac (str "key") cookie (str "tok") opened

abbrev ungrouped : Claims
ungrouped = record { email = str "a@b"; groups = [] }

role_of_iff_example :
    ((role_of config ungrouped ≡ operator) ↔ MayOperate config ungrouped)
    × ((role_of config ungrouped ≡ anonymous) ↔ (
        (ungrouped.groups ≢ [])
        × (¬ Memᴰ config.operator_group ungrouped.groups)
        × (¬ Memᴰ config.viewer_group ungrouped.groups)))
role_of_iff_example = role_of_iff config ungrouped

resolved_viewer : (resolved idp hmac authenticator request).role ≡ viewer
unfolding headers resolved principal_from_request verify_and_map principal_of_token role_of contains
    cut_prefix str_eq
resolved_viewer = refl

resolved-IsVouched_example :
    IsVouched idp config (presented hmac config request) (resolved idp hmac authenticator request)
resolved-IsVouched_example =
    resolved-IsVouched idp hmac authenticator request refl (λ e. cc (resolved_viewer, e))

-- The same provider for a configuration whose operators are the viewers' group.
abbrev wide : Authenticator
wide = record { cfg = record config { operator_group = str "viewers" }; has_verifier = true }

free_operator : mutate_denial (resolved idp hmac wide request) ≡ none
unfolding headers mutate_denial authenticated can_mutate resolved principal_from_request
    verify_and_map principal_of_token role_of contains cut_prefix str_eq
free_operator = refl

mutate_denial_sound_example :
    (v : IsVouched idp wide.cfg (presented hmac wide.cfg request) (resolved idp hmac wide request))
    × MayOperate wide.cfg v.claims
mutate_denial_sound_example = mutate_denial_sound idp hmac wide request refl free_operator
