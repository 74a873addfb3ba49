-- ===== src/Auth/Roles.antt =====
-- The roles that the claims of a token give, in internal/auth/auth.go.
use mathlib.Core.List.{Memᴰ}
use projet_etude_app_demo.Prelude.{
  ◌≡◌, ◌≢◌, ◌↔◌, refl, sym, ◌⊎◌, inl, inr, true, false, Bool-cases, Bytes, str_eq, str_eq_iff, List,
  [], ◌∷◌, arith,
}
use projet_etude_app_demo.Request.{anonymous, operator}
use projet_etude_app_demo.Auth.{Config, Claims, contains, is_nil, role_of}

mem_of_contains : (hs : List Bytes) (needle : Bytes) → contains hs needle ≡ true → Memᴰ needle hs
unfolding contains
mem_of_contains [] needle h = cc
mem_of_contains (x ∷ hs) needle h = elim (Bool-cases (str_eq x needle)) [
  | inl same ↦ Memᴰ.head (sym ((str_eq_iff x needle).0 same))
  | inr differs ↦ Memᴰ.tail (mem_of_contains hs needle (rw (differs, contains) at h))
]

contains_of_mem : (hs : List Bytes) (needle : Bytes) → Memᴰ needle hs → contains hs needle ≡ true
unfolding contains
contains_of_mem [] needle m = elim m [ ]
contains_of_mem (x ∷ hs) needle (Memᴰ.head e) = ground (arith, str_eq_iff x needle, e)
contains_of_mem (x ∷ hs) needle (Memᴰ.tail m) = ground (arith, contains_of_mem hs needle m)

-- Who is an operator, and who is nobody, in terms of the claims.
abbrev pub MayOperate : Config → Claims → Type 0
MayOperate cfg claims =
    Memᴰ cfg.operator_group claims.groups
    ⊎ ((claims.groups ≡ []) × Memᴰ claims.email cfg.operator_emails)

nil_of_is_nil : (l : List Bytes) → is_nil l ≡ true → l ≡ []
nil_of_is_nil [] h = refl
nil_of_is_nil (x ∷ l) h = cc

none_in_nil :
    (l : List Bytes) (needle : Bytes) → l ≡ [] → (contains l needle ≡ false) × (is_nil l ≡ true)
unfolding contains
none_in_nil [] needle e = (refl, refl)
none_in_nil (x ∷ l) needle e = cc

module _ (cfg : Config) (claims : Claims) where
  operator_sound : role_of cfg claims ≡ operator → MayOperate cfg claims
  unfolding role_of
  operator_sound h = elim (Bool-cases (contains claims.groups cfg.operator_group)) [
    | inl member ↦ inl (mem_of_contains claims.groups cfg.operator_group member)
    | inr outside ↦ inr (
      nil_of_is_nil claims.groups (ground arith),
      mem_of_contains cfg.operator_emails claims.email (ground arith),
    )
  ]

  operator_complete : MayOperate cfg claims → role_of cfg claims ≡ operator
  unfolding role_of
  operator_complete (inl m) = ground (arith, contains_of_mem claims.groups cfg.operator_group m)
  operator_complete (inr (e, m)) = ground (
    arith,
    none_in_nil claims.groups cfg.operator_group e,
    none_in_nil claims.groups cfg.viewer_group e,
    contains_of_mem cfg.operator_emails claims.email m,
  )

  -- The claims of a token give the role of an operator exactly if they have the operator group, or
  -- if they have no group at all and their address is on the list.
  pub role_of-operator_iff : (role_of cfg claims ≡ operator) ↔ MayOperate cfg claims
  role_of-operator_iff = (operator_sound, operator_complete)

  -- The claims of a token give no role exactly if they have groups, and neither of the two that
  -- are configured.
  pub role_of-anonymous_iff : (role_of cfg claims ≡ anonymous) ↔ (
      (claims.groups ≢ [])
      × (¬ Memᴰ cfg.operator_group claims.groups)
      × (¬ Memᴰ cfg.viewer_group claims.groups))
  unfolding role_of
  role_of-anonymous_iff = (
    λ h. (
      λ e. ground (arith, none_in_nil claims.groups cfg.operator_group e),
      λ m. ground (arith, contains_of_mem claims.groups cfg.operator_group m),
      λ m. ground (arith, contains_of_mem claims.groups cfg.viewer_group m),
    ),
    λ (some_group, not_operator, not_viewer). outside some_group not_operator not_viewer,
  )
    where
      outside :
          claims.groups ≢ []
          → ¬ Memᴰ cfg.operator_group claims.groups
          → ¬ Memᴰ cfg.viewer_group claims.groups
          → role_of cfg claims ≡ anonymous
      outside some_group not_operator not_viewer =
          elim (Bool-cases (contains claims.groups cfg.operator_group)) [
            | inl member ↦
                absurd (not_operator (mem_of_contains claims.groups cfg.operator_group member))
            | inr no_operator ↦ elim (Bool-cases (contains claims.groups cfg.viewer_group)) [
              | inl member ↦
                  absurd (not_viewer (mem_of_contains claims.groups cfg.viewer_group member))
              | inr no_viewer ↦ elim (Bool-cases (is_nil claims.groups)) [
                | inl nil ↦ absurd (some_group (nil_of_is_nil claims.groups nil))
                | inr full ↦ ground arith
              ]
            ]
          ]

  -- The claims of a token give the role of an operator exactly if they have the operator group, or
  -- if they have no group at all and their address is on the list; they give no role exactly if
  -- they have groups, and neither of the two that are configured.
  pub role_of_iff :
      ((role_of cfg claims ≡ operator) ↔ MayOperate cfg claims)
      × ((role_of cfg claims ≡ anonymous) ↔ (
          (claims.groups ≢ [])
          × (¬ Memᴰ cfg.operator_group claims.groups)
          × (¬ Memᴰ cfg.viewer_group claims.groups)))
  role_of_iff = (role_of-operator_iff, role_of-anonymous_iff)
