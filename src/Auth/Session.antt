-- ===== src/Auth/Session.antt =====
-- The session cookie of internal/auth/session.go.
use projet_etude_app_demo.Prelude.{
  ◌≡◌, ◌≢◌, refl, sym, ◌∙◌, ap, ◌==◌, false, inl, inr, Bytes, str_eq_iff, str_eq_refl,
  split_at_byte, [], ◌∷◌, ◌++◌, All, some, Option-cases, arith, ℕ,
}
use projet_etude_app_demo.Prelude.Base64
use projet_etude_app_demo.Prelude.Base64.{IsByte, encode-NoDot, decode-encode}
use projet_etude_app_demo.Auth.{seal_cookie, check_signature, unseal_parts, unseal_cookie}

split-append :
    (sep : ℕ) (s t : Bytes)
    → All (λ c. (c == sep) ≡ false) s
    → split_at_byte sep (s ++ sep ∷ t) ≡ some (s, t)
unfolding split_at_byte
split-append sep [] t h = ground arith
split-append sep (c ∷ s) t (p, h) = rw (p, split-append sep s t h)

split_at_byte-append :
    (sep : ℕ) (s a b : Bytes) → split_at_byte sep s ≡ some (a, b) → s ≡ a ++ sep ∷ b
unfolding split_at_byte
split_at_byte-append sep [] a b h = cc
split_at_byte-append sep (c ∷ s) a b h = elim (Option-cases (split_at_byte sep s)) [
  | inl missing ↦ ground (arith, missing)
  | inr ((front, back), found) ↦ ground (arith, found, split_at_byte-append sep s front back found)
]

module _ (hmac : Bytes → Bytes → Bytes) where
  -- With a key that is not empty, unsealing a sealed token of bytes gives back the token.
  pub unseal-seal :
      (key token : Bytes)
      → key ≢ []
      → All IsByte token
      → unseal_cookie hmac key (seal_cookie hmac key token) ≡ some token
  unfolding unseal_cookie seal_cookie
  unseal-seal [] token set bytes = absurd (set refl)
  unseal-seal (k ∷ key) token set bytes =
      rw
        (
          split-append b'.' (Base64.encode token) (Base64.encode (hmac (k ∷ key) token))
              (encode-NoDot token bytes),
          unseal_cookie,
        )
        (rw (decode-encode token bytes, unseal_parts)
          (rw (str_eq_refl (Base64.encode (hmac (k ∷ key) token)))))

  signed :
      (key t signature token : Bytes)
      → check_signature hmac key t signature ≡ some token
      → (t ≡ token) × (Base64.encode (hmac key t) ≡ signature)
  signed key t signature token h = ground (arith, str_eq_iff (Base64.encode (hmac key t)) signature)

  -- A cookie is accepted only under a key that is not empty, and only if what stands behind its
  -- first dot is the seal of the token that is read from what stands in front of it.
  pub unseal_sound :
      (key value token : Bytes)
      → unseal_cookie hmac key value ≡ some token
      → (key ≢ [])
        × (front : Bytes) × (value ≡ front ++ b'.' ∷ Base64.encode (hmac key token))
        × (Base64.decode front ≡ some token)
  unfolding unseal_cookie
  unseal_sound [] value token h = cc
  unseal_sound (k ∷ key) value token h = elim (Option-cases (split_at_byte b'.' value)) [
    | inl missing ↦ cc (rw (missing, unseal_cookie) at h)
    | inr ((front, back), found) ↦ elim (Option-cases (Base64.decode front)) [
      | inl bad ↦ cc (rw (found, bad, unseal_cookie, unseal_parts) at h)
      | inr (t, good) ↦
          let (same, seal) =
            signed (k ∷ key) t back token (rw (found, good, unseal_cookie, unseal_parts) at h) in
          (
            λ e. cc,
            front,
            split_at_byte-append b'.' value front back found
                ∙ ap (λ b. front ++ b'.' ∷ b)
                    (sym seal ∙ ap (λ u. Base64.encode (hmac (k ∷ key) u)) same),
            good ∙ ap some same,
          )
    ]
  ]
