-- ===== src/Http/Chaos/Flaky.antt =====
-- The rate of flakyHandler in internal/httpapi/chaos.go, and when it answers with an error.
use native.Mathlib.Nat.{pow-suc}
use projet_etude_app_demo.Prelude.{
  ℕ, ◌*◌, ◌^◌, ◌<◌, ◌≡◌, ◌↔◌, subst, true, false, Bool-cases, Bytes, str, [], ◌∷◌, All, length,
  some, Option-cases, inl, inr, arith,
}
use projet_etude_app_demo.Prelude.Base64.{IsByte}
use projet_etude_app_demo.Request.{Request, Chance}
use projet_etude_app_demo.Http.Exchange.{Exchange, http_error, write, write_header}
use projet_etude_app_demo.Http.Keeps.{end_of_flow}
use projet_etude_app_demo.Http.Input.{Platform, Float64, nan, infinite, finite}
use projet_etude_app_demo.Http.Chaos.{
  float_over_2_53, float_lt, little_endian, crypto_bits, crypto_float, clamp_rate, flaky_handler,
}

-- What package crypto/rand promises of its draws.
pub record DrawsWell (c : Chance) : Type 0 where
  pub below : (n : ℕ) → c.draw ≡ some n → n < 2 ^ 53
  pub bytes : All IsByte (c.bytes 8)
  pub eight : length (c.bytes 8) ≡ 8

little_endian-lt : (bs : Bytes) → All IsByte bs → little_endian bs < 256 ^ length bs
unfolding little_endian
little_endian-lt [] h = omega arith
little_endian-lt (b ∷ bs) (p, h) = omega (arith, pow-suc 256 (length bs), little_endian-lt bs h, p)

crypto_bits-lt : (c : Chance) → DrawsWell c → crypto_bits c < 2 ^ 53
unfolding crypto_bits
crypto_bits-lt c well = elim (Option-cases c.draw) [
  | inl failed ↦
      rw (failed, crypto_bits)
        (omega (
          arith,
          subst (λ k. little_endian (c.bytes 8) < 256 ^ k) well.eight
              (little_endian-lt (c.bytes 8) well.bytes),
        ))
  | inr (n, drawn) ↦ rw (drawn, crypto_bits) (well.below n drawn)
]

-- The draw over 2^53 is below the rate.
abbrev pub IsBelow : ℕ → Float64 → Type 0
IsBelow n nan = ⊥
IsBelow n (infinite true) = ⊥
IsBelow n (infinite false) = Unit
IsBelow n (finite true m e) = ⊥
IsBelow n (finite false m e) = n * 2 ^ 1021 < m * 2 ^ e

clamped_iff :
    (n : ℕ) (rate : Float64)
    → n < 2 ^ 53
    → (float_lt (float_over_2_53 n) (clamp_rate rate) ≡ true) ↔ IsBelow n rate
unfolding float_lt clamp_rate
clamped_iff n nan h = (λ e. cc, λ e. absurd e)
clamped_iff n (infinite true) h = (λ e. ground arith, λ e. absurd e)
clamped_iff n (infinite false) h = (λ e. tt, λ e. ground arith)
clamped_iff n (finite true m e) h = (λ e. ground arith, λ e. absurd e)
clamped_iff n (finite false m e) h = (λ e. ground arith, λ e. ground arith)

module _ (p : Platform) (r : Request) (x : Exchange) (fresh : x.recorded ≡ 200) where
  abbrev rate : Float64
  rate = p.parse_float (r.query (str "rate"))

  answered_iff :
      ((end_of_flow (flaky_handler p r x)).recorded ≡ 500)
      ↔ (float_lt (crypto_float r.chance) (clamp_rate rate) ≡ true)
  unfolding flaky_handler http_error write write_header
  answered_iff = (
    λ e. elim (Bool-cases (float_lt (crypto_float r.chance) (clamp_rate rate))) [
      | inl below ↦ below
      | inr above ↦ absurd (omega (arith, fresh, rw (above, flaky_handler) at e))
    ],
    λ e. rw (e, flaky_handler),
  )

  -- With a random source that keeps what crypto/rand promises, and a recorder that starts at 200,
  -- /api/flaky records 500 exactly if its draw over 2^53 is below the rate that the query gives;
  -- no draw is below nan, a negative rate or minus infinity, and every draw is below infinity.
  pub flaky_fails_iff :
      DrawsWell r.chance
      → ((end_of_flow (flaky_handler p r x)).recorded ≡ 500) ↔ IsBelow (crypto_bits r.chance) rate
  unfolding crypto_float
  flaky_fails_iff well =
      let (there, back) = clamped_iff (crypto_bits r.chance) rate (crypto_bits-lt r.chance well) in
      (λ e. there (answered_iff.0 e), λ e. answered_iff.1 (back e))
