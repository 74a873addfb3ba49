-- ===== src/Store/Jobs/Backoff.antt =====
-- The delay before a retry, in FailJob of internal/store/jobs.go.
use native.Mathlib.Nat.{pow-suc}
use projet_etude_app_demo.Prelude.{
  ℕ, zero, suc, ◌+◌, ◌-◌, ◌*◌, ◌%◌, ◌^◌, ◌≤◌, min, ◌≡◌, refl, ◌∙◌, ap, subst, dec_lt, ℤ, pos,
  negsuc, is_nat, ltb_ℤ, word_mod, true, arith, holds_below, true_of_holds_below,
}
use projet_etude_app_demo.Store.Jobs.{backoff_duration, second}

pos_of_is_nat : (z : ℤ) (m : ℕ) → is_nat z m ≡ true → z ≡ pos m
pos_of_is_nat (pos n) m h = ground arith
pos_of_is_nat (negsuc n) m h = cc

-- 2^attempts seconds, at most five minutes.
abbrev pub capped : ℕ → ℕ
capped attempts = min (2 ^ attempts) 300 * second

small_table : holds_below (λ a. is_nat (backoff_duration a) (capped a)) 34 ≡ true
unfolding holds_below backoff_duration
small_table = refl

wrapped_table : holds_below (λ k. is_nat (backoff_duration (k + 55)) 0) 9 ≡ true
unfolding holds_below backoff_duration
wrapped_table = refl

pow_wraps : (k : ℕ) → 2 ^ (k + 64) % word_mod ≡ 0
pow_wraps zero = refl
pow_wraps (suc k) =
    let e : 2 ^ (suc k + 64) ≡ 2 ^ (k + 64) * 2 = ap (◌^◌ 2) (shift k) ∙ pow-suc 2 (k + 64) in
    omega (arith, e, pow_wraps k)
  where
    shift : (k : ℕ) → suc k + 64 ≡ suc (k + 64)
    shift k = omega arith

vanishes_above : (k : ℕ) → backoff_duration (k + 64) ≡ pos 0
unfolding backoff_duration
vanishes_above k = rw (pow_wraps k) refl

-- Up to the 33rd attempt the delay before a retry is exact: 2^attempts seconds, and five minutes
-- from the ninth on.
pub backoff_exact :
    (attempts : ℕ) → attempts ≤ 33 → backoff_duration attempts ≡ pos (capped attempts)
backoff_exact attempts h = pos_of_is_nat (backoff_duration attempts) (capped attempts) (
    true_of_holds_below (λ a. is_nat (backoff_duration a) (capped a)) 34 attempts (omega arith)
      small_table)

-- At the 34th the product wraps round to a negative delay.
pub backoff_negative : ltb_ℤ (backoff_duration 34) (pos 0) ≡ true
unfolding backoff_duration
backoff_negative = refl

-- From the 55th attempt on the delay before a retry wraps round to no delay at all.
pub backoff_vanishes : (attempts : ℕ) → 55 ≤ attempts → backoff_duration attempts ≡ pos 0
backoff_vanishes attempts h = elim (dec_lt attempts 64) [
  | yes below ↦
      subst (λ n. backoff_duration n ≡ pos 0) (omega arith)
        (pos_of_is_nat (backoff_duration (attempts - 55 + 55)) 0 (
          true_of_holds_below (λ k. is_nat (backoff_duration (k + 55)) 0) 9 (attempts - 55)
            (omega arith) wrapped_table))
  | no above ↦
      subst (λ n. backoff_duration n ≡ pos 0) (omega arith) (vanishes_above (attempts - 64))
]
