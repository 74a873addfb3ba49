-- ===== src/Http/Chaos/Work.antt =====
-- The loop of workHandler in internal/httpapi/handlers.go, and the byte that it answers.
use projet_etude_app_demo.Prelude.{
  ℕ, zero, suc, ◌+◌, ◌*◌, ◌%◌, ◌/◌, ◌<◌, ◌==◌, ==_iff, ◌≡◌, refl, sym, ◌∙◌, ap, holds_below,
  true_of_holds_below, true, arith,
}
use projet_etude_app_demo.Http.Chaos.{work_step, times, spun}

-- The same step on one byte.
abbrev pub byte_step : ℕ → ℕ
byte_step b = (b * 109 + 57) % 256

work_step-byte : (x : ℕ) → work_step x % 256 ≡ byte_step (x % 256)
work_step-byte x = omega arith

times-byte : (n x : ℕ) → times n work_step x % 256 ≡ times n byte_step (x % 256)
unfolding times
times-byte zero x = refl
times-byte (suc n) x = times-byte n (work_step x) ∙ ap (times n byte_step) (work_step-byte x)

times_of_eq : (n m : ℕ) (f : ℕ → ℕ) (x : ℕ) → n ≡ m → times n f x ≡ times m f x
times_of_eq n m f x e = ap (λ k. times k f x) e

times-add : (n m : ℕ) (f : ℕ → ℕ) (x : ℕ) → times (n + m) f x ≡ times m f (times n f x)
unfolding times
times-add zero m f x = times_of_eq (0 + m) m f x (omega arith)
times-add (suc n) m f x =
    times_of_eq (suc n + m) (suc (n + m)) f x (omega arith) ∙ times-add n m f (f x)

full_cycle : holds_below (λ b. times 256 byte_step b == b) 256 ≡ true
unfolding holds_below times
full_cycle = refl

times_cycle : (k r b : ℕ) → b < 256 → times (k * 256 + r) byte_step b ≡ times r byte_step b
times_cycle zero r b h = times_of_eq (0 * 256 + r) r byte_step b (omega arith)
times_cycle (suc k) r b h =
    times_of_eq (suc k * 256 + r) (256 + (k * 256 + r)) byte_step b (omega arith)
    ∙ times-add 256 (k * 256 + r) byte_step b
    ∙ ap (times (k * 256 + r) byte_step) (
        (==_iff (times 256 byte_step b) b).0
          (true_of_holds_below (λ b. times 256 byte_step b == b) 256 b h full_cycle))
    ∙ times_cycle k r b h

times_mod : (n b : ℕ) → b < 256 → times n byte_step b ≡ times (n % 256) byte_step b
times_mod n b h =
    times_of_eq n (n / 256 * 256 + n % 256) byte_step b (omega arith)
    ∙ times_cycle (n / 256) (n % 256) b h

batch-byte : (x : ℕ) → times 10000 work_step x % 256 ≡ times 16 byte_step (x % 256)
batch-byte x = times-byte 10000 x ∙ times_mod 10000 (x % 256) (omega arith)

batches-byte :
    (n x : ℕ) → times n (λ y. times 10000 work_step y) x % 256 ≡ times (n * 16) byte_step (x % 256)
unfolding times
batches-byte zero x = refl
batches-byte (suc n) x =
    batches-byte n (times 10000 work_step x)
    ∙ ap (times (n * 16) byte_step) (batch-byte x)
    ∙ sym (times-add 16 (n * 16) byte_step (x % 256))
    ∙ times_of_eq (16 + n * 16) (suc n * 16) byte_step (x % 256) (omega arith)

-- The low byte that /work answers after any number of batches is that of as many single-byte steps
-- as sixteen times the number of batches leaves modulo 256.
pub spun-byte : (batches : ℕ) → spun batches % 256 ≡ times (batches * 16 % 256) byte_step 0
unfolding spun
spun-byte batches = batches-byte batches 0 ∙ times_mod (batches * 16) 0 (omega arith)
