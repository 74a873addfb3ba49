-- ===== src/Boot/Open.antt =====
-- Open of internal/dbutil/dbutil.go. pgxpool and the clock are parameters; times are nanoseconds since
-- the context of the pings and the deadline were set.
use projet_etude_app_demo.Prelude.{
  ℕ, zero, suc, ◌+◌, ◌*◌, ◌≤◌, ◌<◌, ltb, ◌≡◌, refl, inl, inr, Bool-cases, true, false, Bytes,
  Option, none, some, if◌then◌else◌, arith,
}
use projet_etude_app_demo.Store.Exec.{Error, Result, ok, err}
use projet_etude_app_demo.Worker.Steps.{Result-cases}

-- The fields of pgxpool.Config that Open sets, but the tracer.
pub record PoolConfig : Type 0 where
  pub dsn : Bytes
  pub max_conns : ℕ
  pub min_conns : ℕ
  pub max_conn_idle_time : ℕ

-- ParseConfig and NewWithConfig; what the n-th Ping answers, with a context that expires at a first
-- time, when it starts at a second one, and when it returns; and when the n-th Sleep returns, of a
-- duration and from a time.
pub record Driver : Type 0 where
  pub parse_config : Bytes → Result (Unit {0})
  pub new_with_config : PoolConfig → Result (Unit {0})
  pub ping : (expiry n at : ℕ) → Result (Unit {0}) × ℕ
  pub wake : (duration n at : ℕ) → ℕ

abbrev pub second : ℕ
second = 1000000000

-- The timeout of pingCtx, the deadline, and the sleep between two pings.
abbrev pub ping_timeout : ℕ
ping_timeout = 10 * second

abbrev pub deadline : ℕ
deadline = 30 * second

abbrev pub pause : ℕ
pause = 500000000

-- The pool, and when it was ready; or an error, whether a pool was closed, and when.
pub data Opened : Type 0 where
  opened : PoolConfig → ℕ → Opened
  rejected : Error → Opened
  gave_up : Error → ℕ → Opened

-- What follows a Ping that fails.
abbrev pub after_failure : Error → ℕ → Option Opened → Option Opened
after_failure e at rest = if ltb deadline at then some (gave_up e at) else rest

-- The loop, on fuel, before the n-th ping at a time.
unfoldable pub ping_loop : ℕ → Driver → PoolConfig → ℕ → ℕ → Option Opened
ping_loop zero d cfg n at = none
ping_loop (suc fuel) d cfg n at =
    let (r, end) = d.ping ping_timeout n at in
    let rest = ping_loop fuel d cfg (suc n) (d.wake pause n end) in
    elim r [ ok u ↦ some (opened cfg end) | err e ↦ after_failure e end rest ]

abbrev pub pool_config : Bytes → PoolConfig
pool_config dsn = record {
  dsn = dsn;
  max_conns = 10;
  min_conns = 1;
  max_conn_idle_time = 300 * second;
}

-- The rounds of the loop that 30 s have room for, each with its sleep, and one more.
abbrev pub open_fuel : ℕ
open_fuel = 62

abbrev pub open_with : Driver → PoolConfig → Result (Unit {0}) → Option Opened
open_with d cfg (err e) = some (rejected e)
open_with d cfg (ok u) = ping_loop open_fuel d cfg 0 0

abbrev pub open_parsed : Driver → Bytes → Result (Unit {0}) → Option Opened
open_parsed d dsn (err e) = some (rejected e)
open_parsed d dsn (ok u) = open_with d (pool_config dsn) (d.new_with_config (pool_config dsn))

unfoldable pub open_pool : Driver → Bytes → Option Opened
unfolding ping_loop
open_pool d dsn = open_parsed d dsn (d.parse_config dsn)

-- Time does not run backwards, a sleep lasts as long as it is asked to, and a Ping does not succeed
-- once its context has expired.
pub record KeepsTime (d : Driver) : Type 0 where
  pub pings : (expiry n at : ℕ) → at ≤ (d.ping expiry n at).1
  pub sleeps : (duration n at : ℕ) → at + duration ≤ d.wake duration n at
  pub expires :
      (expiry n at : ℕ) (u : Unit {0})
      → (d.ping expiry n at).0 ≡ ok u
      → (d.ping expiry n at).1 ≤ expiry

-- A pool is handed out within 10 s, and the loop is given up only after 30 s, or no pool was made.
pub data IsPunctual (cfg : PoolConfig) : Opened → Type 0 where
  in_time : (at : ℕ) → at ≤ 10000000000 → IsPunctual cfg (opened cfg at)
  too_late : (e : Error) (at : ℕ) → 30000000000 < at → IsPunctual cfg (gave_up e at)
  no_pool : (e : Error) → IsPunctual cfg (rejected e)

abbrev Punctual : PoolConfig → Option Opened → Type 0
Punctual cfg o = (r : Opened) × (o ≡ some r) × IsPunctual cfg r

is_late : (at : ℕ) → ltb deadline at ≡ true → deadline < at
is_late at h = ground (arith, h)

is_early : (at : ℕ) → ltb deadline at ≡ false → at ≤ deadline
is_early at h = ground (arith, h)

module _ (d : Driver) (t : KeepsTime d) (cfg : PoolConfig) where
  -- The round before the n-th ping at a time, when it is the last one that the fuel allows, or when
  -- the loop goes on.
  round-Punctual :
      (fuel n at : ℕ)
      → (ltb deadline (d.ping ping_timeout n at).1 ≡ false
          → Punctual cfg
              (ping_loop fuel d cfg (suc n) (d.wake pause n (d.ping ping_timeout n at).1)))
      → Punctual cfg (ping_loop (suc fuel) d cfg n at)
  unfolding ping_loop
  round-Punctual fuel n at goes_on = elim (Result-cases (d.ping ping_timeout n at).0) [
    | inl (u, good) ↦ (
      opened cfg (d.ping ping_timeout n at).1,
      rw (good, ping_loop) refl,
      in_time _ (t.expires ping_timeout n at u good),
    )
    | inr (e, bad) ↦ elim (Bool-cases (ltb deadline (d.ping ping_timeout n at).1)) [
      | inl late ↦ (
        gave_up e (d.ping ping_timeout n at).1,
        rw (bad, late, ping_loop) refl,
        too_late e _ (is_late _ late),
      )
      | inr early ↦
          let (r, ran, on_time) = goes_on early in (r, rw (bad, early, ping_loop) ran, on_time)
    ]
  ]

  loop-Punctual :
      (fuel n at : ℕ)
      → deadline < at + fuel * pause
      → Punctual cfg (ping_loop (suc fuel) d cfg n at)
  loop-Punctual zero n at enough =
      round-Punctual zero n at
        (λ early. absurd (omega (arith, is_early _ early, enough, t.pings ping_timeout n at)))
  loop-Punctual (suc fuel) n at enough = round-Punctual (suc fuel) n at (λ early.
      loop-Punctual fuel (suc n) (d.wake pause n (d.ping ping_timeout n at).1) (
        omega (
          arith,
          is_early _ early,
          enough,
          t.pings ping_timeout n at,
          t.sleeps pause n (d.ping ping_timeout n at).1,
        )))

-- With a driver whose pings and sleeps take their time, and whose pings do not succeed once the
-- context that they are given has expired, Open returns within 62 rounds: with the configured
-- pool, by the 10 s; with an error after more than 30 s, the pool being closed; or with an error
-- before there is a pool.
pub open_pool-IsPunctual :
    (d : Driver) (dsn : Bytes)
    → KeepsTime d
    → (r : Opened) × (open_pool d dsn ≡ some r) × IsPunctual (pool_config dsn) r
unfolding open_pool
open_pool-IsPunctual d dsn t = elim (Result-cases (d.parse_config dsn)) [
  | inr (e, bad) ↦ (rejected e, rw bad refl, no_pool e)
  | inl (u, good) ↦ elim (Result-cases (d.new_with_config (pool_config dsn))) [
    | inr (e, bad) ↦ (rejected e, rw (good, bad) refl, no_pool e)
    | inl (v, made) ↦
        let (r, ran, on_time) = loop-Punctual d t (pool_config dsn) 61 0 0 (omega arith) in
        (r, rw (good, made) ran, on_time)
  ]
]
