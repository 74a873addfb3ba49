-- ===== src/Http/Chaos/Leak.antt =====
-- memHold of internal/httpapi/chaos.go over the calls of /api/memleak.
use projet_etude_app_demo.Prelude.{
  ℕ, ◌+◌, ◌*◌, ◌/◌, ◌≤◌, ◌≡◌, refl, ap, ℤ, pos, negsuc, atoi, str, List, [], ◌∷◌, ◌++◌, All,
  All-append, format_nat, arith,
}
use projet_etude_app_demo.Request.{Request}
use projet_etude_app_demo.Http.Exchange.{text, Exchange, write}
use projet_etude_app_demo.Http.Keeps.{end_of_flow}
use projet_etude_app_demo.Http.Chaos.{atoi_clamp, clamp_int, mebibyte, total_held, memleak_handler}

clamp_int_bounds :
    (n : ℤ) (lo hi : ℕ) → lo ≤ hi → (lo ≤ clamp_int n lo hi) × (clamp_int n lo hi ≤ hi)
clamp_int_bounds (negsuc n) lo hi h = (omega arith, omega arith)
clamp_int_bounds (pos n) lo hi h = ground arith

-- A block of whole mebibytes.
pub record IsBlock (n : ℕ) : Type 0 where
  pub mb : ℕ
  pub at_least : 1 ≤ mb
  pub at_most : mb ≤ 256
  pub size : n ≡ mb * mebibyte

mib_of : List ℕ → ℕ
mib_of [] = 0
mib_of (n ∷ ns) = n / mebibyte + mib_of ns

total_held-mib : (held : List ℕ) → All IsBlock held → total_held held ≡ mib_of held * mebibyte
unfolding total_held mib_of
total_held-mib [] h = refl
total_held-mib (n ∷ ns) (b, h) = omega (arith, b.size, total_held-mib ns h)

total_held-append :
    (held more : List ℕ) → total_held (held ++ more) ≡ total_held held + total_held more
unfolding total_held
total_held-append [] more = omega arith
total_held-append (n ∷ held) more = omega (arith, total_held-append held more)

-- What a call of /api/memleak leaves: one block more, and a text that says how much is held.
pub record IsLeaked (before after : Exchange) : Type 0 where
  pub mb : ℕ
  pub at_least : 1 ≤ mb
  pub at_most : mb ≤ 256
  pub held : after.process.held ≡ before.process.held ++ mb * mebibyte ∷ []
  pub total : ℕ
  pub exact : total * mebibyte ≡ total_held before.process.held + mb * mebibyte
  pub told :
      after.chunks
      ≡ before.chunks
        ++ text (
            str "leaked "
            ++ (format_nat mb ++ (str " MiB (total held " ++ (format_nat total ++ str " MiB)\n"))))
          ∷ []

module _ (r : Request) (x : Exchange) (blocks : All IsBlock x.process.held) where
  abbrev mb : ℕ
  mb = atoi_clamp (r.query (str "mb")) 1 256

  abbrev held : List ℕ
  held = x.process.held ++ mb * 1024 * 1024 ∷ []

  mb_bounds : (1 ≤ mb) × (mb ≤ 256)
  unfolding atoi_clamp
  mb_bounds = clamp_int_bounds (atoi (r.query (str "mb"))).0 1 256 (omega arith)

  total-exact : total_held held / 1024 / 1024 * mebibyte ≡ total_held x.process.held + mb * mebibyte
  unfolding total_held
  total-exact = omega (
    arith,
    total_held-append x.process.held (mb * 1024 * 1024 ∷ []),
    total_held-mib x.process.held blocks,
  )

  memleak-IsLeaked :
      IsLeaked x (end_of_flow (memleak_handler r x))
      × All IsBlock (end_of_flow (memleak_handler r x)).process.held
  unfolding memleak_handler write
  memleak-IsLeaked = (
    record {
      mb = mb;
      at_least = mb_bounds.0;
      at_most = mb_bounds.1;
      held = ap (λ n. x.process.held ++ n ∷ []) (omega arith);
      total = total_held held / 1024 / 1024;
      exact = total-exact;
      told = refl;
    },
    All-append IsBlock x.process.held (mb * 1024 * 1024 ∷ []) blocks
        (record { mb = mb; at_least = mb_bounds.0; at_most = mb_bounds.1; size = omega arith }, tt),
  )
