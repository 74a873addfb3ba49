-- ===== src/Http/Chaos.antt =====
-- internal/httpapi/chaos.go, and workHandler of internal/httpapi/handlers.go. The clock, the random
-- source and the client are the request's `Chance`; what is slept or burnt is not modelled.
pub mod Work
pub mod Flaky
pub mod Leak
pub mod Guarded
use projet_etude_app_demo.Prelude.{
  ℕ, zero, suc, ◌+◌, ◌*◌, ◌/◌, ◌%◌, ◌^◌, ltb, ◌==◌, ℤ, pos, negsuc, atoi, word_mod, format_nat,
  Bool, true, false, not, ◌&&◌, Bytes, str, str_eq, List, [], ◌∷◌, ◌++◌, Option, none, some,
  if◌then◌else◌,
}
use projet_etude_app_demo.Request.{Request, Chance}
use projet_etude_app_demo.Http.Exchange.{
  text, Process, Exchange, Flow, returned, panicked, Handler, http_error, write,
}
use projet_etude_app_demo.Http.Input.{Platform, Float64, nan, infinite, finite}

-- DEMO_CHAOS_ENABLED is read once, when the process starts.
abbrev pub chaos_enabled : Platform → Bool
chaos_enabled p = str_eq p.chaos_env (str "1")

unfoldable pub chaos_guard : Platform → Handler → Handler
unfolding str_eq http_error
chaos_guard p h r x =
    if not (chaos_enabled p)
    then returned (http_error (str "chaos endpoints disabled (set DEMO_CHAOS_ENABLED=1)\n") 403 x)
    else h r x

-- n < lo, n > hi, or n itself.
abbrev pub clamp_int : ℤ → ℕ → ℕ → ℕ
clamp_int (negsuc n) lo hi = lo
clamp_int (pos n) lo hi = if ltb n lo then lo else if ltb hi n then hi else n

unfoldable pub atoi_clamp : Bytes → ℕ → ℕ → ℕ
atoi_clamp s lo hi = clamp_int (atoi s).0 lo hi

unfoldable pub slow_handler : Handler
unfolding atoi_clamp http_error write
slow_handler r x = returned (
    if r.chance.gone
    then http_error (str "client gone") 499 x
    else write
        (text
          (str "slept " ++ (format_nat (atoi_clamp (r.query (str "ms")) 0 10000) ++ str "ms\n")))
        x)

-- 0.0, 1.0, and a draw below 2^53 over 2^53.
abbrev pub float_zero : Float64
float_zero = finite false 0 0

abbrev pub float_one : Float64
float_one = finite false 1 1074

abbrev pub float_over_2_53 : ℕ → Float64
float_over_2_53 n = finite false n 1021

-- a < b on float64: nan is below nothing and above nothing, and -0 is not below 0.
unfoldable pub float_lt : Float64 → Float64 → Bool
float_lt nan b = false
float_lt (infinite s) nan = false
float_lt (infinite s) (infinite t) = s && not t
float_lt (infinite s) (finite t m e) = s
float_lt (finite s m e) nan = false
float_lt (finite s m e) (infinite t) = not t
float_lt (finite false m e) (finite false n f) = ltb (m * 2 ^ e) (n * 2 ^ f)
float_lt (finite false m e) (finite true n f) = false
float_lt (finite true m e) (finite false n f) = ltb 0 (m + n)
float_lt (finite true m e) (finite true n f) = ltb (n * 2 ^ f) (m * 2 ^ e)

-- binary.LittleEndian.Uint64
unfoldable pub little_endian : Bytes → ℕ
little_endian [] = 0
little_endian (b ∷ bs) = b + 256 * little_endian bs

-- The 53 bits that cryptoFloat divides by 2^53: those of rand.Int, or the upper bits of eight bytes.
unfoldable pub crypto_bits : Chance → ℕ
unfolding little_endian
crypto_bits c = elim c.draw [ none ↦ little_endian (c.bytes 8) / 2048 | some n ↦ n ]

unfoldable pub crypto_float : Chance → Float64
unfolding crypto_bits
crypto_float c = float_over_2_53 (crypto_bits c)

-- The two tests on the rate of flakyHandler.
unfoldable pub clamp_rate : Float64 → Float64
unfolding float_lt
clamp_rate rate =
    let raised = if float_lt rate float_zero then float_zero else rate in
    if float_lt float_one raised then float_one else raised

unfoldable pub flaky_handler : Platform → Handler
unfolding float_lt clamp_rate crypto_float http_error write
flaky_handler p r x = returned (
    if float_lt (crypto_float r.chance) (clamp_rate (p.parse_float (r.query (str "rate"))))
    then http_error (str "synthetic failure\n") 500 x
    else write (text (str "ok\n")) x)

unfoldable pub panic_handler : Handler
panic_handler r x = panicked x

-- The goroutine that ends the process 50 ms later.
unfoldable pub crash_handler : Handler
unfolding write
crash_handler r x = returned (
    write (text (str "crashing\n"))
      (record x { process = record x.process { exiting = some 137 } }))

abbrev pub mebibyte : ℕ
mebibyte = 1048576

-- The sum of the lengths of memHold.
unfoldable pub total_held : List ℕ → ℕ
total_held [] = 0
total_held (n ∷ ns) = n + total_held ns

abbrev pub leaked_text : ℕ → List ℕ → Bytes
leaked_text mb held =
    str "leaked "
    ++ (format_nat mb
        ++ (str " MiB (total held "
            ++ (format_nat (total_held held / 1024 / 1024) ++ str " MiB)\n")))

abbrev pub leak : ℕ → Exchange → Exchange
leak mb x =
    let held = x.process.held ++ mb * 1024 * 1024 ∷ [] in
    write (text (leaked_text mb held)) (record x { process = record x.process { held = held } })

unfoldable pub memleak_handler : Handler
unfolding atoi_clamp total_held write
memleak_handler r x = returned (leak (atoi_clamp (r.query (str "mb")) 1 256) x)

unfoldable pub memleak_reset_handler : Handler
unfolding write
memleak_reset_handler r x = returned (
    write (text (str "memleak buffers released\n"))
      (record x { process = record x.process { held = [] } }))

-- x = x*1103515245 + 12345, on uint64.
abbrev pub work_step : ℕ → ℕ
work_step x = (x * 1103515245 + 12345) % word_mod

unfoldable pub times : ℕ → (ℕ → ℕ) → ℕ → ℕ
times zero f x = x
times (suc n) f x = times n f (f x)

-- The batches of the outer loop.
unfoldable pub spun : ℕ → ℕ
unfolding times
spun batches = times batches (λ x. times 10000 work_step x) 0

-- The bounds on ms; below 0 it becomes 0.
unfoldable pub work_handler : Handler
unfolding spun write
work_handler r x =
    let ms = clamp_int (atoi (r.query (str "ms"))).0 0 5000 in
    returned (write (text (format_nat (spun (r.chance.batches ms) % 256) ++ str "\n")) x)
