-- ===== src/Examples/Chaos.antt =====
-- The chaos endpoints and /work.
use projet_etude_app_demo.Prelude.{none, ◌≡◌, ◌↔◌, ◌%◌, refl, str_eq, [], ◌∷◌, false, arith}
use projet_etude_app_demo.Request.{Request}
use projet_etude_app_demo.Http.Input.{Platform, finite}
use projet_etude_app_demo.Http.Keeps.{end_of_flow}
use projet_etude_app_demo.Http.Chaos.{flaky_handler, spun, times, crypto_bits}
use projet_etude_app_demo.Http.Chaos.Work.{byte_step, spun-byte}
use projet_etude_app_demo.Http.Chaos.Flaky.{DrawsWell, IsBelow, flaky_fails_iff}
use projet_etude_app_demo.Http.Chaos.Guarded.{IsAnswered, leaks, disabled-IsAnswered}
use projet_etude_app_demo.Http.Routes.{get_memleak, serve}
use projet_etude_app_demo.Examples.{pg, otel, platform, idp, hmac, authenticator, exchange, request}

-- Half of the requests fail.
abbrev half : Platform
half = record platform { parse_float = λ s. finite false 1 1073 }

-- rand.Int fails, and rand.Read fills in zeros: the draw is 0.
abbrev drawn : Request
drawn = record request {
  chance = record request.chance { draw = none; bytes = λ n. 0 ∷ 0 ∷ 0 ∷ 0 ∷ 0 ∷ 0 ∷ 0 ∷ 0 ∷ [] };
}

drawn-DrawsWell : DrawsWell drawn.chance
drawn-DrawsWell = record { below = λ n e. cc; bytes = ground arith; eight = refl }

flaky_fails_iff_example :
    ((end_of_flow (flaky_handler half drawn exchange)).recorded ≡ 500)
    ↔ IsBelow (crypto_bits drawn.chance) (finite false 1 1073)
flaky_fails_iff_example = flaky_fails_iff half drawn exchange refl drawn-DrawsWell

spun-byte_example : spun 3 % 256 ≡ times 48 byte_step 0
spun-byte_example = spun-byte 3

disabled-IsAnswered_example : IsAnswered 403 exchange (
    serve pg otel
      (record platform { chaos_env = [] })
      idp
      hmac
      authenticator
      get_memleak
      request
      exchange)
unfolding str_eq
disabled-IsAnswered_example =
    disabled-IsAnswered pg otel (record platform { chaos_env = [] }) idp hmac authenticator request
      exchange refl leaks refl
