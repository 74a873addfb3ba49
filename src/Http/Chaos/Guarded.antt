-- ===== src/Http/Chaos/Guarded.antt =====
-- The four routes that NewMux puts chaosGuard round (internal/httpapi/handlers.go), as they are served.
use projet_etude_app_demo.Prelude.{ℕ, ◌≡◌, refl, true, false, Bytes, none, some}
use projet_etude_app_demo.Request.{Request}
use projet_etude_app_demo.Auth.{Idp, Authenticator}
use projet_etude_app_demo.Store.Exec.{Pg}
use projet_etude_app_demo.Store.Trace.{Otel}
use projet_etude_app_demo.Http.Exchange.{Exchange, Handler, http_error, write_header, write}
use projet_etude_app_demo.Http.Input.{Platform}
use projet_etude_app_demo.Http.Wrappers.{instrument, recovered}
use projet_etude_app_demo.Http.Chaos.{
  chaos_enabled, chaos_guard, panic_handler, crash_handler, memleak_handler, memleak_reset_handler,
}
use projet_etude_app_demo.Http.Routes.{
  Route, get_panic, get_crash, get_memleak, post_memleak_reset, route_handler, serve,
}

-- The routes that chaosGuard is put round.
pub data IsGuarded : Route → Type 0 where
  panics : IsGuarded get_panic
  crashes : IsGuarded get_crash
  leaks : IsGuarded get_memleak
  releases : IsGuarded post_memleak_reset

-- A request that was answered with a status, and that left the tables and the process alone.
pub record IsAnswered (code : ℕ) (x y : Exchange) : Type 0 where
  pub recorded : y.recorded ≡ code
  pub wire : y.wire ≡ some code
  pub db : y.world.db ≡ x.world.db
  pub process : y.process ≡ x.process

module _ (pg : Pg) (otel : Otel) (p : Platform) (idp : Idp) (hmac : Bytes → Bytes → Bytes)
    (a : Authenticator) (r : Request) (x : Exchange) (fresh : x.wire ≡ none) where
  guard-IsAnswered :
      (path : Bytes) (h : Handler) (q : Request)
      → chaos_enabled p ≡ false
      → IsAnswered 403 x (instrument pg path (chaos_guard p h) q x)
  unfolding instrument recovered chaos_guard http_error write_header write
  guard-IsAnswered path h q off = record {
    recorded = rw (off, chaos_guard) refl;
    wire = rw (off, chaos_guard, fresh) refl;
    db = rw (off, chaos_guard) refl;
    process = rw (off, chaos_guard) refl;
  }

  -- While DEMO_CHAOS_ENABLED is not 1, a request for /api/panic, /api/crash, /api/memleak or
  -- /api/memleak/reset to which no status was sent is answered and counted with 403, and changes
  -- neither the tables nor the process.
  pub disabled-IsAnswered :
      {route : Route}
      → IsGuarded route
      → chaos_enabled p ≡ false
      → IsAnswered 403 x (serve pg otel p idp hmac a route r x)
  unfolding serve route_handler
  disabled-IsAnswered panics off = guard-IsAnswered _ panic_handler _ off
  disabled-IsAnswered crashes off = guard-IsAnswered _ crash_handler _ off
  disabled-IsAnswered leaks off = guard-IsAnswered _ memleak_handler _ off
  disabled-IsAnswered releases off = guard-IsAnswered _ memleak_reset_handler _ off

  panic-IsAnswered :
      chaos_enabled p ≡ true → IsAnswered 500 x (serve pg otel p idp hmac a get_panic r x)
  unfolding serve route_handler instrument recovered chaos_guard panic_handler http_error
      write_header write
  panic-IsAnswered on = record {
    recorded = rw (on, serve, route_handler, chaos_guard) refl;
    wire = rw (on, serve, route_handler, chaos_guard, fresh) refl;
    db = rw (on, serve, route_handler, chaos_guard) refl;
    process = rw (on, serve, route_handler, chaos_guard) refl;
  }
