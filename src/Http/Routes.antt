-- ===== src/Http/Routes.antt =====
-- NewMux of internal/httpapi/handlers.go. Which pattern a request matches is left to http.ServeMux:
-- a `Route` is a pattern that it registers, for a Login that is not nil. GET /metrics is the Prometheus
-- client's.
use projet_etude_app_demo.Prelude.{Bytes, str}
use projet_etude_app_demo.Request.{Request}
use projet_etude_app_demo.Auth.{Idp, Authenticator, middleware}
use projet_etude_app_demo.Store.Exec.{Pg}
use projet_etude_app_demo.Store.Trace.{Otel}
use projet_etude_app_demo.Http.Exchange.{Exchange, Handler}
use projet_etude_app_demo.Http.Input.{Platform}
use projet_etude_app_demo.Http.Wrappers.{require_read, require_mutate, auditing, instrument}
use projet_etude_app_demo.Http.Login.{Login, start_handler, callback_handler, logout_handler}
use projet_etude_app_demo.Http.Chaos.{
  chaos_guard, slow_handler, flaky_handler, panic_handler, crash_handler, memleak_handler,
  memleak_reset_handler, work_handler,
}
use projet_etude_app_demo.Http.Handlers.{
  index_handler, list_tickets_handler, create_ticket_handler, close_ticket_handler,
  list_audit_handler, healthz_handler, readyz_handler,
}

pub data Route : Type 0 where
  get_index get_tickets post_tickets post_close get_audit get_healthz get_readyz get_work : Route
  get_login get_callback get_logout get_slow get_flaky get_panic get_crash get_memleak
        post_memleak_reset :
      Route

unfoldable pub route_path : Route → Bytes
route_path get_index = str "/"
route_path get_tickets = str "/api/tickets"
route_path post_tickets = str "/api/tickets"
route_path post_close = str "/api/tickets/:id/close"
route_path get_audit = str "/api/audit"
route_path get_healthz = str "/healthz"
route_path get_readyz = str "/readyz"
route_path get_work = str "/work"
route_path get_login = str "/auth/login"
route_path get_callback = str "/auth/callback"
route_path get_logout = str "/auth/logout"
route_path get_slow = str "/api/slow"
route_path get_flaky = str "/api/flaky"
route_path get_panic = str "/api/panic"
route_path get_crash = str "/api/crash"
route_path get_memleak = str "/api/memleak"
route_path post_memleak_reset = str "/api/memleak/reset"

-- main builds the Login from the authenticator's Config.
abbrev pub login_of : Authenticator → Login
login_of a = record { cfg = a.cfg }

unfoldable pub route_handler :
    Pg → Otel → Platform → Idp → (Bytes → Bytes → Bytes) → Authenticator → Route → Handler
unfolding require_read require_mutate auditing chaos_guard
route_handler pg otel p idp hmac a get_index = index_handler pg
route_handler pg otel p idp hmac a get_tickets = require_read (list_tickets_handler pg)
route_handler pg otel p idp hmac a post_tickets =
    require_mutate (auditing pg p (str "ticket.create") (create_ticket_handler pg otel p))
route_handler pg otel p idp hmac a post_close =
    require_mutate (auditing pg p (str "ticket.close") (close_ticket_handler pg))
route_handler pg otel p idp hmac a get_audit = require_mutate (list_audit_handler pg)
route_handler pg otel p idp hmac a get_healthz = healthz_handler
route_handler pg otel p idp hmac a get_readyz = readyz_handler pg
route_handler pg otel p idp hmac a get_work = work_handler
route_handler pg otel p idp hmac a get_login = start_handler (login_of a) p.oauth
route_handler pg otel p idp hmac a get_callback = callback_handler (login_of a) p.oauth idp hmac
route_handler pg otel p idp hmac a get_logout = logout_handler
route_handler pg otel p idp hmac a get_slow = slow_handler
route_handler pg otel p idp hmac a get_flaky = flaky_handler p
route_handler pg otel p idp hmac a get_panic = chaos_guard p panic_handler
route_handler pg otel p idp hmac a get_crash = chaos_guard p crash_handler
route_handler pg otel p idp hmac a get_memleak = chaos_guard p memleak_handler
route_handler pg otel p idp hmac a post_memleak_reset = chaos_guard p memleak_reset_handler

-- A request behind the authentication middleware, at the route that it matches.
unfoldable pub serve :
    Pg
    → Otel
    → Platform
    → Idp
    → (Bytes → Bytes → Bytes)
    → Authenticator
    → Route
    → Request
    → Exchange
    → Exchange
unfolding route_handler instrument
serve pg otel p idp hmac a route r x =
    instrument pg (route_path route) (route_handler pg otel p idp hmac a route)
      (middleware idp hmac a r) x
