-- ===== src/Http/Access.antt =====
-- Who may change the tables through the routes of internal/httpapi/handlers.go.
use projet_etude_app_demo.Prelude.{
  ℕ, ◌≡◌, ◌≢◌, ◌∙◌, refl, sym, ap, Bytes, str, some, Option-cases, inl, inr, arith,
}
use projet_etude_app_demo.Request.{
  Request, Role, anonymous, viewer, operator, Principal, with_principal,
}
use projet_etude_app_demo.Auth.{
  Idp, Authenticator, middleware, resolved, principal_from, read_denial, mutate_denial,
}
use projet_etude_app_demo.Auth.Access.{denials, Role-cases}
use projet_etude_app_demo.Store.Db.{Db}
use projet_etude_app_demo.Store.Exec.{Pg}
use projet_etude_app_demo.Store.Trace.{Otel}
use projet_etude_app_demo.Http.Exchange.{
  Exchange, Flow, returned, panicked, Handler, http_error, write_header, write,
}
use projet_etude_app_demo.Http.Input.{Platform}
use projet_etude_app_demo.Http.Wrappers.{
  require_read, require_mutate, auditing, recovered, instrument,
}
use projet_etude_app_demo.Http.Handlers.{
  list_tickets_handler, create_ticket_handler, close_ticket_handler, list_audit_handler,
}
use projet_etude_app_demo.Http.Quiet.{
  start_handler-IsQuiet, callback_handler-IsQuiet, logout_handler-IsQuiet, slow_handler-IsQuiet,
  flaky_handler-IsQuiet, panic_handler-IsQuiet, crash_handler-IsQuiet, memleak_handler-IsQuiet,
  memleak_reset_handler-IsQuiet, work_handler-IsQuiet, chaos_guard-IsQuiet,
}
use projet_etude_app_demo.Http.Chaos.{
  panic_handler, crash_handler, memleak_handler, memleak_reset_handler,
}
use projet_etude_app_demo.Http.Routes.{
  Route, get_index, get_tickets, post_tickets, post_close, get_audit, get_healthz, get_readyz,
  route_path, route_handler, login_of, serve, get_work, get_login, get_callback, get_logout,
  get_slow, get_flaky, get_panic, get_crash, get_memleak, post_memleak_reset,
}
use projet_etude_app_demo.Http.Keeps.{
  end_of_flow, KeepsHandler, index-Keeps, list_tickets_handler-Keeps, healthz-Keeps, readyz-Keeps,
}

recovered-db : (f : Flow) → (recovered f).world.db ≡ (end_of_flow f).world.db
unfolding recovered http_error
recovered-db (returned x) = refl
recovered-db (panicked x) = ground arith

pub instrument-db :
    (pg : Pg) (path : Bytes) (h : Handler) (r : Request) (x : Exchange)
    → (instrument pg path h r x).world.db
      ≡ (end_of_flow (h r (record x { recorded = 200 }))).world.db
unfolding instrument
instrument-db pg path h r x = recovered-db (h r (record x { recorded = 200 }))

-- What a refused request leaves.
pub record IsRefused (code : ℕ) (before after : Exchange) : Type 0 where
  pub recorded : after.recorded ≡ code
  pub db : after.world.db ≡ before.world.db

abbrev pub denial_code : Role → ℕ
denial_code anonymous = 401
denial_code viewer = 403
denial_code operator = 200

unnamed : (p : Principal) → p.role ≡ anonymous → mutate_denial p ≡ some 401
unnamed p e = let (reads, writes, at_nobody, at_reader) = denials p in (at_nobody e).1

mutate_denial_code :
    (p : Principal) → p.role ≢ operator → mutate_denial p ≡ some (denial_code p.role)
mutate_denial_code p h = elim (Role-cases p.role) [
  | inl nobody ↦ unnamed p nobody ∙ sym (ap (λ role. some (denial_code role)) nobody)
  | inr (inl reader) ↦
      let (reads, writes, at_nobody, at_reader) = denials p in
      at_reader reader ∙ sym (ap (λ role. some (denial_code role)) reader)
  | inr (inr writer) ↦ absurd (h writer)
]

module _ (h : Handler) (r : Request) (x : Exchange)
    (wrong : (principal_from r.context).role ≢ operator) where
  pub require_mutate-refuses :
      IsRefused (denial_code (principal_from r.context).role) x (end_of_flow (require_mutate h r x))
  unfolding require_mutate http_error write write_header
  require_mutate-refuses =
      let e = mutate_denial_code (principal_from r.context) wrong in
      record { recorded = rw (e, require_mutate); db = rw (e, require_mutate) }

pub require_read-Keeps :
    (P : Db → Type 0) (h : Handler) → KeepsHandler P h → KeepsHandler P (require_read h)
unfolding require_read http_error
require_read-Keeps P h k r x g = elim (Option-cases (read_denial (principal_from r.context))) [
  | inl free ↦ rw (free, require_read) (k r x g)
  | inr (code, denied) ↦ rw (denied, require_read) g
]

module _ (pg : Pg) (otel : Otel) (p : Platform) (idp : Idp) (hmac : Bytes → Bytes → Bytes)
    (a : Authenticator) where
  route_handler-db :
      (route : Route) (r : Request) (x : Exchange)
      → (principal_from r.context).role ≢ operator
      → (end_of_flow (route_handler pg otel p idp hmac a route r x)).world.db ≡ x.world.db
  unfolding route_handler
  route_handler-db get_index r x wrong = index-Keeps (λ db. db ≡ x.world.db) pg r x refl
  route_handler-db get_tickets r x wrong =
      require_read-Keeps (λ db. db ≡ x.world.db) (list_tickets_handler pg)
        (list_tickets_handler-Keeps (λ db. db ≡ x.world.db) pg) r x refl
  route_handler-db post_tickets r x wrong =
      (require_mutate-refuses
        (auditing pg p (str "ticket.create") (create_ticket_handler pg otel p)) r x wrong).db
  route_handler-db post_close r x wrong =
      (require_mutate-refuses (auditing pg p (str "ticket.close") (close_ticket_handler pg)) r x
        wrong).db
  route_handler-db get_audit r x wrong =
      (require_mutate-refuses (list_audit_handler pg) r x wrong).db
  route_handler-db get_healthz r x wrong = healthz-Keeps (λ db. db ≡ x.world.db) r x refl
  route_handler-db get_readyz r x wrong = readyz-Keeps (λ db. db ≡ x.world.db) pg r x refl
  route_handler-db get_work r x wrong = ap (λ w. w.db) (work_handler-IsQuiet r x)
  route_handler-db get_login r x wrong =
      ap (λ w. w.db) (start_handler-IsQuiet (login_of a) p.oauth r x)
  route_handler-db get_callback r x wrong =
      ap (λ w. w.db) (callback_handler-IsQuiet (login_of a) p.oauth idp hmac r x)
  route_handler-db get_logout r x wrong = ap (λ w. w.db) (logout_handler-IsQuiet r x)
  route_handler-db get_slow r x wrong = ap (λ w. w.db) (slow_handler-IsQuiet r x)
  route_handler-db get_flaky r x wrong = ap (λ w. w.db) (flaky_handler-IsQuiet p r x)
  route_handler-db get_panic r x wrong =
      ap (λ w. w.db) (chaos_guard-IsQuiet p panic_handler panic_handler-IsQuiet r x)
  route_handler-db get_crash r x wrong =
      ap (λ w. w.db) (chaos_guard-IsQuiet p crash_handler crash_handler-IsQuiet r x)
  route_handler-db get_memleak r x wrong =
      ap (λ w. w.db) (chaos_guard-IsQuiet p memleak_handler memleak_handler-IsQuiet r x)
  route_handler-db post_memleak_reset r x wrong =
      ap (λ w. w.db) (chaos_guard-IsQuiet p memleak_reset_handler memleak_reset_handler-IsQuiet r x)

  principal_from-middleware :
      (r : Request) → principal_from (middleware idp hmac a r).context ≡ resolved idp hmac a r
  unfolding principal_from middleware with_principal
  principal_from-middleware r = refl

  -- A request whose principal is no operator leaves the tables as they are, on every route of the
  -- model.
  pub only_operators_write :
      (route : Route) (r : Request) (x : Exchange)
      → (resolved idp hmac a r).role ≢ operator
      → (serve pg otel p idp hmac a route r x).world.db ≡ x.world.db
  unfolding serve
  only_operators_write route r x wrong =
      instrument-db pg (route_path route) (route_handler pg otel p idp hmac a route)
        (middleware idp hmac a r) x
      ∙ route_handler-db route (middleware idp hmac a r) (record x { recorded = 200 })
          (λ e. wrong (sym (ap (λ (q : Principal). q.role) (principal_from-middleware r)) ∙ e))
