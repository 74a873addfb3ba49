-- ===== src/Http/Valid.antt =====
-- The constraints of the schema and the requests of internal/httpapi/handlers.go.
use projet_etude_app_demo.Prelude.{
  suc, ◌≡◌, refl, sym, subst, true, Bool-cases, Bytes, str, ◌∷◌, [], ◌++◌, All-append, Option,
  Option-cases, inl, inr,
}
use projet_etude_app_demo.Model.{AuditEntry, status_closed}
use projet_etude_app_demo.Metrics.{Span}
use projet_etude_app_demo.Request.{Request}
use projet_etude_app_demo.Auth.{Idp, Authenticator, middleware, principal_from, mutate_denial}
use projet_etude_app_demo.Store.Db.{Db, AuditRow, result_check}
use projet_etude_app_demo.Store.Exec.{Pg, timed}
use projet_etude_app_demo.Store.Trace.{Otel}
use projet_etude_app_demo.Store.Invariant.{
  IsValid, IsKeyed-suc, IsKeyed-map_concat, audit_ids, Keeps, KeepsExec, send-KeepsExec,
}
use projet_etude_app_demo.Store.Tickets.Valid.{
  create_ticket_and_enqueue-IsValid, set_ticket_status-IsValid,
}
use projet_etude_app_demo.Store.Audit.{audit_row, insert_audit, write_audit, texts_accepted}
use projet_etude_app_demo.Http.Exchange.{
  Exchange, Flow, returned, panicked, Handler, http_error, write, write_header,
}
use projet_etude_app_demo.Http.Input.{Platform}
use projet_etude_app_demo.Http.Wrappers.{require_mutate, auditing, audited, audit_entry}
use projet_etude_app_demo.Http.Handlers.{
  create_ticket_handler, close_ticket_handler, list_audit_handler, list_tickets_handler,
}
use projet_etude_app_demo.Http.Quiet.{
  start_handler-IsQuiet, callback_handler-IsQuiet, logout_handler-IsQuiet, slow_handler-IsQuiet,
  flaky_handler-IsQuiet, panic_handler-IsQuiet, crash_handler-IsQuiet, memleak_handler-IsQuiet,
  memleak_reset_handler-IsQuiet, work_handler-IsQuiet, chaos_guard-IsQuiet, IsQuiet-Keeps,
}
use projet_etude_app_demo.Http.Login.{start_handler, callback_handler, logout_handler}
use projet_etude_app_demo.Http.Chaos.{
  chaos_guard, slow_handler, flaky_handler, panic_handler, crash_handler, memleak_handler,
  memleak_reset_handler, work_handler,
}
use projet_etude_app_demo.Http.Routes.{
  Route, get_index, get_tickets, post_tickets, post_close, get_audit, get_healthz, get_readyz,
  route_path, route_handler, login_of, serve, get_work, get_login, get_callback, get_logout,
  get_slow, get_flaky, get_panic, get_crash, get_memleak, post_memleak_reset,
}
use projet_etude_app_demo.Http.Keeps.{
  end_of_flow, KeepsHandler, index-Keeps, list_tickets_handler-Keeps, list_audit_handler-Keeps,
  healthz-Keeps, readyz-Keeps, create_ticket_handler-Keeps, close_ticket_handler-Keeps,
}
use projet_etude_app_demo.Http.Access.{instrument-db, require_read-Keeps}

add_audit-IsValid :
    (db : Db) (r : AuditRow)
    → r.id ≡ suc db.audit_seq
    → result_check r.result ≡ true
    → IsValid db
    → IsValid (record db { audit_seq = suc db.audit_seq; audit_log = db.audit_log ++ r ∷ [] })
add_audit-IsValid db r e good h = record {
  tickets = h.tickets;
  jobs = h.jobs;
  audit = IsKeyed-map_concat (λ q. q.id) db.audit_log r db.audit_seq e h.audit;
  good_tickets = h.good_tickets;
  good_audit =
      All-append (λ q. result_check q.result ≡ true) db.audit_log (r ∷ []) h.good_audit (good, tt);
}

skip_audit-IsValid : (db : Db) → IsValid db → IsValid (record db { audit_seq = suc db.audit_seq })
skip_audit-IsValid db h = record {
  tickets = h.tickets;
  jobs = h.jobs;
  audit = IsKeyed-suc (audit_ids db.audit_log) db.audit_seq h.audit;
  good_tickets = h.good_tickets;
  good_audit = h.good_audit;
}

insert_audit-IsValid :
    (pg : Pg) (canonical_ip : Bytes → Option Bytes) (e : AuditEntry)
    → Keeps IsValid (insert_audit pg canonical_ip e)
unfolding insert_audit audit_row
insert_audit-IsValid pg canonical_ip e at locked db h = elim (Bool-cases (texts_accepted pg e)) [
  | inr bad ↦ rw (bad, insert_audit) h
  | inl accepted ↦ elim (Bool-cases (result_check e.result)) [
    | inr bad ↦ rw (accepted, bad, insert_audit) (skip_audit-IsValid db h)
    | inl good ↦
        rw (accepted, good, insert_audit)
          (add_audit-IsValid db (audit_row canonical_ip e (suc db.audit_seq) at) refl good h)
  ]
]

write_audit-IsValid :
    (pg : Pg) (canonical_ip : Bytes → Option Bytes) (span : Span) (e : AuditEntry)
    → KeepsExec IsValid (write_audit pg canonical_ip span e)
unfolding write_audit timed
write_audit-IsValid pg canonical_ip span e w h =
    send-KeepsExec IsValid pg (insert_audit pg canonical_ip e)
      (insert_audit-IsValid pg canonical_ip e) w h

audited-IsValid :
    (pg : Pg) (p : Platform) (action : Bytes) (r : Request) (f : Flow)
    → IsValid (end_of_flow f).world.db
    → IsValid (end_of_flow (audited pg p action r f)).world.db
unfolding audited
audited-IsValid pg p action r (panicked x) h = h
audited-IsValid pg p action r (returned x) h =
    write_audit-IsValid pg p.canonical_ip r.context.span (audit_entry p action r x.recorded) x.world
      h

require_mutate-Keeps :
    (P : Db → Type 0) (h : Handler) → KeepsHandler P h → KeepsHandler P (require_mutate h)
unfolding require_mutate http_error write write_header
require_mutate-Keeps P h k r x g = elim (Option-cases (mutate_denial (principal_from r.context))) [
  | inl free ↦ rw (free, require_mutate) (k r x g)
  | inr (code, denied) ↦ rw (denied, require_mutate) g
]

auditing-IsValid :
    (pg : Pg) (p : Platform) (action : Bytes) (h : Handler)
    → KeepsHandler IsValid h
    → KeepsHandler IsValid (auditing pg p action h)
unfolding auditing
auditing-IsValid pg p action h k r x g = audited-IsValid pg p action r (h r x) (k r x g)

module _ (pg : Pg) (otel : Otel) (p : Platform) (idp : Idp) (hmac : Bytes → Bytes → Bytes)
    (a : Authenticator) where
  route_handler-IsValid :
      (route : Route) → KeepsHandler IsValid (route_handler pg otel p idp hmac a route)
  unfolding route_handler
  route_handler-IsValid get_index = index-Keeps IsValid pg
  route_handler-IsValid get_tickets =
      require_read-Keeps IsValid (list_tickets_handler pg) (list_tickets_handler-Keeps IsValid pg)
  route_handler-IsValid post_tickets =
      require_mutate-Keeps IsValid
        (auditing pg p (str "ticket.create") (create_ticket_handler pg otel p))
        (auditing-IsValid pg p (str "ticket.create") (create_ticket_handler pg otel p) (
          create_ticket_handler-Keeps IsValid pg otel p (λ span title description priority.
            create_ticket_and_enqueue-IsValid pg otel span title description priority)))
  route_handler-IsValid post_close =
      require_mutate-Keeps IsValid (auditing pg p (str "ticket.close") (close_ticket_handler pg)) (
        auditing-IsValid pg p (str "ticket.close") (close_ticket_handler pg) (
          close_ticket_handler-Keeps IsValid pg
            (λ span id. set_ticket_status-IsValid pg otel span id status_closed)))
  route_handler-IsValid get_audit =
      require_mutate-Keeps IsValid (list_audit_handler pg) (list_audit_handler-Keeps IsValid pg)
  route_handler-IsValid get_healthz = healthz-Keeps IsValid
  route_handler-IsValid get_readyz = readyz-Keeps IsValid pg
  route_handler-IsValid get_work = IsQuiet-Keeps IsValid work_handler work_handler-IsQuiet
  route_handler-IsValid get_login =
      IsQuiet-Keeps IsValid (start_handler (login_of a) p.oauth)
        (start_handler-IsQuiet (login_of a) p.oauth)
  route_handler-IsValid get_callback =
      IsQuiet-Keeps IsValid (callback_handler (login_of a) p.oauth idp hmac)
        (callback_handler-IsQuiet (login_of a) p.oauth idp hmac)
  route_handler-IsValid get_logout = IsQuiet-Keeps IsValid logout_handler logout_handler-IsQuiet
  route_handler-IsValid get_slow = IsQuiet-Keeps IsValid slow_handler slow_handler-IsQuiet
  route_handler-IsValid get_flaky =
      IsQuiet-Keeps IsValid (flaky_handler p) (flaky_handler-IsQuiet p)
  route_handler-IsValid get_panic =
      IsQuiet-Keeps IsValid (chaos_guard p panic_handler)
        (chaos_guard-IsQuiet p panic_handler panic_handler-IsQuiet)
  route_handler-IsValid get_crash =
      IsQuiet-Keeps IsValid (chaos_guard p crash_handler)
        (chaos_guard-IsQuiet p crash_handler crash_handler-IsQuiet)
  route_handler-IsValid get_memleak =
      IsQuiet-Keeps IsValid (chaos_guard p memleak_handler)
        (chaos_guard-IsQuiet p memleak_handler memleak_handler-IsQuiet)
  route_handler-IsValid post_memleak_reset =
      IsQuiet-Keeps IsValid (chaos_guard p memleak_reset_handler)
        (chaos_guard-IsQuiet p memleak_reset_handler memleak_reset_handler-IsQuiet)

  -- Every request keeps what the schema promises of the tables, on every route of the model,
  -- whatever becomes of the statements that it sends: the keys are unique and come from their
  -- sequences, and the CHECK constraints hold of the tickets and of the audit log.
  pub serve-IsValid :
      (route : Route) (r : Request) (x : Exchange)
      → IsValid x.world.db
      → IsValid (serve pg otel p idp hmac a route r x).world.db
  unfolding serve
  serve-IsValid route r x h =
      subst IsValid
        (sym (
          instrument-db pg (route_path route) (route_handler pg otel p idp hmac a route)
            (middleware idp hmac a r) x))
        (route_handler-IsValid route (middleware idp hmac a r) (record x { recorded = 200 }) h)
