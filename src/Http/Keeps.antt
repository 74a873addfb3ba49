-- ===== src/Http/Keeps.antt =====
-- What the handlers of internal/httpapi/handlers.go do with a property of the tables.
use projet_etude_app_demo.Prelude.{
  ℕ, Bool, true, false, Bool-cases, Bytes, str, ℤ, NumError, List, Option, none, some, inl, inr,
  arith, [], atoi, parse_int,
}
use projet_etude_app_demo.Model.{Ticket, AuditEntry, Priority, Status, status_closed}
use projet_etude_app_demo.Request.{Request}
use projet_etude_app_demo.Store.Db.{Db}
use projet_etude_app_demo.Store.Exec.{Result, ok, err, is_not_found, Pg, World, send, timed}
use projet_etude_app_demo.Store.Trace.{Otel}
use projet_etude_app_demo.Store.Invariant.{Keeps, KeepsExec, send-KeepsExec}
use projet_etude_app_demo.Store.Tickets.{
  list_tickets, select_tickets, create_ticket_and_enqueue, set_ticket_status, count_open_tickets,
  count_open,
}
use projet_etude_app_demo.Store.Audit.{list_audit, select_audit, clamp_limit}
use projet_etude_app_demo.Http.Exchange.{
  Exchange, Flow, returned, panicked, Handler, write, http_error, write_json,
}
use projet_etude_app_demo.Http.Input.{Platform, parse_create, wants_html}
use projet_etude_app_demo.Http.Handlers.{
  set_open, refresh_open_gauge, with_count, show_index, index_handler, show_tickets,
  list_tickets_handler, count_created, show_created, create_parsed, create_ticket_handler,
  show_closed, close_parsed, close_ticket_handler, show_audit, list_audit_handler, healthz_handler,
  ping_statement, show_ready, readyz_handler,
}

-- How far the handler came, however it ended.
abbrev pub end_of_flow : Flow → Exchange
end_of_flow (returned x) = x
end_of_flow (panicked x) = x

abbrev pub KeepsHandler : (Db → Type 0) → Handler → Type 0
KeepsHandler P h = (r : Request) (x : Exchange) → P x.world.db → P (end_of_flow (h r x)).world.db

module _ (P : Db → Type 0) where
  set_open-Keeps : (p : Result ℕ × World) → P p.1.db → P (set_open p).db
  set_open-Keeps (ok n, w) h = h
  set_open-Keeps (err e, w) h = h

  count_open_tickets-Keeps :
      (pg : Pg) (span : Option Bytes) → KeepsExec P (count_open_tickets pg span)
  unfolding count_open_tickets timed count_open
  count_open_tickets-Keeps pg span w h = send-KeepsExec P pg count_open (λ at locked db g. g) w h

  refresh-Keeps :
      (pg : Pg) (span : Option Bytes) (w : World) → P w.db → P (refresh_open_gauge pg span w).db
  unfolding refresh_open_gauge
  refresh-Keeps pg span w h =
      set_open-Keeps (count_open_tickets pg span w) (count_open_tickets-Keeps pg span w h)

  select_tickets-Keeps : (pg : Pg) (status : Status) → Keeps P (select_tickets pg status)
  unfolding select_tickets
  select_tickets-Keeps pg status at locked db h = ground (arith, h)

  list_tickets-Keeps :
      (pg : Pg) (span : Option Bytes) (status : Status) → KeepsExec P (list_tickets pg span status)
  unfolding list_tickets timed
  list_tickets-Keeps pg span status w h =
      send-KeepsExec P pg (select_tickets pg status) (select_tickets-Keeps pg status) w h

  list_audit-Keeps :
      (pg : Pg) (span : Option Bytes) (limit : ℤ) → KeepsExec P (list_audit pg span limit)
  unfolding list_audit timed select_audit
  list_audit-Keeps pg span limit w h =
      send-KeepsExec P pg (select_audit pg (clamp_limit limit)) (λ at locked db g. g) w h

  with_count-Keeps :
      (ts : List Ticket) (p : Result ℕ × World) (x : Exchange)
      → P p.1.db
      → P (with_count ts p x).world.db
  unfolding write
  with_count-Keeps ts (ok n, w) x h = h
  with_count-Keeps ts (err e, w) x h = h

  show_index-Keeps :
      (pg : Pg) (span : Option Bytes) (p : Result (List Ticket) × World) (x : Exchange)
      → P p.1.db
      → P (show_index pg span p x).world.db
  unfolding http_error
  show_index-Keeps pg span (ok ts, w) x h =
      with_count-Keeps ts (count_open_tickets pg span w) x (count_open_tickets-Keeps pg span w h)
  show_index-Keeps pg span (err e, w) x h = h

  pub index-Keeps : (pg : Pg) → KeepsHandler P (index_handler pg)
  unfolding index_handler
  index-Keeps pg r x h =
      show_index-Keeps pg r.context.span (list_tickets pg r.context.span [] x.world) x
        (list_tickets-Keeps pg r.context.span [] x.world h)

  show_tickets-Keeps :
      (p : Result (List Ticket) × World) (x : Exchange) → P p.1.db → P (show_tickets p x).world.db
  unfolding http_error write_json
  show_tickets-Keeps (ok ts, w) x h = h
  show_tickets-Keeps (err e, w) x h = h

  pub list_tickets_handler-Keeps : (pg : Pg) → KeepsHandler P (list_tickets_handler pg)
  unfolding list_tickets_handler
  list_tickets_handler-Keeps pg r x h =
      show_tickets-Keeps (list_tickets pg r.context.span (r.query (str "status")) x.world) x
        (list_tickets-Keeps pg r.context.span (r.query (str "status")) x.world h)

  show_audit-Keeps :
      (p : Result (List AuditEntry) × World) (x : Exchange) → P p.1.db → P (show_audit p x).world.db
  unfolding http_error write_json
  show_audit-Keeps (ok es, w) x h = h
  show_audit-Keeps (err e, w) x h = h

  pub list_audit_handler-Keeps : (pg : Pg) → KeepsHandler P (list_audit_handler pg)
  unfolding list_audit_handler
  list_audit_handler-Keeps pg r x h =
      show_audit-Keeps (list_audit pg r.context.span (atoi (r.query (str "limit"))).0 x.world) x
        (list_audit-Keeps pg r.context.span (atoi (r.query (str "limit"))).0 x.world h)

  show_ready-Keeps :
      (p : Result (Unit {0}) × World) (x : Exchange) → P p.1.db → P (show_ready p x).world.db
  unfolding http_error write
  show_ready-Keeps (ok u, w) x h = h
  show_ready-Keeps (err e, w) x h = h

  pub healthz-Keeps : KeepsHandler P healthz_handler
  unfolding healthz_handler
  healthz-Keeps r x h = h

  pub readyz-Keeps : (pg : Pg) → KeepsHandler P (readyz_handler pg)
  unfolding readyz_handler
  readyz-Keeps pg r x h =
      show_ready-Keeps (send pg ping_statement x.world) x
        (send-KeepsExec P pg ping_statement (λ at locked db g. g) x.world h)

  count_created-Keeps :
      (priority : Priority) (enqueued : Bool) (w : World)
      → P w.db
      → P (count_created priority enqueued w).db
  count_created-Keeps priority true w h = h
  count_created-Keeps priority false w h = h

  show_created-Keeps :
      (pg : Pg) (r : Request) (priority : Priority) (p : Result (Ticket × Bool) × World)
      (x : Exchange)
      → P p.1.db
      → P (show_created pg r priority p x).world.db
  unfolding show_created http_error write_json
  show_created-Keeps pg r priority (err e, w) x h = h
  show_created-Keeps pg r priority (ok (t, enqueued), w) x h =
      let kept =
        refresh-Keeps pg r.context.span (count_created priority enqueued w)
          (count_created-Keeps priority enqueued w h) in
      elim (Bool-cases (wants_html r)) [
        | inl html ↦ rw (html, show_created) kept
        | inr json ↦ rw (json, show_created) kept
      ]

  create_parsed-Keeps :
      (pg : Pg) (otel : Otel) (r : Request) (b : Result (Bytes × Bytes × Priority)) (x : Exchange)
      → ((title description : Bytes) (priority : Priority)
          → KeepsExec P
              (create_ticket_and_enqueue pg otel r.context.span title description priority))
      → P x.world.db
      → P (create_parsed pg otel r b x).world.db
  unfolding create_parsed http_error
  create_parsed-Keeps pg otel r (err e) x k h = h
  create_parsed-Keeps pg otel r (ok (title, description, priority)) x k h =
      show_created-Keeps pg r priority
        (create_ticket_and_enqueue pg otel r.context.span title description priority x.world) x
        (k title description priority x.world h)

  pub create_ticket_handler-Keeps :
      (pg : Pg) (otel : Otel) (p : Platform)
      → ((span : Option Bytes) (title description : Bytes) (priority : Priority)
          → KeepsExec P (create_ticket_and_enqueue pg otel span title description priority))
      → KeepsHandler P (create_ticket_handler pg otel p)
  unfolding create_ticket_handler
  create_ticket_handler-Keeps pg otel p k r x h =
      create_parsed-Keeps pg otel r (parse_create p r) x (k r.context.span) h

  show_closed-Keeps :
      (pg : Pg) (r : Request) (p : Result Ticket × World) (x : Exchange)
      → P p.1.db
      → P (show_closed pg r p x).world.db
  unfolding show_closed http_error write_json write
  show_closed-Keeps pg r (err e, w) x h = elim (Bool-cases (is_not_found e)) [
    | inl missing ↦ rw (missing, show_closed) h
    | inr failed ↦ rw (failed, show_closed) h
  ]
  show_closed-Keeps pg r (ok t, w) x h =
      let kept = refresh-Keeps pg r.context.span _ h in
      elim (Bool-cases (wants_html r)) [
        | inl html ↦ rw (html, show_closed) kept
        | inr json ↦ rw (json, show_closed) kept
      ]

  close_parsed-Keeps :
      (pg : Pg) (r : Request) (n : ℤ × Option NumError) (x : Exchange)
      → ((id : ℤ) → KeepsExec P (set_ticket_status pg r.context.span id status_closed))
      → P x.world.db
      → P (close_parsed pg r n x).world.db
  unfolding close_parsed http_error
  close_parsed-Keeps pg r (id, some e) x k h = h
  close_parsed-Keeps pg r (id, none) x k h =
      show_closed-Keeps pg r (set_ticket_status pg r.context.span id status_closed x.world) x
        (k id x.world h)

  pub close_ticket_handler-Keeps :
      (pg : Pg)
      → ((span : Option Bytes) (id : ℤ) → KeepsExec P (set_ticket_status pg span id status_closed))
      → KeepsHandler P (close_ticket_handler pg)
  unfolding close_ticket_handler
  close_ticket_handler-Keeps pg k r x h =
      close_parsed-Keeps pg r (parse_int r.path_id) x (k r.context.span) h
