-- ===== src/Http/Handlers.antt =====
-- The handlers of internal/httpapi/handlers.go. A message of http.Error that wraps another error's
-- text is `prefix ++ error_text e`.
use projet_etude_app_demo.Prelude.{
  ℕ, Bool, true, false, Bytes, str, ℤ, parse_int, atoi, NumError, List, [], ◌∷◌, ◌++◌, Option, none,
  some, if◌then◌else◌,
}
use projet_etude_app_demo.Model.{
  AuditEntry, Ticket, Priority, status_closed, job_kind_webhook_notify,
}
use projet_etude_app_demo.Metrics.{
  Span, inc, set_gauge, tickets_created_total, tickets_closed_total, jobs_enqueued_total,
  tickets_open,
}
use projet_etude_app_demo.Request.{Request}
use projet_etude_app_demo.Store.Exec.{
  is_not_found, error_text, Result, ok, err, Pg, Statement, World, send,
}
use projet_etude_app_demo.Store.Trace.{Otel}
use projet_etude_app_demo.Store.Tickets.{
  list_tickets, create_ticket_and_enqueue, set_ticket_status, count_open_tickets,
}
use projet_etude_app_demo.Store.Audit.{list_audit}
use projet_etude_app_demo.Http.Exchange.{
  text, json_ticket, json_tickets, json_entries, row_html, index_html, Exchange, returned, Handler,
  write_header, write, http_error, write_json, with_world, with_effect,
}
use projet_etude_app_demo.Http.Input.{Platform, parse_create, wants_html}

-- RefreshOpenGauge; its error is only logged.
abbrev pub set_open : Result ℕ × World → World
set_open (err e, w) = w
set_open (ok n, w) = with_effect (set_gauge tickets_open n) w

unfoldable pub refresh_open_gauge : Pg → Span → World → World
unfolding count_open_tickets
refresh_open_gauge pg span w = set_open (count_open_tickets pg span w)

-- The number on the index page: 0 if it cannot be had.
abbrev pub with_count : List Ticket → Result ℕ × World → Exchange → Exchange
with_count ts (err e, w) x = write (index_html ts 0) (with_world w x)
with_count ts (ok n, w) x = write (index_html ts n) (with_world w x)

abbrev pub show_index : Pg → Span → Result (List Ticket) × World → Exchange → Exchange
show_index pg span (err e, w) x = http_error (str "list: " ++ error_text e) 500 (with_world w x)
show_index pg span (ok ts, w) x = with_count ts (count_open_tickets pg span w) x

unfoldable pub index_handler : Pg → Handler
unfolding list_tickets count_open_tickets write http_error
index_handler pg r x =
    returned (show_index pg r.context.span (list_tickets pg r.context.span [] x.world) x)

abbrev pub show_tickets : Result (List Ticket) × World → Exchange → Exchange
show_tickets (err e, w) x = http_error (error_text e) 500 (with_world w x)
show_tickets (ok ts, w) x = write_json 200 (json_tickets ts) (with_world w x)

unfoldable pub list_tickets_handler : Pg → Handler
unfolding list_tickets http_error write_json
list_tickets_handler pg r x =
    returned (show_tickets (list_tickets pg r.context.span (r.query (str "status")) x.world) x)

abbrev pub count_created : Priority → Bool → World → World
count_created priority true w =
    with_effect (inc jobs_enqueued_total (job_kind_webhook_notify ∷ []))
      (with_effect (inc tickets_created_total (priority ∷ [])) w)
count_created priority false w = with_effect (inc tickets_created_total (priority ∷ [])) w

-- The answer to a create, with the row as HTML or the ticket as JSON.
unfoldable pub show_created :
    Pg → Request → Priority → Result (Ticket × Bool) × World → Exchange → Exchange
unfolding refresh_open_gauge write write_header write_json http_error
show_created pg r priority (err e, w) x =
    http_error (str "create: " ++ error_text e) 500 (with_world w x)
show_created pg r priority (ok (t, enqueued), w) x =
    let y =
      with_world (refresh_open_gauge pg r.context.span (count_created priority enqueued w)) x in
    if wants_html r
    then write (row_html t) (write_header 201 y)
    else write_json 201 (json_ticket t) y

unfoldable pub create_parsed :
    Pg → Otel → Request → Result (Bytes × Bytes × Priority) → Exchange → Exchange
unfolding show_created create_ticket_and_enqueue http_error
create_parsed pg otel r (err e) x = http_error (error_text e) 400 x
create_parsed pg otel r (ok (title, description, priority)) x =
    show_created pg r priority
      (create_ticket_and_enqueue pg otel r.context.span title description priority x.world) x

unfoldable pub create_ticket_handler : Pg → Otel → Platform → Handler
unfolding create_parsed
create_ticket_handler pg otel p r x = returned (create_parsed pg otel r (parse_create p r) x)

-- The answer to a close. The row is written with no status of its own.
unfoldable pub show_closed : Pg → Request → Result Ticket × World → Exchange → Exchange
unfolding refresh_open_gauge write write_json http_error
show_closed pg r (err e, w) x =
    if is_not_found e
    then http_error (str "not found") 404 (with_world w x)
    else http_error (error_text e) 500 (with_world w x)
show_closed pg r (ok t, w) x =
    let y =
      with_world
        (refresh_open_gauge pg r.context.span (with_effect (inc tickets_closed_total []) w)) x in
    if wants_html r then write (row_html t) y else write_json 200 (json_ticket t) y

unfoldable pub close_parsed : Pg → Request → ℤ × Option NumError → Exchange → Exchange
unfolding show_closed set_ticket_status http_error
close_parsed pg r (id, some e) x = http_error (str "invalid id") 400 x
close_parsed pg r (id, none) x =
    show_closed pg r (set_ticket_status pg r.context.span id status_closed x.world) x

unfoldable pub close_ticket_handler : Pg → Handler
unfolding close_parsed
close_ticket_handler pg r x = returned (close_parsed pg r (parse_int r.path_id) x)

abbrev pub show_audit : Result (List AuditEntry) × World → Exchange → Exchange
show_audit (err e, w) x = http_error (error_text e) 500 (with_world w x)
show_audit (ok es, w) x = write_json 200 (json_entries es) (with_world w x)

-- A limit that is no number is 0, or the bound that it passes.
unfoldable pub list_audit_handler : Pg → Handler
unfolding list_audit http_error write_json
list_audit_handler pg r x =
    returned (show_audit (list_audit pg r.context.span (atoi (r.query (str "limit"))).0 x.world) x)

unfoldable pub healthz_handler : Handler
unfolding write write_header
healthz_handler r x = returned (write (text (str "ok\n")) (write_header 200 x))

-- Store.Ping, as a statement that does nothing.
abbrev pub ping_statement : Statement (Unit {0})
ping_statement at locked db = (ok tt, db)

abbrev pub show_ready : Result (Unit {0}) × World → Exchange → Exchange
show_ready (err e, w) x = http_error (str "db unavailable: " ++ error_text e) 503 (with_world w x)
show_ready (ok u, w) x = write (text (str "ready\n")) (with_world w x)

unfoldable pub readyz_handler : Pg → Handler
unfolding send write http_error
readyz_handler pg r x = returned (show_ready (send pg ping_statement x.world) x)
