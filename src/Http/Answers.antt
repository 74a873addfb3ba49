-- ===== src/Http/Answers.antt =====
-- The handlers of internal/httpapi/handlers.go that change tickets: the audit log as they leave it, and
-- the statuses that they answer with.
use projet_etude_app_demo.Prelude.{
  ℕ, ◌≤◌, ◌<◌, ◌≢◌, ◌≡◌, ◌⊎◌, refl, Bool, Bool-cases, Bytes, str, ℤ, List, NumError, Option, none,
  some, Option-cases, inl, inr, arith,
}
use projet_etude_app_demo.Model.{
  Time, Ticket, Priority, AuditResult, audit_ok, audit_error, status_closed,
}
use projet_etude_app_demo.Metrics.{Span}
use projet_etude_app_demo.Request.{Request}
use projet_etude_app_demo.Store.Db.{Db, AuditRow, keep_sequences}
use projet_etude_app_demo.Store.Exec.{Pg, World, Result, ok, err, is_not_found, timed}
use projet_etude_app_demo.Store.Trace.{Otel}
use projet_etude_app_demo.Store.Invariant.{Keeps, KeepsExec, send-KeepsExec}
use projet_etude_app_demo.Store.Transactions.{transaction-KeepsExec}
use projet_etude_app_demo.Store.Tickets.{
  create_ticket_and_enqueue, create_and_enqueue_body, set_ticket_status, insert_ticket, insert_job,
  update_ticket_status, find_ticket, updated_or_none, jsonb_or_null,
}
use projet_etude_app_demo.Store.Tickets.Valid.{create_body-Keeps}
use projet_etude_app_demo.Http.Exchange.{Exchange, http_error, write_header, write, write_json}
use projet_etude_app_demo.Http.Input.{wants_html}
use projet_etude_app_demo.Http.Wrappers.{audit_result}
use projet_etude_app_demo.Http.Handlers.{create_parsed, show_created, close_parsed, show_closed}

-- The log is a given one.
abbrev pub HasLog : List AuditRow → Db → Type 0
HasLog log db = db.audit_log ≡ log

insert_ticket-log :
    (log : List AuditRow) (pg : Pg) (title description : Bytes) (priority : Priority)
    → Keeps (HasLog log) (insert_ticket pg title description priority)
unfolding insert_ticket
insert_ticket-log log pg title description priority at locked db h = ground (arith, h)

insert_job-log :
    (log : List AuditRow) (pg : Pg) (kind payload : Bytes) (tc : Option Bytes)
    → Keeps (HasLog log) (insert_job pg kind payload tc)
unfolding insert_job
insert_job-log log pg kind payload tc at locked db h = elim (Option-cases (pg.jsonb payload)) [
  | inl bad ↦ rw (bad, insert_job) h
  | inr (stored, good) ↦ elim (Option-cases (jsonb_or_null pg tc)) [
    | inl bad ↦ rw (good, bad, insert_job) h
    | inr (t, e) ↦ rw (good, e, insert_job) h
  ]
]

pub create-log :
    (log : List AuditRow) (pg : Pg) (otel : Otel) (span : Span) (title description : Bytes)
    (priority : Priority)
    → KeepsExec (HasLog log) (create_ticket_and_enqueue pg otel span title description priority)
unfolding create_ticket_and_enqueue timed keep_sequences
create-log log pg otel span title description priority w h =
    transaction-KeepsExec (HasLog log) (λ base db g. g) pg
      (create_and_enqueue_body pg otel span title description priority)
      (create_body-Keeps pg otel span (HasLog log) (insert_ticket-log log pg)
        (insert_job-log log pg (str "webhook.notify")) title description priority)
      w h

updated_or_none-log :
    (log : List AuditRow) (status : Bytes) (at : Time) (id : ℤ) (t : Option Ticket) (db : Db)
    → HasLog log db
    → HasLog log (updated_or_none status at id t db).1
updated_or_none-log log status at id none db h = h
updated_or_none-log log status at id (some t) db h = ground (arith, h)

pub set_status-log :
    (log : List AuditRow) (pg : Pg) (span : Span) (id : ℤ) (status : Bytes)
    → KeepsExec (HasLog log) (set_ticket_status pg span id status)
unfolding set_ticket_status timed update_ticket_status
set_status-log log pg span id status w h =
    send-KeepsExec (HasLog log) pg (update_ticket_status id status)
      (λ at locked db g. updated_or_none-log log status at id (find_ticket id db.tickets) db g) w h

-- A status of success, or one of failure that is neither 401 nor 403.
abbrev pub IsPlain : ℕ → Type 0
IsPlain code = ((200 ≤ code) × (code < 400)) ⊎ ((400 ≤ code) × (code ≢ 401) × (code ≢ 403))

-- The result that the audit log is to have for such a status.
abbrev pub Tells : ℕ → AuditResult → Type 0
Tells code result =
    ((200 ≤ code) × (code < 400) × (result ≡ audit_ok)) ⊎ ((400 ≤ code) × (result ≡ audit_error))

pub audit_result-Tells : (code : ℕ) → IsPlain code → Tells code (audit_result code)
unfolding audit_result
audit_result-Tells code (inl (low, high)) = inl (low, high, ground arith)
audit_result-Tells code (inr (low, not_401, not_403)) = inr (low, ground arith)

failed-IsPlain : (code : ℕ) → (code ≡ 400) ⊎ (404 ≤ code) → IsPlain code
failed-IsPlain code (inl e) =
    inr (omega (arith, e), λ k. omega (arith, e, k), λ k. omega (arith, e, k))
failed-IsPlain code (inr high) = inr (omega arith, λ k. omega (arith, k), λ k. omega (arith, k))

show_created-IsPlain :
    (pg : Pg) (r : Request) (priority : Priority) (p : Result (Ticket × Bool) × World)
    (x : Exchange)
    → IsPlain (show_created pg r priority p x).recorded
unfolding show_created http_error write_json write_header write
show_created-IsPlain pg r priority (err e, w) x = failed-IsPlain 500 (inr (omega arith))
show_created-IsPlain pg r priority (ok (t, enqueued), w) x = elim (Bool-cases (wants_html r)) [
  | inl html ↦ inl (rw (html, show_created) (omega arith, omega arith))
  | inr json ↦ inl (rw (json, show_created) (omega arith, omega arith))
]

pub create_parsed-IsPlain :
    (pg : Pg) (otel : Otel) (r : Request) (b : Result (Bytes × Bytes × Priority)) (x : Exchange)
    → IsPlain (create_parsed pg otel r b x).recorded
unfolding create_parsed http_error write_header write
create_parsed-IsPlain pg otel r (err e) x = failed-IsPlain 400 (inl refl)
create_parsed-IsPlain pg otel r (ok (title, description, priority)) x =
    show_created-IsPlain pg r priority
      (create_ticket_and_enqueue pg otel r.context.span title description priority x.world) x

show_closed-IsPlain :
    (pg : Pg) (r : Request) (p : Result Ticket × World) (x : Exchange)
    → x.recorded ≡ 200
    → IsPlain (show_closed pg r p x).recorded
unfolding show_closed http_error write_json write_header write
show_closed-IsPlain pg r (err e, w) x start = elim (Bool-cases (is_not_found e)) [
  | inl missing ↦ rw (missing, show_closed) (failed-IsPlain 404 (inr (omega arith)))
  | inr failed ↦ rw (failed, show_closed) (failed-IsPlain 500 (inr (omega arith)))
]
show_closed-IsPlain pg r (ok t, w) x start = elim (Bool-cases (wants_html r)) [
  | inl html ↦ inl (rw (html, show_closed) (omega (arith, start), omega (arith, start)))
  | inr json ↦ inl (rw (json, show_closed) (omega arith, omega arith))
]

pub close_parsed-IsPlain :
    (pg : Pg) (r : Request) (n : ℤ × Option NumError) (x : Exchange)
    → x.recorded ≡ 200
    → IsPlain (close_parsed pg r n x).recorded
unfolding close_parsed http_error write_header write
close_parsed-IsPlain pg r (id, some e) x start = failed-IsPlain 400 (inl refl)
close_parsed-IsPlain pg r (id, none) x start =
    show_closed-IsPlain pg r (set_ticket_status pg r.context.span id status_closed x.world) x start
