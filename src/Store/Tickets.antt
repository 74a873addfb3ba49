-- ===== src/Store/Tickets.antt =====
-- internal/store/tickets.go. Each SQL text is a `Statement`, each method a function into `Exec`.
pub mod Valid
pub mod Creation
pub mod Listing
pub mod Closing
use projet_etude_app_demo.Prelude.{
  ℕ, suc, ℤ, is_nat, leb_ℤ, Bool, true, false, ◌&&◌, Bytes, str, str_eq, format_nat, List, [], ◌∷◌,
  ◌++◌, select, count_if, take, Option, none, some, if◌then◌else◌,
}
use projet_etude_app_demo.Model.{
  Time, Ticket, Priority, Status, JobKind, priority_high, status_open, job_kind_webhook_notify,
}
use projet_etude_app_demo.Metrics.{Span}
use projet_etude_app_demo.Store.Db.{
  Db, JobRow, pending, default_max_attempts, title_check, priority_check, status_check,
}
use projet_etude_app_demo.Store.Exec.{
  no_rows, driver, Result, ok, err, Pg, Statement, Exec, pure, rows_or_not_found, map_result, send,
  send_at, transaction, timed, ◌>>=◌,
}
use projet_etude_app_demo.Store.Trace.{Otel, inject_trace_context}

-- The row of a new ticket: the columns that the INSERT leaves out take their defaults.
unfoldable pub new_ticket : ℕ → Bytes → Bytes → Priority → Time → Ticket
new_ticket id title description priority at = record {
  id = id;
  title = title;
  description = description;
  priority = priority;
  status = status_open;
  created_at = at;
  updated_at = at;
}

-- INSERT INTO tickets … RETURNING. Text that the server does not accept is refused before the
-- statement runs; a row that fails a CHECK has used up its number.
unfoldable pub insert_ticket : Pg → Bytes → Bytes → Priority → Statement Ticket
unfolding title_check priority_check new_ticket
insert_ticket pg title description priority at locked db =
    let row = new_ticket (suc db.ticket_seq) title description priority at in
    if pg.accepts_text title && pg.accepts_text description && pg.accepts_text priority
    then (if title_check title && priority_check priority
        then (
          ok row,
          record db { ticket_seq = suc db.ticket_seq; tickets = db.tickets ++ row ∷ [] },
        )
        else (err (driver (str "check")), record db { ticket_seq = suc db.ticket_seq }))
    else (err (driver (str "text")), db)

unfoldable pub create_ticket : Pg → Span → Bytes → Bytes → Priority → Exec Ticket
unfolding timed send insert_ticket
create_ticket pg span title description priority =
    timed pg span (str "create") (send pg (insert_ticket pg title description priority))

-- INSERT INTO jobs (kind, payload, trace_context): the other columns take their defaults.
unfoldable pub new_job : ℕ → JobKind → Bytes → Option Bytes → Time → JobRow
new_job id kind payload trace_context at = record {
  id = id;
  kind = kind;
  payload = payload;
  status = pending;
  attempts = 0;
  max_attempts = default_max_attempts;
  last_error = none;
  run_after = at;
  locked_at = none;
  locked_by = none;
  created_at = at;
  updated_at = at;
  trace_context = trace_context;
}

-- `$3::jsonb` of NULL is NULL.
abbrev pub jsonb_or_null : Pg → Option Bytes → Option (Option Bytes)
jsonb_or_null pg none = some none
jsonb_or_null pg (some text) = elim (pg.jsonb text) [ none ↦ none | some t ↦ some (some t) ]

unfoldable pub insert_job : Pg → JobKind → Bytes → Option Bytes → Statement (Unit {0})
unfolding new_job
insert_job pg kind payload trace_context at locked db = elim (pg.jsonb payload) [
  | none ↦ (err (driver (str "json")), db)
  | some stored ↦ elim (jsonb_or_null pg trace_context) [
    | none ↦ (err (driver (str "json")), db)
    | some tc ↦ (
      ok tt,
      record db {
        job_seq = suc db.job_seq;
        jobs = db.jobs ++ new_job (suc db.job_seq) kind stored tc at ∷ [];
      },
    )
  ]
]

-- `{"ticket_id":` + strconv.FormatInt(t.ID, 10) + `}`
unfoldable pub webhook_payload : ℕ → Bytes
webhook_payload id = str "{\"ticket_id\":" ++ format_nat id ++ str "}"

-- The job that goes with a ticket of high priority.
abbrev pub webhook_job : Pg → Otel → Span → Time → Ticket → Exec (Unit {0})
webhook_job pg otel span at t =
    send_at pg at (
      insert_job pg job_kind_webhook_notify (webhook_payload t.id) (inject_trace_context otel span))

unfoldable pub enqueue_if_high : Pg → Otel → Span → Time → Priority → Ticket → Exec (Ticket × Bool)
unfolding send_at insert_job
enqueue_if_high pg otel span at priority t =
    if str_eq priority priority_high
    then (webhook_job pg otel span at t >>= λ _. pure (t, true))
    else pure (t, false)

-- The part of CreateTicketAndEnqueue between Begin and Commit.
unfoldable pub create_and_enqueue_body :
    Pg → Otel → Span → Bytes → Bytes → Priority → Time → Exec (Ticket × Bool)
unfolding send_at insert_ticket enqueue_if_high
create_and_enqueue_body pg otel span title description priority at = do
  t ← send_at pg at (insert_ticket pg title description priority)
  enqueue_if_high pg otel span at priority t

unfoldable pub create_ticket_and_enqueue :
    Pg → Otel → Span → Bytes → Bytes → Priority → Exec (Ticket × Bool)
unfolding timed transaction create_and_enqueue_body
create_ticket_and_enqueue pg otel span title description priority =
    timed pg span (str "create_with_job")
      (transaction pg (create_and_enqueue_body pg otel span title description priority))

-- ORDER BY created_at DESC. SQL leaves the order of equal times open; here the row that was
-- inserted last comes first.
unfoldable pub insert_desc : Ticket → List Ticket → List Ticket
insert_desc t [] = t ∷ []
insert_desc t (u ∷ us) =
    if leb_ℤ u.created_at t.created_at then t ∷ u ∷ us else u ∷ insert_desc t us

unfoldable pub order_desc : List Ticket → List Ticket → List Ticket
unfolding insert_desc
order_desc sorted [] = sorted
order_desc sorted (t ∷ ts) = order_desc (insert_desc t sorted) ts

-- The WHERE clause is there only for a status that is not "".
abbrev pub has_status : Status → Ticket → Bool
has_status [] t = true
has_status (c ∷ s) t = str_eq t.status (c ∷ s)

unfoldable pub select_tickets : Pg → Status → Statement (List Ticket)
unfolding order_desc
select_tickets pg status at locked db =
    if pg.accepts_text status
    then (ok (take 200 (order_desc [] (select (has_status status) db.tickets))), db)
    else (err (driver (str "text")), db)

unfoldable pub list_tickets : Pg → Span → Status → Exec (List Ticket)
unfolding timed send select_tickets
list_tickets pg span status = timed pg span (str "list") (send pg (select_tickets pg status))

-- The first row with this number: `id` is the primary key.
unfoldable pub find_ticket : ℤ → List Ticket → Option Ticket
find_ticket id [] = none
find_ticket id (t ∷ ts) = if is_nat id t.id then some t else find_ticket id ts

abbrev pub row_or_none : Option Ticket → Db → Result Ticket × Db
row_or_none none db = (err no_rows, db)
row_or_none (some t) db = (ok t, db)

unfoldable pub select_ticket : ℤ → Statement Ticket
unfolding find_ticket
select_ticket id at locked db = row_or_none (find_ticket id db.tickets) db

unfoldable pub get_ticket : Pg → Span → ℤ → Exec Ticket
unfolding timed send select_ticket
get_ticket pg span id =
    timed pg span (str "get") (map_result rows_or_not_found (send pg (select_ticket id)))

abbrev pub with_status : Status → Time → Ticket → Ticket
with_status status at t = record t { status = status; updated_at = at }

unfoldable pub set_status_in : ℤ → Status → Time → List Ticket → List Ticket
set_status_in id status at [] = []
set_status_in id status at (t ∷ ts) =
    if is_nat id t.id then with_status status at t ∷ ts else t ∷ set_status_in id status at ts

abbrev pub updated_or_none : Status → Time → ℤ → Option Ticket → Db → Result Ticket × Db
updated_or_none status at id none db = (err no_rows, db)
updated_or_none status at id (some t) db =
    if status_check status
    then (
      ok (with_status status at t),
      record db { tickets = set_status_in id status at db.tickets },
    )
    else (err (driver (str "check")), db)

unfoldable pub update_ticket_status : ℤ → Status → Statement Ticket
unfolding find_ticket set_status_in status_check
update_ticket_status id status at locked db =
    updated_or_none status at id (find_ticket id db.tickets) db

unfoldable pub set_ticket_status : Pg → Span → ℤ → Status → Exec Ticket
unfolding timed send update_ticket_status
set_ticket_status pg span id status =
    timed pg span (str "set_status")
      (map_result rows_or_not_found (send pg (update_ticket_status id status)))

abbrev pub is_open : Ticket → Bool
is_open t = str_eq t.status status_open

unfoldable pub count_open : Statement ℕ
count_open at locked db = (ok (count_if is_open db.tickets), db)

unfoldable pub count_open_tickets : Pg → Span → Exec ℕ
unfolding timed send count_open
count_open_tickets pg span = timed pg span (str "count_open") (send pg count_open)
