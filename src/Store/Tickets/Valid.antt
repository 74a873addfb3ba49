-- ===== src/Store/Tickets/Valid.antt =====
-- The methods of internal/store/tickets.go and the constraints of the schema.
use projet_etude_app_demo.Prelude.{
  suc, ◌≡◌, refl, ℤ, true, Bool-cases, inl, inr, Bytes, List, [], ◌∷◌, All, Option, Option-cases,
  arith, ◌&&◌, str_eq,
}
use projet_etude_app_demo.Model.{
  Time, Ticket, Priority, Status, JobKind, priority_high, job_kind_webhook_notify,
}
use projet_etude_app_demo.Store.Db.{Db, title_check, priority_check, status_check}
use projet_etude_app_demo.Store.Exec.{Pg, pure, send_at, timed}
use projet_etude_app_demo.Store.Trace.{Otel, inject_trace_context}
use projet_etude_app_demo.Store.Invariant.{
  IsValid, IsGoodTicket, ticket_ids, Keeps, KeepsExec, add_ticket-IsValid, skip_ticket-IsValid,
  add_job-IsValid, keep_tickets-IsValid, send_at-KeepsExec, send-KeepsExec,
}
use projet_etude_app_demo.Store.Transactions.{
  Advances, bind-KeepsExec, transaction-IsValid, IsValidFrom,
}
use projet_etude_app_demo.Store.Tickets.{
  insert_ticket, insert_job, new_job, set_status_in, find_ticket, update_ticket_status,
  jsonb_or_null, enqueue_if_high, webhook_job, webhook_payload, set_ticket_status,
  create_ticket_and_enqueue, create_and_enqueue_body,
}

pub insert_ticket-IsValid :
    (pg : Pg) (title description : Bytes) (priority : Priority)
    → Keeps IsValid (insert_ticket pg title description priority)
unfolding insert_ticket status_check str_eq
insert_ticket-IsValid pg title description priority at locked db h =
    elim (Bool-cases
      (pg.accepts_text title && pg.accepts_text description && pg.accepts_text priority)) [
        | inr rejected ↦ rw rejected h
        | inl accepted ↦ elim (Bool-cases (title_check title && priority_check priority)) [
          | inr bad ↦ rw (accepted, bad) (skip_ticket-IsValid db h)
          | inl good ↦
              rw (accepted, good)
                (add_ticket-IsValid db _ refl (ground (arith, good), ground (arith, good), refl) h)
        ]
      ]

pub insert_job-IsValid :
    (pg : Pg) (kind : JobKind) (payload : Bytes) (trace_context : Option Bytes)
    → Keeps IsValid (insert_job pg kind payload trace_context)
unfolding insert_job
insert_job-IsValid pg kind payload trace_context at locked db h =
    elim (Option-cases (pg.jsonb payload)) [
      | inl bad ↦ rw (bad, insert_job) h
      | inr (stored, good) ↦ elim (Option-cases (jsonb_or_null pg trace_context)) [
        | inl bad ↦ rw (good, bad, insert_job) h
        | inr (tc, e) ↦
            rw (good, e, insert_job)
              (add_job-IsValid db (new_job (suc db.job_seq) kind stored tc at) refl h)
      ]
    ]

ids-set_status_in :
    (id : ℤ) (status : Status) (at : Time) (ts : List Ticket)
    → ticket_ids (set_status_in id status at ts) ≡ ticket_ids ts
unfolding set_status_in
ids-set_status_in id status at [] = refl
ids-set_status_in id status at (t ∷ ts) = ground (arith, ids-set_status_in id status at ts)

good-set_status_in :
    (id : ℤ) (status : Status) (at : Time) (ts : List Ticket)
    → status_check status ≡ true
    → All IsGoodTicket ts
    → All IsGoodTicket (set_status_in id status at ts)
unfolding set_status_in
good-set_status_in id status at [] c h = tt
good-set_status_in id status at (t ∷ ts) c (g, h) =
    ground (arith, good-set_status_in id status at ts c h)

pub update_ticket_status-IsValid :
    (id : ℤ) (status : Status) → Keeps IsValid (update_ticket_status id status)
unfolding update_ticket_status
update_ticket_status-IsValid id status at locked db h =
    elim (Option-cases (find_ticket id db.tickets)) [
      | inl missing ↦ rw missing h
      | inr (t, found) ↦ elim (Bool-cases (status_check status)) [
        | inr bad ↦ rw (found, bad) h
        | inl good ↦
            rw (found, good)
              (keep_tickets-IsValid db (set_status_in id status at db.tickets)
                (ids-set_status_in id status at db.tickets)
                (good-set_status_in id status at db.tickets good h.good_tickets) h)
      ]
    ]

insert_ticket-Advances :
    (base : Db) (pg : Pg) (title description : Bytes) (priority : Priority)
    → Keeps (Advances base) (insert_ticket pg title description priority)
unfolding insert_ticket
insert_ticket-Advances base pg title description priority at locked db h =
    elim (Bool-cases
      (pg.accepts_text title && pg.accepts_text description && pg.accepts_text priority)) [
        | inr rejected ↦ rw rejected h
        | inl accepted ↦ elim (Bool-cases (title_check title && priority_check priority)) [
          | inr bad ↦
              rw (accepted, bad)
                (record {
                  ticket_seq = omega (arith, h.ticket_seq);
                  job_seq = h.job_seq;
                  audit_seq = h.audit_seq;
                })
          | inl good ↦
              rw (accepted, good)
                (record {
                  ticket_seq = omega (arith, h.ticket_seq);
                  job_seq = h.job_seq;
                  audit_seq = h.audit_seq;
                })
        ]
      ]

insert_job-Advances :
    (base : Db) (pg : Pg) (kind : JobKind) (payload : Bytes) (trace_context : Option Bytes)
    → Keeps (Advances base) (insert_job pg kind payload trace_context)
unfolding insert_job
insert_job-Advances base pg kind payload trace_context at locked db h =
    elim (Option-cases (pg.jsonb payload)) [
      | inl bad ↦ rw (bad, insert_job) h
      | inr (stored, good) ↦ elim (Option-cases (jsonb_or_null pg trace_context)) [
        | inl bad ↦ rw (good, bad, insert_job) h
        | inr (tc, e) ↦
            rw (good, e, insert_job)
              (record {
                ticket_seq = h.ticket_seq;
                job_seq = omega (arith, h.job_seq);
                audit_seq = h.audit_seq;
              })
      ]
    ]

-- CreateTicketAndEnqueue keeps the constraints, whatever becomes of its statements.
module _ (pg : Pg) (otel : Otel) (span : Option Bytes) where
  webhook_job-Keeps :
      (P : Db → Type 0)
      → ((payload : Bytes) (tc : Option Bytes)
          → Keeps P (insert_job pg job_kind_webhook_notify payload tc))
      → (at : Time) (t : Ticket) → KeepsExec P (webhook_job pg otel span at t)
  webhook_job-Keeps P k at t =
      send_at-KeepsExec P pg at
        (insert_job pg job_kind_webhook_notify (webhook_payload t.id)
          (inject_trace_context otel span))
        (k (webhook_payload t.id) (inject_trace_context otel span))

  enqueue_if_high-Keeps :
      (P : Db → Type 0)
      → ((payload : Bytes) (tc : Option Bytes)
          → Keeps P (insert_job pg job_kind_webhook_notify payload tc))
      → (at : Time) (priority : Priority) (t : Ticket)
      → KeepsExec P (enqueue_if_high pg otel span at priority t)
  unfolding enqueue_if_high
  enqueue_if_high-Keeps P k at priority t w h = elim (Bool-cases (str_eq priority priority_high)) [
    | inr low ↦ rw (low, enqueue_if_high) h
    | inl high ↦
        rw (high, enqueue_if_high)
          (bind-KeepsExec P (webhook_job pg otel span at t) (λ _. pure (t, true))
            (webhook_job-Keeps P k at t) (λ _ v g. g) w h)
  ]

  pub create_body-Keeps :
      (P : Db → Type 0)
      → ((title description : Bytes) (priority : Priority)
          → Keeps P (insert_ticket pg title description priority))
      → ((payload : Bytes) (tc : Option Bytes)
          → Keeps P (insert_job pg job_kind_webhook_notify payload tc))
      → (title description : Bytes) (priority : Priority) (at : Time)
      → KeepsExec P (create_and_enqueue_body pg otel span title description priority at)
  unfolding create_and_enqueue_body
  create_body-Keeps P k l title description priority at =
      bind-KeepsExec P (send_at pg at (insert_ticket pg title description priority))
        (λ t. enqueue_if_high pg otel span at priority t)
        (send_at-KeepsExec P pg at (insert_ticket pg title description priority)
          (k title description priority))
        (λ t. enqueue_if_high-Keeps P l at priority t)

  pub create_ticket_and_enqueue-IsValid :
      (title description : Bytes) (priority : Priority)
      → KeepsExec IsValid (create_ticket_and_enqueue pg otel span title description priority)
  unfolding create_ticket_and_enqueue timed
  create_ticket_and_enqueue-IsValid title description priority w h =
      transaction-IsValid pg (create_and_enqueue_body pg otel span title description priority)
        (λ base at.
          create_body-Keeps (IsValidFrom base)
            (λ title description priority at locked db (v, a). (
              insert_ticket-IsValid pg title description priority at locked db v,
              insert_ticket-Advances base pg title description priority at locked db a,
            ))
            (λ payload tc at locked db (v, a). (
              insert_job-IsValid pg job_kind_webhook_notify payload tc at locked db v,
              insert_job-Advances base pg job_kind_webhook_notify payload tc at locked db a,
            ))
            title description priority at)
        w h

  pub set_ticket_status-IsValid :
      (id : ℤ) (status : Status) → KeepsExec IsValid (set_ticket_status pg span id status)
  unfolding set_ticket_status timed
  set_ticket_status-IsValid id status w h =
      send-KeepsExec IsValid pg (update_ticket_status id status)
        (update_ticket_status-IsValid id status) w h
