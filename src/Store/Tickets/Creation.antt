-- ===== src/Store/Tickets/Creation.antt =====
-- CreateTicketAndEnqueue of internal/store/tickets.go: what it leaves, on every way that it ends.
use projet_etude_app_demo.Prelude.{
  ℕ, suc, ◌≡◌, ◌≢◌, refl, ◌∙◌, sym, ap, subst, Bool, true, Bool-cases, ◌⊎◌, inl, inr, Bytes, str_eq,
  str_eq_iff, ne_of_str_eq, List, [], ◌∷◌, ◌++◌, Option, some, Option-cases, arith,
}
use projet_etude_app_demo.Model.{Time, Ticket, Priority, priority_high, job_kind_webhook_notify}
use projet_etude_app_demo.Metrics.{Span}
use projet_etude_app_demo.Store.Db.{Db, JobRow, keep_sequences}
use projet_etude_app_demo.Store.Exec.{
  Result, ok, err, driver, Error, Pg, World, Exec, pure, answered, refused, lost, Reply,
  Reply-cases, commit_reply, send, send_at, end_of, transaction, timed, and_then, and_then-eq-ok,
  send_at-eq-ok, err-ne-ok,
}
use projet_etude_app_demo.Store.Trace.{Otel, inject_trace_context}
use projet_etude_app_demo.Store.Tickets.{
  new_ticket, insert_ticket, insert_job, new_job, jsonb_or_null, webhook_payload, webhook_job,
  enqueue_if_high, create_and_enqueue_body, create_ticket_and_enqueue,
}

insert_ticket-eq-ok :
    (pg : Pg) (title description : Bytes) (priority : Priority) (at : Time) (locked : ℕ → Bool)
    (db : Db) (t : Ticket)
    → (insert_ticket pg title description priority at locked db).0 ≡ ok t
    → (t ≡ new_ticket (suc db.ticket_seq) title description priority at)
      × ((insert_ticket pg title description priority at locked db).1
          ≡ record db { ticket_seq = suc db.ticket_seq; tickets = db.tickets ++ t ∷ [] })
unfolding insert_ticket
insert_ticket-eq-ok pg title description priority at locked db t h = ground arith

insert_job-eq-ok :
    (pg : Pg) (kind payload : Bytes) (tc : Option Bytes) (at : Time) (locked : ℕ → Bool) (db : Db)
    (u : Unit {0})
    → (insert_job pg kind payload tc at locked db).0 ≡ ok u
    → (stored : Bytes) × (context : Option Bytes) × (pg.jsonb payload ≡ some stored)
      × (jsonb_or_null pg tc ≡ some context)
      × ((insert_job pg kind payload tc at locked db).1 ≡ record db {
        job_seq = suc db.job_seq;
        jobs = db.jobs ++ new_job (suc db.job_seq) kind stored context at ∷ [];
      })
unfolding insert_job
insert_job-eq-ok pg kind payload tc at locked db u h = elim (Option-cases (pg.jsonb payload)) [
  | inl bad ↦ absurd (err-ne-ok (rw (bad, insert_job) at h))
  | inr (stored, good) ↦ elim (Option-cases (jsonb_or_null pg tc)) [
    | inl bad ↦ absurd (err-ne-ok (rw (good, bad, insert_job) at h))
    | inr (context, e) ↦ (stored, context, good, e, rw (good, e, insert_job))
  ]
]

-- What the job that goes with a ticket does to the tables: one row of `jobs` for this ticket if the
-- priority is high, and nothing otherwise.
pub data JobAdded (pg : Pg) (otel : Otel) (span : Span) (priority : Priority) (id : ℕ) (at : Time)
    (jobs : List JobRow) (seq : ℕ) (after : List JobRow) : Type 0 where
  high :
      (stored : Bytes) (context : Option Bytes)
      → priority ≡ priority_high
      → pg.jsonb (webhook_payload id) ≡ some stored
      → jsonb_or_null pg (inject_trace_context otel span) ≡ some context
      → after ≡ jobs ++ new_job (suc seq) job_kind_webhook_notify stored context at ∷ []
      → JobAdded pg otel span priority id at jobs seq after
  other :
      priority ≢ priority_high → after ≡ jobs → JobAdded pg otel span priority id at jobs seq after

-- What a committed call has done to the tables.
pub record Committed (pg : Pg) (otel : Otel) (span : Span) (title description : Bytes)
    (priority : Priority) (before after : Db) (t : Ticket) : Type 0 where
  pub at : Time
  pub ticket : t ≡ new_ticket (suc before.ticket_seq) title description priority at
  pub tickets : after.tickets ≡ before.tickets ++ t ∷ []
  pub job : JobAdded pg otel span priority t.id at before.jobs before.job_seq after.jobs
  pub audit : after.audit_log ≡ before.audit_log

module _ (pg : Pg) (otel : Otel) (span : Span) (at : Time) (priority : Priority) (t : Ticket) where
  -- What a successful end of the body says of the tables in front of it.
  abbrev JobDone : Bool → Db → Result (Ticket × Bool) × World → Type 0
  JobDone is_high before x =
      (u : Ticket) (enqueued : Bool)
      → x.0 ≡ ok (u, enqueued)
      → (u ≡ t)
        × (enqueued ≡ is_high)
        × JobAdded pg otel span priority t.id at before.jobs before.job_seq x.1.db.jobs
        × (x.1.db.tickets ≡ before.tickets)
        × (x.1.db.audit_log ≡ before.audit_log)

  webhook_job-added :
      (w : World) (v : Unit {0})
      → priority ≡ priority_high
      → (webhook_job pg otel span at t w).0 ≡ ok v
      → let after = (webhook_job pg otel span at t w).1.db in
        JobAdded pg otel span priority t.id at w.db.jobs w.db.job_seq after.jobs
        × (after.tickets ≡ w.db.tickets)
        × (after.audit_log ≡ w.db.audit_log)
  webhook_job-added w v is_high h =
      let payload = webhook_payload t.id in
      let tc = inject_trace_context otel span in
      let (ran, kept) =
        send_at-eq-ok pg at (insert_job pg job_kind_webhook_notify payload tc) w v h in
      let (stored, context, good, e, tables) =
        insert_job-eq-ok pg job_kind_webhook_notify payload tc at (pg.locked w.calls) w.db v ran in
      (
        high stored context is_high good e (ap (λ d. d.jobs) (kept ∙ tables)),
        ap (λ d. d.tickets) (kept ∙ tables),
        ap (λ d. d.audit_log) (kept ∙ tables),
      )

  high-JobDone :
      (w : World)
      → str_eq priority priority_high ≡ true
      → JobDone true w.db (and_then (webhook_job pg otel span at t w) (λ _. pure (t, true)))
  high-JobDone w is_high u enqueued h =
      let (v, e, last, same) =
        and_then-eq-ok (webhook_job pg otel span at t w) (λ _. pure (t, true)) (u, enqueued) h in
      let (job, tickets, audit) =
        webhook_job-added w v ((str_eq_iff priority priority_high).0 is_high) e in
      rw same (cc, cc, job, tickets, audit)

  enqueue_if_high-JobDone :
      (w : World)
      → JobDone (str_eq priority priority_high) w.db (enqueue_if_high pg otel span at priority t w)
  unfolding enqueue_if_high
  enqueue_if_high-JobDone w = elim (Bool-cases (str_eq priority priority_high)) [
    | inl is_high ↦ rw (is_high, enqueue_if_high) (high-JobDone w is_high)
    | inr low ↦
        rw (low, enqueue_if_high)
          (λ u enqueued h.
            (cc, cc, other (ne_of_str_eq priority priority_high low) refl, refl, refl))
  ]

module _ (pg : Pg) (otel : Otel) (span : Span) (title description : Bytes)
    (priority : Priority) where
  abbrev body : Time → Exec (Ticket × Bool)
  body at = create_and_enqueue_body pg otel span title description priority at

  body-Committed :
      (at : Time) (w : World) (t : Ticket) (enqueued : Bool)
      → (body at w).0 ≡ ok (t, enqueued)
      → Committed pg otel span title description priority w.db (body at w).1.db t
        × (enqueued ≡ str_eq priority priority_high)
  unfolding create_and_enqueue_body
  body-Committed at w t enqueued h =
      let insert = insert_ticket pg title description priority in
      let (u, inserted, rest, same) = and_then-eq-ok (send_at pg at insert w) _ (t, enqueued) h in
      let (ran, stored) = send_at-eq-ok pg at insert w u inserted in
      let (row, tables) =
        insert_ticket-eq-ok pg title description priority at (pg.locked w.calls) w.db u ran in
      let (is_u, flag, job, tickets, audit) =
        enqueue_if_high-JobDone pg otel span at priority u (send_at pg at insert w).1 t enqueued
          rest in
      let e = stored ∙ tables in
      let job' =
        subst
          (λ d.
            JobAdded pg otel span priority u.id at d.jobs d.job_seq
              (enqueue_if_high pg otel span at priority u (send_at pg at insert w).1).1.db.jobs)
          e job in
      (
        record {
          at = at;
          ticket = is_u ∙ row;
          tickets =
              ap (λ x. x.1.db.tickets) same
              ∙ tickets
              ∙ ap (λ d. d.tickets) e
              ∙ ap (λ v. w.db.tickets ++ v ∷ []) (sym is_u);
          job =
              subst (λ js. JobAdded pg otel span priority t.id at w.db.jobs w.db.job_seq js)
                (sym (ap (λ x. x.1.db.jobs) same))
                (subst
                  (λ (v : Ticket).
                    JobAdded pg otel span priority v.id at w.db.jobs w.db.job_seq
                      (enqueue_if_high pg otel span at priority u
                        (send_at pg at insert w).1).1.db.jobs)
                  (sym is_u) job');
          audit = ap (λ x. x.1.db.audit_log) same ∙ audit ∙ ap (λ d. d.audit_log) e;
        },
        flag,
      )

-- The tables are as they were; a number of a sequence may have been used up.
abbrev pub IsRolledBack : Db → Db → Type 0
IsRolledBack before after =
    (after.tickets ≡ before.tickets)
    × (after.jobs ≡ before.jobs)
    × (after.audit_log ≡ before.audit_log)

-- How a transaction ends, by what its body returned.
abbrev Ended {ℓ} : {A : Type ℓ} → Db → Result A × World → Result A × World → Type ℓ
Ended {A} base body end =
    ((e : Error) × (end.0 ≡ err e) × IsRolledBack base end.1.db)
    ⊎ ((a : A) × (body.0 ≡ ok a)
        × (end.1.db ≡ body.1.db)
        × ((end.0 ≡ ok a) ⊎ ((t : Bytes) × (end.0 ≡ err (driver t)))))

commit_reply-Ended {ℓ} :
    {A : Type ℓ} (r : Reply) (base : Db) (a : A) (w w' : World)
    → w.db ≡ w'.db
    → Ended base (ok a, w) (commit_reply r base a w')
unfolding keep_sequences
commit_reply-Ended answered base a w w' e = inr (a, refl, sym e, inl refl)
commit_reply-Ended (refused t) base a w w' e = inl (driver t, refl, (refl, refl, refl))
commit_reply-Ended (lost t) base a w w' e = inr (a, refl, sym e, inr (t, refl))

end_of-Ended {ℓ} :
    {A : Type ℓ} (pg : Pg) (base : Db) (x : Result A × World) → Ended base x (end_of pg base x)
unfolding keep_sequences
end_of-Ended pg base (err e, w) = inl (e, refl, (refl, refl, refl))
end_of-Ended pg base (ok a, w) =
    commit_reply-Ended (pg.reply w.calls) base a w (record w { calls = suc w.calls }) refl

-- How a call of CreateTicketAndEnqueue ends.
abbrev pub Atomic :
    Pg → Otel → Span → Bytes → Bytes → Priority → Db → Result (Ticket × Bool) × World → Type 0
Atomic pg otel span title description priority before x =
    ((e : Error) × (x.0 ≡ err e) × IsRolledBack before x.1.db)
    ⊎ ((t : Ticket) × Committed pg otel span title description priority before x.1.db t
        × ((x.0 ≡ ok (t, str_eq priority priority_high))
            ⊎ ((text : Bytes) × (x.0 ≡ err (driver text)))))

module _ (pg : Pg) (otel : Otel) (span : Span) (title description : Bytes)
    (priority : Priority) where
  Atomic-transaction :
      (w : World)
      → Atomic pg otel span title description priority w.db
          (transaction pg (create_and_enqueue_body pg otel span title description priority) w)
  unfolding transaction send send_at
  Atomic-transaction w = elim (Reply-cases (pg.reply w.calls)) [
    | inl (inl e) ↦ rw (e, transaction) (ended (end_of pg w.db done) (end_of-Ended pg w.db done))
    | inl (inr (t, e)) ↦ rw (e, transaction) (inl (driver t, refl, (refl, refl, refl)))
    | inr (t, e) ↦ rw (e, transaction) (inl (driver t, refl, (refl, refl, refl)))
  ]
    where
      first : World
      first = record w { calls = suc w.calls }

      done : Result (Ticket × Bool) × World
      done = create_and_enqueue_body pg otel span title description priority (pg.now w.calls) first

      ended :
          (x : Result (Ticket × Bool) × World)
          → Ended w.db done x
          → Atomic pg otel span title description priority w.db x
      ended x (inl (e, is_err, kept)) = inl (e, is_err, kept)
      ended x (inr ((t, enqueued), body_ok, db, answer)) =
          let (c, flag) =
            body-Committed pg otel span title description priority (pg.now w.calls) first t enqueued
              body_ok in
          inr (
            t,
            subst (λ d. Committed pg otel span title description priority w.db d t) (sym db) c,
            subst (λ b. (x.0 ≡ ok (t, b)) ⊎ ((text : Bytes) × (x.0 ≡ err (driver text)))) flag
                answer,
          )

  -- CreateTicketAndEnqueue is all or nothing, whatever becomes of each statement: on an error the
  -- tables are as they were, or the whole work is committed and only the answer of COMMIT is lost;
  -- a committed call has added one open ticket with the next number and, exactly for the priority
  -- "high", one job for it.
  pub create_ticket_and_enqueue-Atomic :
      (w : World)
      → Atomic pg otel span title description priority w.db
          (create_ticket_and_enqueue pg otel span title description priority w)
  unfolding create_ticket_and_enqueue timed
  create_ticket_and_enqueue-Atomic w = Atomic-transaction w
