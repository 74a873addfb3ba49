-- ===== src/Worker/Steps.antt =====
-- A worker of internal/jobworker/worker.go, run alone, as steps of the fleet of Store.Jobs.Workers.
use projet_etude_app_demo.Prelude.{
  ℕ, zero, suc, ◌≡◌, refl, sym, ◌∙◌, ap, subst, ◌⊎◌, inl, inr, Bool-cases, Bytes, str_eq, is_empty,
  is_nat, ℤ, [], ◌∷◌, Option, none, some, Option-cases,
}
use projet_etude_app_demo.Model.{Job, Ticket, job_kind_webhook_notify}
use projet_etude_app_demo.Metrics.{Span}
use projet_etude_app_demo.Store.Db.{Db}
use projet_etude_app_demo.Store.Exec.{
  Error, Result, ok, err, Pg, World, send, timed, rows_or_not_found, is_not_found, and_then,
  send-db, send-db_of_read, send-eq-ok,
}
use projet_etude_app_demo.Store.Trace.{Otel}
use projet_etude_app_demo.Store.Tickets.{get_ticket, select_ticket, find_ticket, row_or_none}
use projet_etude_app_demo.Store.Jobs.{
  claim_next, claim_next_job, set_done, complete_job, fail_statement, fail_job, count_ready,
  queue_depth,
}
use projet_etude_app_demo.Store.Jobs.Workers.{
  Fleet, Step, claims, loses_claim, completes, fails, drops, Reach, here, next,
}
use projet_etude_app_demo.Worker.{
  Net, Worker, post, deliver, notify_ticket, run_webhook, execute, wrap_error, finish, process,
  set_depth, publish_depth, drained, drain, job_span,
}

-- The fleet in which nobody holds a job.
abbrev pub idle : Db → Fleet
idle db = record { db = db; held = [] }

pub Reach-trans : {pg : Pg} {s t u : Fleet} → Reach pg s t → Reach pg t u → Reach pg s u
Reach-trans r here = r
Reach-trans r (next q st) = next (Reach-trans r q) st

row_or_none-db : (o : Option Ticket) (db : Db) → (row_or_none o db).1 ≡ db
row_or_none-db none db = refl
row_or_none-db (some t) db = refl

get_ticket-db : (pg : Pg) (span : Span) (id : ℤ) (w : World) → (get_ticket pg span id w).1.db ≡ w.db
unfolding get_ticket timed select_ticket
get_ticket-db pg span id w =
    send-db_of_read pg (select_ticket id) w
      (λ at locked db. row_or_none-db (find_ticket id db.tickets) db)

post-db : (net : Net) (url : Bytes) (t : Ticket) (w : World) → (post net url t w).1.db ≡ w.db
unfolding post
post-db net url t w = elim (Option-cases (net.bad_url url)) [
  | inl good ↦ rw (good, post)
  | inr (text, bad) ↦ rw (bad, post)
]

deliver-db :
    (net : Net) (worker : Worker) (t : Ticket) (w : World) → (deliver net worker t w).1.db ≡ w.db
unfolding deliver
deliver-db net worker t w = elim (Bool-cases (is_empty worker.webhook_url)) [
  | inl unset ↦ rw (unset, deliver)
  | inr url ↦ rw (url, deliver) (post-db net worker.webhook_url t w)
]

delivered-db :
    (net : Net) (worker : Worker) (prefix : Bytes) (x : Result Ticket × World)
    → (and_then (wrap_error prefix x) (deliver net worker)).1.db ≡ x.1.db
delivered-db net worker prefix (ok t, w) = deliver-db net worker t w
delivered-db net worker prefix (err e, w) = refl

notify_ticket-db :
    (pg : Pg) (net : Net) (worker : Worker) (span : Span) (id : ℤ) (w : World)
    → (notify_ticket pg net worker span id w).1.db ≡ w.db
unfolding notify_ticket
notify_ticket-db pg net worker span id w = elim (Bool-cases (is_nat id 0)) [
  | inl missing ↦ rw (missing, notify_ticket)
  | inr given ↦
      rw (given, notify_ticket)
        (delivered-db net worker _ (get_ticket pg span id w) ∙ get_ticket-db pg span id w)
]

pub Result-cases {ℓ} :
    {A : Type ℓ} (r : Result A) → ((a : A) × (r ≡ ok a)) ⊎ ((e : Error) × (r ≡ err e))
Result-cases (ok a) = inl (a, refl)
Result-cases (err e) = inr (e, refl)

-- Executing a job changes no table.
pub execute-db :
    (pg : Pg) (net : Net) (worker : Worker) (span : Span) (j : Job) (w : World)
    → (execute pg net worker span j w).1.db ≡ w.db
unfolding execute run_webhook
execute-db pg net worker span j w = elim (Bool-cases (str_eq j.kind job_kind_webhook_notify)) [
  | inr unknown ↦ rw (unknown, execute)
  | inl known ↦ elim (Result-cases (net.decode j.payload)) [
    | inr (e, bad) ↦ rw (known, bad, execute, run_webhook)
    | inl (id, good) ↦
        rw (known, good, execute, run_webhook) (notify_ticket-db pg net worker span id w)
  ]
]

pub db_of_some : (v w : World) → some v ≡ some w → v.db ≡ w.db
db_of_some v w h = ap (λ o. db_or v.db o) h
  where
    db_or : Db → Option World → Db
    db_or d none = d
    db_or d (some u) = u.db

module _ (pg : Pg) (otel : Otel) (net : Net) (worker : Worker) (span : Span) where
  pub claim_of_ok :
      (w : World) (j : Job)
      → (claim_next_job pg span worker.id w).0 ≡ ok j
      → Step pg
          (idle w.db)
          (record { db = (claim_next_job pg span worker.id w).1.db; held = (worker.id, j) ∷ [] })
  unfolding claim_next_job timed
  claim_of_ok w j h =
      let (ran, db) =
        send-eq-ok pg (claim_next worker.id) w j
          (ok_of_rows (send pg (claim_next worker.id) w).0 h) in
      subst (λ d. Step pg (idle w.db) (record { db = d; held = (worker.id, j) ∷ [] })) (sym db)
        (claims (idle w.db) worker.id (pg.now w.calls) (pg.locked w.calls) j ran)
    where
      ok_of_rows : (r : Result Job) → rows_or_not_found r ≡ ok j → r ≡ ok j
      ok_of_rows (ok k) e = e
      ok_of_rows (err e) k = cc

  -- A claim that fails may have taken a row all the same.
  claim-Reach : (w : World) → Reach pg (idle w.db) (idle (claim_next_job pg span worker.id w).1.db)
  unfolding claim_next_job timed
  claim-Reach w = elim (send-db pg (claim_next worker.id) w) [
    | inl same ↦ subst (λ d. Reach pg (idle w.db) (idle d)) (sym same) here
    | inr ran ↦
        subst (λ d. Reach pg (idle w.db) (idle d)) (sym ran)
          (next here (loses_claim (idle w.db) worker.id (pg.now w.calls) (pg.locked w.calls)))
  ]

  abbrev pub holding : Db → Job → Fleet
  holding db j = record { db = db; held = (worker.id, j) ∷ [] }

  -- The statement that ends a job is run, or the worker goes on without it.
  completes-Step :
      (j : Job) (w : World) → Step pg (holding w.db j) (idle (send pg (set_done j.id) w).1.db)
  completes-Step j w = elim (send-db pg (set_done j.id) w) [
    | inl same ↦
        subst (λ d. Step pg (holding w.db j) (idle d)) (sym same)
          (drops (holding w.db j) worker.id j [] [] refl)
    | inr ran ↦
        subst (λ d. Step pg (holding w.db j) (idle d)) (sym ran)
          (completes (holding w.db j) worker.id j [] [] (pg.now w.calls) (pg.locked w.calls) refl)
  ]

  fails-Step :
      (j : Job) (reason : Bytes) (w : World)
      → Step pg
          (holding w.db j)
          (idle (send pg (fail_statement pg j.id j.attempts j.max_attempts reason) w).1.db)
  fails-Step j reason w =
      elim (send-db pg (fail_statement pg j.id j.attempts j.max_attempts reason) w) [
        | inl same ↦
            subst (λ d. Step pg (holding w.db j) (idle d)) (sym same)
              (drops (holding w.db j) worker.id j [] [] refl)
        | inr ran ↦
            subst (λ d. Step pg (holding w.db j) (idle d)) (sym ran)
              (fails (holding w.db j) worker.id j [] [] reason (pg.now w.calls) (pg.locked w.calls)
                refl)
      ]

  finish-Step :
      (s : Span) (j : Job) (r : Result (Unit {0})) (w : World)
      → Step pg (holding w.db j) (idle (finish pg s j r w).db)
  unfolding finish complete_job fail_job timed
  finish-Step s j (err e) w = fails-Step j _ _
  finish-Step s j (ok u) w = completes-Step j _

  -- Processing a job that is held is one step, which ends the claim.
  pub process-Step :
      (j : Job) (w : World)
      → Step pg (holding w.db j) (idle (process pg otel net worker span j w).db)
  unfolding process
  process-Step j w =
      let s = job_span otel span j in
      subst (λ d. Step pg (holding d j) (idle (process pg otel net worker span j w).db))
        (execute-db pg net worker s j w) (finish-Step s j (execute pg net worker s j w).0 _)

  pub publish_depth-db : (w : World) → (publish_depth pg span w).db ≡ w.db
  unfolding publish_depth queue_depth timed count_ready
  publish_depth-db w =
      set_depth-db (queue_depth pg span w) ∙ send-db_of_read pg count_ready w (λ at locked db. refl)
    where
      set_depth-db : (x : Result ℕ × World) → (set_depth x).db ≡ x.1.db
      set_depth-db (ok n, v) = refl
      set_depth-db (err e, v) = refl

  pub drained-db : (e : Error) (w : World) → (drained pg span e w).db ≡ w.db
  unfolding drained
  drained-db e w = elim (Bool-cases (is_not_found e)) [
    | inl empty ↦ rw (empty, drained) (publish_depth-db w)
    | inr other ↦ rw (other, drained)
  ]

  -- What a run of drain does to the table, whatever becomes of its statements, is a run of the
  -- fleet of workers from nobody holding a job to nobody holding a job.
  pub drain-Reach :
      (fuel : ℕ) (w w' : World)
      → drain fuel pg otel net worker span w ≡ some w'
      → Reach pg (idle w.db) (idle w'.db)
  unfolding drain
  drain-Reach zero w w' h = cc
  drain-Reach (suc fuel) w w' h = elim (Result-cases (claim_next_job pg span worker.id w).0) [
    | inr (e, failed) ↦
        subst (λ d. Reach pg (idle w.db) (idle d))
          (sym (drained-db e (claim_next_job pg span worker.id w).1)
            ∙ db_of_some _ w' (rw (failed, drain) at h))
          (claim-Reach w)
    | inl (j, taken) ↦
        Reach-trans
          (next (next here (claim_of_ok w j taken))
            (process-Step j (claim_next_job pg span worker.id w).1))
          (drain-Reach fuel _ w' (rw (taken, drain) at h))
  ]
