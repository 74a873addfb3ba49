-- ===== src/Worker/Termination.antt =====
-- The rounds of the loop of drain in internal/jobworker/worker.go, and the attempts that the rows of
-- the table have left.
use mathlib.Core.List.{Memᴰ}
use projet_etude_app_demo.Prelude.{
  ℕ, ℤ, zero, suc, ◌+◌, ◌-◌, ◌≤◌, ◌<◌, ltb, ◌==◌, ==_iff, ◌≡◌, refl, sym, ◌∙◌, ap, subst, inl, inr,
  Bool, Bool-cases, Bytes, List, [], ◌∷◌, some, arith, Bytes, All-mem,
}
use projet_etude_app_demo.Model.{Job}
use projet_etude_app_demo.Metrics.{Span}
use projet_etude_app_demo.Store.Db.{Db, JobRow}
use projet_etude_app_demo.Store.Exec.{
  Result, ok, err, Pg, World, Statement, send, send-db, send-eq-ok, timed, rows_or_not_found,
  error_text,
}
use projet_etude_app_demo.Store.Trace.{Otel}
use projet_etude_app_demo.Store.Jobs.{
  update_job, claimed, completed, retried, given_up, claim_next, claim_next_job, set_done,
  complete_job, end_attempt, fail_statement, fail_job, backoff_duration,
}
use projet_etude_app_demo.Store.Jobs.Claim.{Claimed-of_ok}
use projet_etude_app_demo.Store.Jobs.Workers.{Fleet, Inv, IsSound}
use projet_etude_app_demo.Store.Jobs.Workers.Invariant.{row_pending}
use projet_etude_app_demo.Store.Jobs.Workers.Safety.{Step-Inv}
use projet_etude_app_demo.Worker.{Net, Worker, execute, finish, process, job_span, drained, drain}
use projet_etude_app_demo.Worker.Steps.{idle, claim_of_ok, process-Step, execute-db, Result-cases}

-- The attempts that a row, or a table, has left.
abbrev pub attempts_left : JobRow → ℕ
attempts_left j = j.max_attempts - j.attempts

abbrev pub budget : List JobRow → ℕ
budget [] = 0
budget (j ∷ js) = attempts_left j + budget js

module _ (id : ℕ) (f : JobRow → JobRow)
    (no_more : (j : JobRow) → attempts_left (f j) ≤ attempts_left j) where
  budget-update-le : (js : List JobRow) → budget (update_job id f js) ≤ budget js
  unfolding update_job
  budget-update-le [] = omega arith
  budget-update-le (j ∷ js) = elim (Bool-cases (j.id == id)) [
    | inl same ↦ rw same (omega (arith, no_more j, budget-update-le js))
    | inr differs ↦ rw differs (omega (arith, budget-update-le js))
  ]

  budget-update-lt :
      (js : List JobRow) (j : JobRow)
      → Memᴰ j js
      → j.id ≡ id
      → attempts_left (f j) < attempts_left j
      → budget (update_job id f js) < budget js
  unfolding update_job
  budget-update-lt [] j m is_id less = elim m [ ]
  budget-update-lt (k ∷ js) j (Memᴰ.head e) is_id less =
      rw ((==_iff k.id id).1 (ap (λ (r : JobRow). r.id) (sym e) ∙ is_id)) (
        omega (
          arith,
          subst (λ (r : JobRow). attempts_left (f r) < attempts_left r) e less,
          budget-update-le js,
        ))
  budget-update-lt (k ∷ js) j (Memᴰ.tail m) is_id less = elim (Bool-cases (k.id == id)) [
    | inl same ↦ rw same (omega (arith, no_more k, budget-update-lt js j m is_id less))
    | inr differs ↦ rw differs (omega (arith, budget-update-lt js j m is_id less))
  ]

-- What a claim of one row does to the budget of a sound table.
claimed-budget :
    (s : Fleet) (worker : Bytes) (at : ℤ) (locked : ℕ → Bool) (job : Job)
    → Inv s
    → (claim_next worker at locked s.db).0 ≡ ok job
    → budget (claim_next worker at locked s.db).1.jobs < budget s.db.jobs
claimed-budget s worker at locked job v h =
    let c = Claimed-of_ok worker at locked s.db job h in
    let sound = All-mem IsSound s.db.jobs v.rows c.next.stored in
    subst (λ (d : Db). budget d.jobs < budget s.db.jobs) (sym c.updated)
      (budget-update-lt c.row.id (claimed worker at) (λ j. omega arith) s.db.jobs c.row
        c.next.stored refl
        (omega (arith, sound.retries_left (row_pending worker at locked s c.row v c.next))))

ok_of_rows : (r : Result Job) (j : Job) → rows_or_not_found r ≡ ok j → r ≡ ok j
ok_of_rows (ok k) j e = e
ok_of_rows (err e) j k = cc

module _ (pg : Pg) (otel : Otel) (net : Net) (worker : Worker) (span : Span) where
  claim-budget :
      (w : World) (j : Job)
      → Inv (idle w.db)
      → (claim_next_job pg span worker.id w).0 ≡ ok j
      → budget (claim_next_job pg span worker.id w).1.db.jobs < budget w.db.jobs
  unfolding claim_next_job timed
  claim-budget w j v h =
      let (ran, db) =
        send-eq-ok pg (claim_next worker.id) w j
          (ok_of_rows (send pg (claim_next worker.id) w).0 j h) in
      subst (λ (d : Db). budget d.jobs < budget w.db.jobs) (sym db)
        (claimed-budget (idle w.db) worker.id (pg.now w.calls) (pg.locked w.calls) j v ran)

  sent-budget :
      {A : Type 0} (st : Statement A) (w : World)
      → ((at : ℤ) (locked : ℕ → Bool) (db : Db) → budget (st at locked db).1.jobs ≤ budget db.jobs)
      → budget (send pg st w).1.db.jobs ≤ budget w.db.jobs
  sent-budget st w h = elim (send-db pg st w) [
    | inl same ↦ rw same (omega arith)
    | inr ran ↦ rw ran (h (pg.now w.calls) (pg.locked w.calls) w.db)
  ]

  end_attempt-budget :
      (j : Job) (reason : Bytes) (at : ℤ) (locked : ℕ → Bool) (db : Db)
      → budget (end_attempt pg j.id j.attempts j.max_attempts reason at locked db).1.jobs
        ≤ budget db.jobs
  unfolding end_attempt
  end_attempt-budget j reason at locked db = elim (Bool-cases (ltb j.attempts j.max_attempts)) [
    | inl less ↦
        rw (less, end_attempt)
          (budget-update-le j.id (retried pg (backoff_duration j.attempts) reason at)
            (λ k. omega arith) db.jobs)
    | inr most ↦
        rw (most, end_attempt)
          (budget-update-le j.id (given_up reason at) (λ k. omega arith) db.jobs)
  ]

  finish-budget :
      (s : Span) (j : Job) (r : Result (Unit {0})) (w : World)
      → budget (finish pg s j r w).db.jobs ≤ budget w.db.jobs
  unfolding finish complete_job fail_job timed set_done fail_statement
  finish-budget s j (ok u) w =
      sent-budget (set_done j.id) _
        (λ at locked db. budget-update-le j.id (completed at) (λ k. omega arith) db.jobs)
  finish-budget s j (err e) w =
      sent-budget (fail_statement pg j.id j.attempts j.max_attempts (error_text e)) _
        (λ at locked db. elim (Bool-cases (pg.accepts_text (error_text e))) [
          | inl accepted ↦
              rw (accepted, fail_statement) (end_attempt-budget j (error_text e) at locked db)
          | inr bad ↦ rw (bad, fail_statement) (omega arith)
        ])

  process-budget :
      (j : Job) (w : World)
      → budget (process pg otel net worker span j w).db.jobs ≤ budget w.db.jobs
  unfolding process
  process-budget j w =
      let s = job_span otel span j in
      subst (λ (d : Db). budget (process pg otel net worker span j w).db.jobs ≤ budget d.jobs)
        (execute-db pg net worker s j w) (finish-budget s j (execute pg net worker s j w).0 _)

  -- From every world in which nobody holds a job and the invariant of the fleet holds, drain ends
  -- on fuel that is more than the attempts that the rows have left.
  pub drain_total :
      (fuel : ℕ) (w : World)
      → Inv (idle w.db)
      → budget w.db.jobs < fuel
      → (w' : World) × (drain fuel pg otel net worker span w ≡ some w')
  unfolding drain
  drain_total zero w v h = absurd (omega arith)
  drain_total (suc fuel) w v h = elim (Result-cases (claim_next_job pg span worker.id w).0) [
    | inr (e, failed) ↦
        (drained pg span e (claim_next_job pg span worker.id w).1, rw (failed, drain))
    | inl (j, taken) ↦
        let w1 = (claim_next_job pg span worker.id w).1 in
        let w2 = process pg otel net worker span j w1 in
        let (w', e) =
          drain_total fuel w2
            (Step-Inv (process-Step pg otel net worker span j w1)
              (Step-Inv (claim_of_ok pg otel net worker span w j taken) v))
            (omega (arith, claim-budget w j v taken, process-budget j w1)) in
        (w', rw (taken, drain) e)
  ]
