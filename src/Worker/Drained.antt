-- ===== src/Worker/Drained.antt =====
-- What the loop of drain in internal/jobworker/worker.go has done when PostgreSQL answers it.
use projet_etude_app_demo.Prelude.{
  ℕ, zero, suc, ◌<◌, ◌≡◌, refl, sym, ◌∙◌, ap, subst, inl, inr, false, List, some, All,
}
use projet_etude_app_demo.Model.{Job}
use projet_etude_app_demo.Metrics.{Span}
use projet_etude_app_demo.Store.Db.{JobRow}
use projet_etude_app_demo.Store.Exec.{
  Error, not_found, Result, ok, err, Pg, World, answered, send, send_at, timed, rows_or_not_found,
  err-ne-ok,
}
use projet_etude_app_demo.Store.Trace.{Otel}
use projet_etude_app_demo.Store.Jobs.{claim_next, claim_next_job}
use projet_etude_app_demo.Store.Jobs.Claim.{is_free, claim_next_outcome}
use projet_etude_app_demo.Store.Jobs.Workers.{Inv}
use projet_etude_app_demo.Worker.{Net, Worker, process, publish_depth, drained, drain}
use projet_etude_app_demo.Worker.Steps.{idle, publish_depth-db, Result-cases}
use projet_etude_app_demo.Worker.Termination.{budget, drain_total}

-- No row can be claimed, as the n-th statement sees the table.
abbrev pub NoneFree : Pg → ℕ → List JobRow → Type 0
NoneFree pg n jobs = All (λ k. is_free (pg.now n) (pg.locked n) k ≡ false) jobs

err_inj : {e f : Error} → ◌≡◌ {A = Result Job} (err e) (err f) → e ≡ f
err_inj h = cc

some_inj : {v w : World} → some v ≡ some w → v ≡ w
some_inj h = cc

module _ (pg : Pg) (otel : Otel) (net : Net) (worker : Worker) (span : Span) where
  -- The rounds of drain from one world to another: a claim that succeeds, and its job, each time.
  pub data Rounds : World → World → Type 0 where
    over : {w : World} → Rounds w w
    round :
        {w u : World} (j : Job)
        → (claim_next_job pg span worker.id w).0 ≡ ok j
        → Rounds (process pg otel net worker span j (claim_next_job pg span worker.id w).1) u
        → Rounds w u

  -- `last` is the world in which the drain from `w` to `w'` sends its last claim, which finds no
  -- row; the depth is published, and no row of the table can be claimed, as that claim saw it.
  pub record IsCleared (w w' : World) : Type 0 where
    pub last : World
    pub rounds : Rounds w last
    pub missed : (claim_next_job pg span worker.id last).0 ≡ err not_found
    pub published : w' ≡ publish_depth pg span (claim_next_job pg span worker.id last).1
    pub none_free : NoneFree pg last.calls w'.db.jobs

module _ (pg : Pg) (otel : Otel) (net : Net) (worker : Worker) (span : Span)
    (answers : (n : ℕ) → pg.reply n ≡ answered) where
  claim_answered :
      (w : World)
      → ((claim_next_job pg span worker.id w).0
          ≡ rows_or_not_found (claim_next worker.id (pg.now w.calls) (pg.locked w.calls) w.db).0)
        × ((claim_next_job pg span worker.id w).1.db
            ≡ (claim_next worker.id (pg.now w.calls) (pg.locked w.calls) w.db).1)
  unfolding claim_next_job timed send send_at
  claim_answered w = (rw (answers w.calls) refl, rw (answers w.calls) refl)

  claim_missed :
      (w : World) (e : Error)
      → (claim_next_job pg span worker.id w).0 ≡ err e
      → (e ≡ not_found)
        × NoneFree pg w.calls w.db.jobs
        × ((claim_next_job pg span worker.id w).1.db ≡ w.db)
  claim_missed w e h =
      elim (claim_next_outcome worker.id (pg.now w.calls) (pg.locked w.calls) w.db) [
        | inl (job, is_ok, c) ↦
            absurd (err-ne-ok (sym h ∙ (claim_answered w).0 ∙ ap rows_or_not_found is_ok))
        | inr (missing, none_free) ↦ (
          err_inj (sym h ∙ (claim_answered w).0 ∙ ap (λ x. rows_or_not_found x.0) missing),
          none_free,
          (claim_answered w).1 ∙ ap (λ x. x.1) missing,
        )
      ]

  ended-IsCleared :
      (w w' : World) (e : Error)
      → (claim_next_job pg span worker.id w).0 ≡ err e
      → some (drained pg span e (claim_next_job pg span worker.id w).1) ≡ some w'
      → IsCleared pg otel net worker span w w'
  unfolding drained
  ended-IsCleared w w' e failed h =
      let w1 = (claim_next_job pg span worker.id w).1 in
      let (missing, none_free, same) = claim_missed w e failed in
      let published = sym (some_inj (rw missing at h)) in
      record {
        last = w;
        rounds = over;
        missed = failed ∙ ap (λ x. err x) missing;
        published = published;
        none_free =
            subst (λ db. NoneFree pg w.calls db.jobs)
              (sym (
                ap (λ (v : World). v.db) published
                ∙ publish_depth-db pg otel net worker span w1
                ∙ same))
              none_free;
      }

  cleared :
      (fuel : ℕ) (w w' : World)
      → drain fuel pg otel net worker span w ≡ some w'
      → IsCleared pg otel net worker span w w'
  unfolding drain
  cleared zero w w' h = cc
  cleared (suc fuel) w w' h = elim (Result-cases (claim_next_job pg span worker.id w).0) [
    | inr (e, failed) ↦ ended-IsCleared w w' e failed (rw (failed, drain) at h)
    | inl (j, taken) ↦
        let c = cleared fuel _ w' (rw (taken, drain) at h) in
        record {
          last = c.last;
          rounds = round j taken c.rounds;
          missed = c.missed;
          published = c.published;
          none_free = c.none_free;
        }
  ]

  -- If PostgreSQL answers every statement, nobody holds a job and the invariant of the fleet
  -- holds, then drain ends on fuel that is more than the attempts that the rows have left: after
  -- rounds that each claim a job and process it, a last claim finds no row, the depth is
  -- published, and no row of the table that drain leaves can be claimed at the time, and past the
  -- locks, of that last claim.
  pub drain_clears :
      (fuel : ℕ) (w : World)
      → Inv (idle w.db)
      → budget w.db.jobs < fuel
      → (w' : World) × (drain fuel pg otel net worker span w ≡ some w')
        × IsCleared pg otel net worker span w w'
  drain_clears fuel w v enough =
      let (w', ran) = drain_total pg otel net worker span fuel w v enough in
      (w', ran, cleared fuel w w' ran)
