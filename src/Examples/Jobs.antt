-- ===== src/Examples/Jobs.antt =====
-- The fleet's theorems at a table with one job, which a worker claims.
use mathlib.Core.List.{Memᴰ}
use projet_etude_app_demo.Prelude.{
  ℕ, ◌≡◌, ◌≢◌, ◌⊎◌, refl, pos, Bytes, str, List, [], ◌∷◌, Bool, false, All, none, some, arith,
}
use projet_etude_app_demo.Model.{Job}
use projet_etude_app_demo.Store.Db.{Db, JobRow, empty_db, pending}
use projet_etude_app_demo.Store.Exec.{World, ok, err, no_rows}
use projet_etude_app_demo.Store.Tickets.{insert_job, new_job, create_ticket_and_enqueue}
use projet_etude_app_demo.Store.Tickets.Creation.{Atomic, create_ticket_and_enqueue-Atomic}
use projet_etude_app_demo.Store.Jobs.{
  next_job, update_job, claim_next, claimed, completed, to_job, set_done, backoff_duration,
}
use projet_etude_app_demo.Store.Jobs.Backoff.{backoff_exact, backoff_vanishes}
use projet_etude_app_demo.Store.Jobs.Claim.{Claimed, claim_next_outcome, is_free}
use projet_etude_app_demo.Store.Jobs.Workers.{
  Fleet, start, Step, enqueues, claims, completes, drops, Reach, here, next, IsHeld, Apart, IsSound,
  Inv,
}
use projet_etude_app_demo.Store.Jobs.Workers.Safety.{Step-Inv, one_holder, attempts_bounded}
use projet_etude_app_demo.Store.Jobs.Workers.Invariant.{start-Inv}
use projet_etude_app_demo.Store.Jobs.Workers.Stranded.{stranded_forever, terminal_forever}
use projet_etude_app_demo.Worker.{drain}
use projet_etude_app_demo.Worker.Steps.{idle, drain-Reach}
use projet_etude_app_demo.Worker.Termination.{drain_total}
use projet_etude_app_demo.Worker.Drained.{IsCleared, drain_clears}
use projet_etude_app_demo.Examples.{pg, otel, net, worker, world}

abbrev unlocked : ℕ → Bool
unlocked id = false

abbrev kind : Bytes
kind = str "webhook.notify"

-- The row as it is enqueued, claimed and completed.
abbrev queued_row : JobRow
queued_row = record {
  id = 1;
  kind = kind;
  payload = str "{}";
  status = pending;
  attempts = 0;
  max_attempts = 5;
  last_error = none;
  run_after = pos 0;
  locked_at = none;
  locked_by = none;
  created_at = pos 0;
  updated_at = pos 0;
  trace_context = none;
}

abbrev running_row : JobRow
running_row = claimed (str "w1") (pos 5) queued_row

abbrev done_row : JobRow
done_row = completed (pos 6) running_row

abbrev with_jobs : List JobRow → Db
with_jobs rows = record empty_db { jobs = rows; job_seq = 1 }

abbrev queued : Fleet
queued = record { db = with_jobs (queued_row ∷ []); held = [] }

abbrev held : Fleet
held = record { db = with_jobs (running_row ∷ []); held = (str "w1", to_job running_row) ∷ [] }

abbrev dropped : Fleet
dropped = record { db = with_jobs (running_row ∷ []); held = [] }

abbrev done : Fleet
done = record { db = with_jobs (done_row ∷ []); held = [] }

queued-Step : Step pg start queued
unfolding insert_job new_job
queued-Step = enqueues start kind (str "{}") none (pos 0) unlocked

held-Step : Step pg queued held
unfolding claim_next next_job update_job
held-Step = claims queued (str "w1") (pos 5) unlocked (to_job running_row) refl

dropped-Step : Step pg held dropped
dropped-Step = drops held (str "w1") (to_job running_row) [] [] refl

done-Step : Step pg held done
unfolding set_done update_job
done-Step = completes held (str "w1") (to_job running_row) [] [] (pos 6) unlocked refl

held_reached : Reach pg start held
held_reached = next (next here queued-Step) held-Step

one_holder_example : Apart held.held × All (λ c. IsHeld held.db.jobs c) held.held
one_holder_example = one_holder pg held held_reached

attempts_bounded_example : All IsSound held.db.jobs
attempts_bounded_example = attempts_bounded pg held held_reached

stranded_forever_example : Memᴰ running_row dropped.db.jobs × All (λ c. c.1.id ≢ 1) dropped.held
stranded_forever_example =
    stranded_forever pg dropped dropped running_row (next held_reached dropped-Step)
      (Memᴰ.head refl) refl tt here

terminal_forever_example : Memᴰ done_row done.db.jobs
terminal_forever_example =
    terminal_forever pg done done done_row (next held_reached done-Step) (Memᴰ.head refl) tt here

claim_next_outcome_example :
    ((job : Job) × ((claim_next (str "w1") (pos 5) unlocked queued.db).0 ≡ ok job)
      × Claimed
          (str "w1")
          (pos 5)
          unlocked
          queued.db
          (claim_next (str "w1") (pos 5) unlocked queued.db).1
          job)
    ⊎ ((claim_next (str "w1") (pos 5) unlocked queued.db ≡ (err no_rows, queued.db))
        × All (λ k. is_free (pos 5) unlocked k ≡ false) queued.db.jobs)
claim_next_outcome_example = claim_next_outcome (str "w1") (pos 5) unlocked queued.db

backoff_exact_example : backoff_duration 3 ≡ pos 8000000000
backoff_exact_example = backoff_exact 3 (omega arith)

backoff_vanishes_example : backoff_duration 60 ≡ pos 0
backoff_vanishes_example = backoff_vanishes 60 (omega arith)

abbrev queued_world : World
queued_world = record world { db = queued.db }

queued-Inv : Inv (idle queued.db)
queued-Inv = Step-Inv queued-Step start-Inv

drain_total_example : (w : World) × (drain 6 pg otel net worker none queued_world ≡ some w)
drain_total_example = drain_total pg otel net worker none 6 queued_world queued-Inv (omega arith)

queued_run : (w : World) × (drain 6 pg otel net worker none queued_world ≡ some w)
queued_run = drain_total pg otel net worker none 6 queued_world queued-Inv (omega arith)

drain-Reach_example : Reach pg (idle queued.db) (idle queued_run.0.db)
drain-Reach_example = drain-Reach pg otel net worker none 6 queued_world queued_run.0 queued_run.1

create_ticket_and_enqueue-Atomic_example :
    Atomic pg otel none
      (str "disk")
      []
      (str "high")
      world.db
      (create_ticket_and_enqueue pg otel none (str "disk") [] (str "high") world)
create_ticket_and_enqueue-Atomic_example =
    create_ticket_and_enqueue-Atomic pg otel none (str "disk") [] (str "high") world

drain_clears_example :
    (w : World) × (drain 6 pg otel net worker none queued_world ≡ some w)
    × IsCleared pg otel net worker none queued_world w
drain_clears_example =
    drain_clears pg otel net worker none (λ n. refl) 6 queued_world queued-Inv (omega arith)
