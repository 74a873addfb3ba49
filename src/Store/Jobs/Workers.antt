-- ===== src/Store/Jobs/Workers.antt =====
-- Several worker processes on one `jobs` table, statement by statement, in any order: the statements
-- of internal/store/jobs.go as internal/jobworker/worker.go sends them. A worker holds a job from the
-- answer to its claim up to the statement that ends the job, or until it dies.
pub mod Invariant
pub mod Ends
pub mod Safety
pub mod Stranded
use projet_etude_app_demo.Prelude.{
  ℕ, suc, ◌+◌, ◌≤◌, ◌<◌, ltb, ◌≡◌, ◌≢◌, refl, ◌⊎◌, inl, inr, Bool, Bytes, List, [], ◌∷◌, ◌++◌, All,
  Option, some, arith,
}
use projet_etude_app_demo.Model.{Time, Job, JobKind}
use projet_etude_app_demo.Store.Db.{Db, JobRow, pending, running, finished, failed, empty_db}
use projet_etude_app_demo.Store.Exec.{Pg, ok}
use projet_etude_app_demo.Store.Invariant.{IsKeyed, job_ids}
use projet_etude_app_demo.Store.Tickets.{insert_job}
use projet_etude_app_demo.Store.Jobs.{claim_next, set_done, fail_statement}

-- A worker's id and the job that it was given.
abbrev pub Claim : Type 0
Claim = Bytes × Job

pub record Fleet : Type 0 where
  pub db : Db
  pub held : List Claim

abbrev pub start : Fleet
start = record { db = empty_db; held = [] }

pub data Step (pg : Pg) : Fleet → Fleet → Type 0 where
  enqueues :
      (s : Fleet) (kind : JobKind) (payload : Bytes) (context : Option Bytes) (at : Time)
      (locked : ℕ → Bool)
      → Step pg s (record s { db = (insert_job pg kind payload context at locked s.db).1 })
  claims :
      (s : Fleet) (worker : Bytes) (at : Time) (locked : ℕ → Bool) (job : Job)
      → (claim_next worker at locked s.db).0 ≡ ok job
      → Step pg s
          (record { db = (claim_next worker at locked s.db).1; held = (worker, job) ∷ s.held })
  -- The row is taken, and the answer does not reach the worker.
  loses_claim :
      (s : Fleet) (worker : Bytes) (at : Time) (locked : ℕ → Bool)
      → Step pg s (record s { db = (claim_next worker at locked s.db).1 })
  completes :
      (s : Fleet) (worker : Bytes) (job : Job) (front back : List Claim) (at : Time)
      (locked : ℕ → Bool)
      → s.held ≡ front ++ (worker, job) ∷ back
      → Step pg s (record { db = (set_done job.id at locked s.db).1; held = front ++ back })
  fails :
      (s : Fleet) (worker : Bytes) (job : Job) (front back : List Claim) (reason : Bytes)
      (at : Time) (locked : ℕ → Bool)
      → s.held ≡ front ++ (worker, job) ∷ back
      → Step pg s (record {
        db = (fail_statement pg job.id job.attempts job.max_attempts reason at locked s.db).1;
        held = front ++ back;
      })
  -- The worker dies, or the statement that should end its job is not run.
  drops :
      (s : Fleet) (worker : Bytes) (job : Job) (front back : List Claim)
      → s.held ≡ front ++ (worker, job) ∷ back
      → Step pg s (record s { held = front ++ back })

pub data Reach (pg : Pg) (s : Fleet) : Fleet → Type 0 where
  here : Reach pg s s
  next : {t u : Fleet} → Reach pg s t → Step pg t u → Reach pg s u

-- What holds of a row between two statements.
pub record IsSound (j : JobRow) : Type 0 where
  pub within : j.attempts ≤ j.max_attempts
  pub retries_left : j.status ≡ pending → j.attempts < j.max_attempts
  pub exhausted : j.status ≡ failed → j.attempts ≡ j.max_attempts
  pub tried : j.status ≢ pending → 0 < j.attempts

-- The row of a claim that is held.
pub record IsRunBy (worker : Bytes) (job : Job) (j : JobRow) : Type 0 where
  pub status : j.status ≡ running
  pub locked_by : j.locked_by ≡ some worker
  pub attempts : j.attempts ≡ job.attempts
  pub max_attempts : j.max_attempts ≡ job.max_attempts

abbrev pub IsHeld : List JobRow → Claim → Type 0
IsHeld js c = All (λ j. j.id ≡ c.1.id → IsRunBy c.0 c.1 j) js

-- No two claims are of one job.
abbrev pub Apart : List Claim → Type 0
Apart [] = Unit
Apart (c ∷ cs) = All (λ d. d.1.id ≢ c.1.id) cs × Apart cs

pub record Inv (s : Fleet) : Type 0 where
  pub keyed : IsKeyed (job_ids s.db.jobs) s.db.job_seq
  pub rows : All IsSound s.db.jobs
  pub held : All (λ c. IsHeld s.db.jobs c × (c.1.id ≤ s.db.job_seq)) s.held
  pub apart : Apart s.held
