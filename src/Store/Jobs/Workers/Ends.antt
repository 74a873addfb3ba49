-- ===== src/Store/Jobs/Workers/Ends.antt =====
-- The invariant of the fleet where an attempt ends, and where a job is added.
use projet_etude_app_demo.Prelude.{
  ℕ, ℤ, suc, ltb, ◌≡◌, refl, inl, inr, Bool, true, false, Bool-cases, Bytes, List, [], ◌∷◌, ◌++◌,
  All-append, All-weaken, Option, Option-cases, arith,
}
use projet_etude_app_demo.Model.{Time, Job}
use projet_etude_app_demo.Store.Db.{JobRow}
use projet_etude_app_demo.Store.Exec.{Pg}
use projet_etude_app_demo.Store.Invariant.{IsKeyed-map_concat}
use projet_etude_app_demo.Store.Tickets.{insert_job, new_job, jsonb_or_null}
use projet_etude_app_demo.Store.Jobs.{
  completed, retried, given_up, end_attempt, fail_statement, backoff_duration,
}
use projet_etude_app_demo.Store.Jobs.Workers.{Claim, Fleet, IsSound, IsRunBy, Inv}
use projet_etude_app_demo.Store.Jobs.Workers.Invariant.{release-Inv, drops-Inv}

pub completed-IsSound :
    (at : Time) (worker : Bytes) (job : Job) (j : JobRow)
    → IsSound j
    → IsRunBy worker job j
    → IsSound (completed at j)
completed-IsSound at worker job j h run = record {
  within = h.within;
  retries_left = λ e. cc;
  exhausted = λ e. cc;
  tried = λ _. h.tried (λ e. ground (arith, run.status, e));
}

retried-IsSound :
    (pg : Pg) (d : ℤ) (reason : Bytes) (at : Time) (worker : Bytes) (job : Job) (j : JobRow)
    → ltb job.attempts job.max_attempts ≡ true
    → IsSound j
    → IsRunBy worker job j
    → IsSound (retried pg d reason at j)
retried-IsSound pg d reason at worker job j less h run = record {
  within = h.within;
  retries_left = λ _. ground (arith, run.attempts, run.max_attempts);
  exhausted = λ e. cc;
  tried = λ ne. absurd (ne refl);
}

given_up-IsSound :
    (reason : Bytes) (at : Time) (worker : Bytes) (job : Job) (j : JobRow)
    → ltb job.attempts job.max_attempts ≡ false
    → IsSound j
    → IsRunBy worker job j
    → IsSound (given_up reason at j)
given_up-IsSound reason at worker job j most h run = record {
  within = h.within;
  retries_left = λ e. cc;
  exhausted = λ _. ground (arith, run.attempts, run.max_attempts, h.within);
  tried = λ _. h.tried (λ e. ground (arith, run.status, e));
}

end_attempt-Inv :
    (pg : Pg) (s : Fleet) (worker : Bytes) (job : Job) (front back : List Claim) (reason : Bytes)
    (at : Time) (locked : ℕ → Bool)
    → Inv s
    → s.held ≡ front ++ (worker, job) ∷ back
    → Inv (record {
      db = (end_attempt pg job.id job.attempts job.max_attempts reason at locked s.db).1;
      held = front ++ back;
    })
unfolding end_attempt
end_attempt-Inv pg s worker job front back reason at locked v holds =
    elim (Bool-cases (ltb job.attempts job.max_attempts)) [
      | inl less ↦
          rw (less, end_attempt)
            (release-Inv s worker job front back v holds
              (retried pg (backoff_duration job.attempts) reason at) (λ j. refl)
              (λ j. retried-IsSound pg (backoff_duration job.attempts) reason at worker job j less))
      | inr most ↦
          rw (most, end_attempt)
            (release-Inv s worker job front back v holds (given_up reason at) (λ j. refl)
              (λ j. given_up-IsSound reason at worker job j most))
    ]

pub fails-Inv :
    (pg : Pg) (s : Fleet) (worker : Bytes) (job : Job) (front back : List Claim) (reason : Bytes)
    (at : Time) (locked : ℕ → Bool)
    → Inv s
    → s.held ≡ front ++ (worker, job) ∷ back
    → Inv (record {
      db = (fail_statement pg job.id job.attempts job.max_attempts reason at locked s.db).1;
      held = front ++ back;
    })
unfolding fail_statement
fails-Inv pg s worker job front back reason at locked v holds =
    elim (Bool-cases (pg.accepts_text reason)) [
      | inl accepted ↦
          rw (accepted, fail_statement)
            (end_attempt-Inv pg s worker job front back reason at locked v holds)
      | inr bad ↦ rw (bad, fail_statement) (drops-Inv s worker job front back v holds)
    ]

-- A new row is pending, has not been tried, and has a number that no claim has.
add-Inv :
    (s : Fleet) (kind payload : Bytes) (context : Option Bytes) (at : Time)
    → Inv s
    → Inv (record s {
      db = record s.db {
        job_seq = suc s.db.job_seq;
        jobs = s.db.jobs ++ new_job (suc s.db.job_seq) kind payload context at ∷ [];
      };
    })
unfolding new_job
add-Inv s kind payload context at v = record {
  keyed = IsKeyed-map_concat (λ j. j.id) s.db.jobs _ s.db.job_seq refl v.keyed;
  rows = All-append IsSound s.db.jobs _ v.rows (
    record {
      within = omega arith;
      retries_left = λ _. omega arith;
      exhausted = λ e. cc;
      tried = λ ne. absurd (ne refl);
    },
    tt,
  );
  held =
      All-weaken
        (λ c h. (
          All-append (λ j. j.id ≡ c.1.id → IsRunBy c.0 c.1 j) s.db.jobs _ h.0
              ((λ e. absurd (omega (arith, e, h.1))), tt),
          omega (arith, h.1),
        ))
        s.held v.held;
  apart = v.apart;
}

pub enqueues-Inv :
    (pg : Pg) (s : Fleet) (kind payload : Bytes) (context : Option Bytes) (at : Time)
    (locked : ℕ → Bool)
    → Inv s
    → Inv (record s { db = (insert_job pg kind payload context at locked s.db).1 })
unfolding insert_job
enqueues-Inv pg s kind payload context at locked v = elim (Option-cases (pg.jsonb payload)) [
  | inl bad ↦ rw (bad, insert_job) v
  | inr (stored, good) ↦ elim (Option-cases (jsonb_or_null pg context)) [
    | inl bad ↦ rw (good, bad, insert_job) v
    | inr (tc, e) ↦ rw (good, e, insert_job) (add-Inv s kind stored tc at v)
  ]
]
