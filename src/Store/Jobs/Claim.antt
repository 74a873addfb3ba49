-- ===== src/Store/Jobs/Claim.antt =====
-- ClaimNextJob of internal/store/jobs.go: which row it takes, and what it does to the table.
use mathlib.Core.List.{Memᴰ}
use projet_etude_app_demo.Prelude.{
  ℕ, suc, ◌≤◌, ◌<◌, ltb, ◌==◌, ==_iff, ◌≢◌, ◌≡◌, refl, ap, sym, ◌∙◌, subst, ◌⊎◌, inl, inr, Bool,
  true, false, not, ◌&&◌, Bool-cases, Bytes, List, [], ◌∷◌, All, All-weaken, All-of_map, All-mem,
  Option, none, some, arith, Increasing,
}
use projet_etude_app_demo.Model.{Time, Job}
use projet_etude_app_demo.Store.Db.{Db, JobRow, running}
use projet_etude_app_demo.Store.Exec.{ok, err, no_rows, err-ne-ok}
use projet_etude_app_demo.Store.Invariant.{job_ids}
use projet_etude_app_demo.Store.Jobs.{
  is_ready, smaller_id, next_job, update_job, claimed, to_job, claim_row, claim_next,
}

-- A row that a claim may take.
abbrev pub is_free : Time → (ℕ → Bool) → JobRow → Bool
is_free at locked j = is_ready at j && not (locked j.id)

-- `j` is the free row with the smallest number.
pub record IsNext (at : Time) (locked : ℕ → Bool) (js : List JobRow) (j : JobRow) : Type 0 where
  pub stored : Memᴰ j js
  pub free : is_free at locked j ≡ true
  pub first : All (λ k. is_free at locked k ≡ true → j.id ≤ k.id) js

abbrev pub Chosen : Time → (ℕ → Bool) → List JobRow → Option JobRow → Type 0
Chosen at locked js none = All (λ k. is_free at locked k ≡ false) js
Chosen at locked js (some j) = IsNext at locked js j

choose :
    (at : Time) (locked : ℕ → Bool) (j : JobRow) (js : List JobRow) (rest : Option JobRow)
    → is_free at locked j ≡ true
    → Chosen at locked js rest
    → IsNext at locked (j ∷ js) (smaller_id j rest)
choose at locked j js none free others = record {
  stored = Memᴰ.head refl;
  free = free;
  first = (λ _. omega arith, All-weaken (λ k no f. cc) js others);
}
choose at locked j js (some k) free next = elim (Bool-cases (ltb k.id j.id)) [
  | inl less ↦ rw less (record {
    stored = Memᴰ.tail next.stored;
    free = next.free;
    first = (λ _. ground arith, next.first);
  })
  | inr least ↦ rw least (record {
    stored = Memᴰ.head refl;
    free = free;
    first = (λ _. omega arith, All-weaken (λ i le f. ground (arith, le f)) js next.first);
  })
]

skip :
    (at : Time) (locked : ℕ → Bool) (j : JobRow) (js : List JobRow) (rest : Option JobRow)
    → is_free at locked j ≡ false
    → Chosen at locked js rest
    → Chosen at locked (j ∷ js) rest
skip at locked j js none busy others = (busy, others)
skip at locked j js (some k) busy next = record {
  stored = Memᴰ.tail next.stored;
  free = next.free;
  first = (λ f. cc, next.first);
}

-- The subquery of a claim takes the ready, unlocked row with the smallest number, and finds
-- nothing only if there is no such row.
next_job-Chosen :
    (at : Time) (locked : ℕ → Bool) (js : List JobRow) → Chosen at locked js (next_job at locked js)
unfolding next_job
next_job-Chosen at locked [] = tt
next_job-Chosen at locked (j ∷ js) = elim (Bool-cases (is_free at locked j)) [
  | inl free ↦
      rw free (choose at locked j js (next_job at locked js) free (next_job-Chosen at locked js))
  | inr busy ↦
      rw busy (skip at locked j js (next_job at locked js) busy (next_job-Chosen at locked js))
]

-- What an update does to each row, by its number.
pub update_job-All {κ} :
    (P : JobRow → Type κ) (Q : JobRow → Type κ) (id : ℕ) (f : JobRow → JobRow) (js : List JobRow)
    → ((j : JobRow) → P j → j.id ≡ id → Q (f j))
    → ((j : JobRow) → P j → j.id ≢ id → Q j)
    → All P js
    → All Q (update_job id f js)
unfolding update_job
update_job-All P Q id f [] hit miss h = tt
update_job-All P Q id f (j ∷ js) hit miss (p, h) = elim (Bool-cases (j.id == id)) [
  | inl same ↦ rw same (hit j p ((==_iff j.id id).0 same), update_job-All P Q id f js hit miss h)
  | inr differs ↦
      rw differs (miss j p (λ e. cc ((==_iff j.id id).1 e)), update_job-All P Q id f js hit miss h)
]

pub job_ids-update_job :
    (id : ℕ) (f : JobRow → JobRow) (js : List JobRow)
    → ((j : JobRow) → (f j).id ≡ j.id)
    → job_ids (update_job id f js) ≡ job_ids js
unfolding update_job
job_ids-update_job id f [] keeps = refl
job_ids-update_job id f (j ∷ js) keeps = ground (arith, keeps j, job_ids-update_job id f js keeps)

-- Two rows with one number are one row.
pub unique_row :
    (js : List JobRow) (j : JobRow)
    → Increasing (job_ids js)
    → Memᴰ j js
    → All (λ k. k.id ≡ j.id → k ≡ j) js
unique_row [] j h m = elim m [ ]
unique_row (k ∷ js) j (above, h) (Memᴰ.head e) = (
  λ _. sym e,
  All-weaken (λ i less same. absurd (omega (arith, same, less, ap (λ (r : JobRow). r.id) e))) js
      (All-of_map (λ m. k.id < m) (λ i. i.id) js above),
)
unique_row (k ∷ js) j (above, h) (Memᴰ.tail m) = (
  λ same. absurd (
      omega (
        arith,
        same,
        All-mem (λ i. k.id < i.id) js (All-of_map (λ n. k.id < n) (λ i. i.id) js above) m,
      )),
  unique_row js j h m,
)

-- Two lists of rows of one length, and what holds of the rows that stand at one place.
abbrev pub EachRow : (JobRow → JobRow → Type 0) → List JobRow → List JobRow → Type 0
EachRow R [] [] = Unit
EachRow R [] (k ∷ ks) = ⊥
EachRow R (j ∷ js) [] = ⊥
EachRow R (j ∷ js) (k ∷ ks) = R j k × EachRow R js ks

-- A row as a claim leaves it: running, locked, at one attempt more, and otherwise as it was.
pub record IsTaken (worker : Bytes) (at : Time) (old new : JobRow) : Type 0 where
  pub status : new.status ≡ running
  pub attempts : new.attempts ≡ suc old.attempts
  pub locked_at : new.locked_at ≡ some at
  pub locked_by : new.locked_by ≡ some worker
  pub updated_at : new.updated_at ≡ at
  pub id : new.id ≡ old.id
  pub kind : new.kind ≡ old.kind
  pub payload : new.payload ≡ old.payload
  pub max_attempts : new.max_attempts ≡ old.max_attempts
  pub last_error : new.last_error ≡ old.last_error
  pub run_after : new.run_after ≡ old.run_after
  pub created_at : new.created_at ≡ old.created_at
  pub trace_context : new.trace_context ≡ old.trace_context

-- The rows with the number are taken, and the others are as they were.
abbrev pub TakenOrSame : Bytes → Time → ℕ → JobRow → JobRow → Type 0
TakenOrSame worker at id old new =
    ((old.id ≡ id) × IsTaken worker at old new) ⊎ ((old.id ≢ id) × (new ≡ old))

-- The job that is handed out is the row after the claim.
pub record IsJobOf (row : JobRow) (job : Job) : Type 0 where
  pub id : job.id ≡ row.id
  pub kind : job.kind ≡ row.kind
  pub payload : job.payload ≡ row.payload
  pub attempts : job.attempts ≡ suc row.attempts
  pub max_attempts : job.max_attempts ≡ row.max_attempts
  pub trace_context : job.trace_context ≡ row.trace_context

claimed-IsTaken :
    (worker : Bytes) (at : Time) (j : JobRow) → IsTaken worker at j (claimed worker at j)
claimed-IsTaken worker at j = record {
  status = refl;
  attempts = omega arith;
  locked_at = refl;
  locked_by = refl;
  updated_at = refl;
  id = refl;
  kind = refl;
  payload = refl;
  max_attempts = refl;
  last_error = refl;
  run_after = refl;
  created_at = refl;
  trace_context = refl;
}

claimed-IsJobOf :
    (worker : Bytes) (at : Time) (j : JobRow) → IsJobOf j (to_job (claimed worker at j))
claimed-IsJobOf worker at j = record {
  id = refl;
  kind = refl;
  payload = refl;
  attempts = omega arith;
  max_attempts = refl;
  trace_context = refl;
}

update_job-TakenOrSame :
    (worker : Bytes) (at : Time) (id : ℕ) (js : List JobRow)
    → EachRow (TakenOrSame worker at id) js (update_job id (claimed worker at) js)
unfolding update_job
update_job-TakenOrSame worker at id [] = tt
update_job-TakenOrSame worker at id (j ∷ js) = elim (Bool-cases (j.id == id)) [
  | inl same ↦ rw same (
    inl ((==_iff j.id id).0 same, claimed-IsTaken worker at j),
    update_job-TakenOrSame worker at id js,
  )
  | inr differs ↦
      rw differs
        (inr (λ e. cc ((==_iff j.id id).1 e), refl), update_job-TakenOrSame worker at id js)
]

-- What a successful claim has done: the row that IsNext names is taken, and no other row is touched.
pub record Claimed (worker : Bytes) (at : Time) (locked : ℕ → Bool) (before after : Db) (job : Job)
    : Type 0 where
  pub row : JobRow
  pub next : IsNext at locked before.jobs row
  pub returned : job ≡ to_job (claimed worker at row)
  pub handed_out : IsJobOf row job
  pub rows : EachRow (TakenOrSame worker at row.id) before.jobs after.jobs
  pub tickets : after.tickets ≡ before.tickets
  pub audit_log : after.audit_log ≡ before.audit_log
  pub updated : after ≡ record before { jobs = update_job row.id (claimed worker at) before.jobs }

-- A claim takes the ready, unlocked row with the smallest number: the rows with that number are
-- running at one attempt more, locked by the worker at the time of the claim, and otherwise as
-- they were, every other row is as it was, and so are the tickets and the audit log; the job that
-- it gives is that row, at that attempt. Or there is no such row, and nothing changes.
pub claim_next_outcome :
    (worker : Bytes) (at : Time) (locked : ℕ → Bool) (db : Db)
    → ((job : Job) × ((claim_next worker at locked db).0 ≡ ok job)
        × Claimed worker at locked db (claim_next worker at locked db).1 job)
      ⊎ ((claim_next worker at locked db ≡ (err no_rows, db))
          × All (λ k. is_free at locked k ≡ false) db.jobs)
unfolding claim_next
claim_next_outcome worker at locked db =
    go (next_job at locked db.jobs) (next_job-Chosen at locked db.jobs)
  where
    go :
        (found : Option JobRow)
        → Chosen at locked db.jobs found
        → ((job : Job) × ((claim_row worker at db found).0 ≡ ok job)
            × Claimed worker at locked db (claim_row worker at db found).1 job)
          ⊎ ((claim_row worker at db found ≡ (err no_rows, db))
              × All (λ k. is_free at locked k ≡ false) db.jobs)
    go none others = inr (refl, others)
    go (some j) next = inl (
      to_job (claimed worker at j),
      refl,
      record {
        row = j;
        next = next;
        returned = refl;
        handed_out = claimed-IsJobOf worker at j;
        rows = update_job-TakenOrSame worker at j.id db.jobs;
        tickets = refl;
        audit_log = refl;
        updated = refl;
      },
    )

pub Claimed-of_ok :
    (worker : Bytes) (at : Time) (locked : ℕ → Bool) (db : Db) (job : Job)
    → (claim_next worker at locked db).0 ≡ ok job
    → Claimed worker at locked db (claim_next worker at locked db).1 job
Claimed-of_ok worker at locked db job h = elim (claim_next_outcome worker at locked db) [
  | inl (other, is_ok, c) ↦
      subst (Claimed worker at locked db (claim_next worker at locked db).1) (cc) c
  | inr (missing, _) ↦ absurd (err-ne-ok {e = no_rows} (sym (ap (λ x. x.0) missing) ∙ h))
]
