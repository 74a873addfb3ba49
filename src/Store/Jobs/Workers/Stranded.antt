-- ===== src/Store/Jobs/Workers/Stranded.antt =====
-- What becomes of a row of `jobs` that no worker of internal/jobworker/worker.go holds.
use mathlib.Core.List.{Memᴰ}
use mathlib.Core.List.Memᴰ
use projet_etude_app_demo.Prelude.{
  ℕ, ◌≡◌, ◌≢◌, sym, ◌∙◌, ap, subst, inl, inr, Bool, false, Bool-cases, ◌==◌, ltb, Bytes, List, [],
  ◌∷◌, ◌++◌, All, All-mem, All-weaken, Option, Option-cases, arith, if◌then◌else◌,
}
use projet_etude_app_demo.Model.{Time, Job}
use projet_etude_app_demo.Store.Db.{Db, JobRow, JobStatus, pending, running, finished, failed}
use projet_etude_app_demo.Store.Exec.{Pg}
use projet_etude_app_demo.Store.Tickets.{insert_job, jsonb_or_null}
use projet_etude_app_demo.Store.Jobs.{
  update_job, claimed, completed, claim_next, set_done, end_attempt, fail_statement,
}
use projet_etude_app_demo.Store.Jobs.Claim.{Claimed, Claimed-of_ok, claim_next_outcome}
use projet_etude_app_demo.Store.Jobs.Workers.{
  Claim, Fleet, start, Step, enqueues, claims, loses_claim, completes, fails, drops, Reach, here,
  next, IsHeld, IsRunBy, Inv,
}
use projet_etude_app_demo.Store.Jobs.Workers.Invariant.{
  start-Inv, only_row, row_pending, All-middle,
}
use projet_etude_app_demo.Store.Jobs.Workers.Safety.{Reach-Inv}

mem-update_job :
    (id : ℕ) (f : JobRow → JobRow) (js : List JobRow) (j : JobRow)
    → j.id ≢ id
    → Memᴰ j js
    → Memᴰ j (update_job id f js)
unfolding update_job
mem-update_job id f [] j differs m = elim m [ ]
mem-update_job id f (k ∷ js) j differs (Memᴰ.head e) = Memᴰ.head (
    e
    ∙ sym (
        ap (λ b. if b then f k else k)
          (not_same k.id (λ p. differs (ap (λ (r : JobRow). r.id) e ∙ p)))))
  where
    not_same : (n : ℕ) → n ≢ id → (n == id) ≡ false
    not_same n ne = ground arith
mem-update_job id f (k ∷ js) j differs (Memᴰ.tail m) =
    Memᴰ.tail (mem-update_job id f js j differs m)

-- A row that is not pending and that no claim is for.
pub record IsLeft (s : Fleet) (j : JobRow) : Type 0 where
  pub stored : Memᴰ j s.db.jobs
  pub not_pending : j.status ≢ pending
  pub unclaimed : All (λ c. c.1.id ≢ j.id) s.held

module _ (s : Fleet) (j : JobRow) (v : Inv s) (left : IsLeft s j) where
  Claimed-IsLeft :
      (worker : Bytes) (at : Time) (locked : ℕ → Bool) (after : Db) (job : Job)
      → Claimed worker at locked s.db after job
      → Memᴰ j after.jobs × (job.id ≢ j.id)
  Claimed-IsLeft worker at locked after job c =
      let apart : (j.id ≢ c.row.id) = λ e. left.not_pending (
        ap (λ (k : JobRow). k.status)
          (All-mem (λ k. k.id ≡ c.row.id → k ≡ c.row) s.db.jobs
            (only_row worker at locked s c.row v c.next) left.stored e)
        ∙ row_pending worker at locked s c.row v c.next) in
      (
        subst (λ d. Memᴰ j d.jobs) (sym c.updated)
            (mem-update_job c.row.id (claimed worker at) s.db.jobs j apart left.stored),
        λ e. apart (sym e ∙ ap (λ (k : Job). k.id) c.returned),
      )

  lost-IsLeft :
      (worker : Bytes) (at : Time) (locked : ℕ → Bool)
      → Memᴰ j (claim_next worker at locked s.db).1.jobs
  lost-IsLeft worker at locked = elim (claim_next_outcome worker at locked s.db) [
    | inl (job, _, c) ↦ (Claimed-IsLeft worker at locked _ job c).0
    | inr (same, _) ↦ subst (λ d. Memᴰ j d.jobs) (sym (ap (λ x. x.1) same)) left.stored
  ]

  added-IsLeft :
      (pg : Pg) (kind payload : Bytes) (context : Option Bytes) (at : Time) (locked : ℕ → Bool)
      → Memᴰ j (insert_job pg kind payload context at locked s.db).1.jobs
  unfolding insert_job
  added-IsLeft pg kind payload context at locked = elim (Option-cases (pg.jsonb payload)) [
    | inl bad ↦ rw (bad, insert_job) left.stored
    | inr (stored, good) ↦ elim (Option-cases (jsonb_or_null pg context)) [
      | inl bad ↦ rw (good, bad, insert_job) left.stored
      | inr (tc, e) ↦ rw (good, e, insert_job) (Memᴰ.append_left _ left.stored)
    ]
  ]

  end_attempt-IsLeft :
      (pg : Pg) (job : Job) (reason : Bytes) (at : Time) (locked : ℕ → Bool)
      → job.id ≢ j.id
      → Memᴰ j (end_attempt pg job.id job.attempts job.max_attempts reason at locked s.db).1.jobs
  unfolding end_attempt
  end_attempt-IsLeft pg job reason at locked apart =
      elim (Bool-cases (ltb job.attempts job.max_attempts)) [
        | inl less ↦
            rw (less, end_attempt)
              (mem-update_job job.id _ s.db.jobs j (λ e. apart (sym e)) left.stored)
        | inr most ↦
            rw (most, end_attempt)
              (mem-update_job job.id _ s.db.jobs j (λ e. apart (sym e)) left.stored)
      ]

  fails-IsLeft :
      (pg : Pg) (job : Job) (reason : Bytes) (at : Time) (locked : ℕ → Bool)
      → job.id ≢ j.id
      → Memᴰ j (fail_statement pg job.id job.attempts job.max_attempts reason at locked s.db).1.jobs
  unfolding fail_statement
  fails-IsLeft pg job reason at locked apart = elim (Bool-cases (pg.accepts_text reason)) [
    | inl accepted ↦
        rw (accepted, fail_statement) (end_attempt-IsLeft pg job reason at locked apart)
    | inr bad ↦ rw (bad, fail_statement) left.stored
  ]

  unclaimed_middle :
      (worker : Bytes) (job : Job) (front back : List Claim)
      → s.held ≡ front ++ (worker, job) ∷ back
      → (job.id ≢ j.id) × All (λ c. c.1.id ≢ j.id) (front ++ back)
  unclaimed_middle worker job front back holds =
      All-middle (λ c. c.1.id ≢ j.id) front back (worker, job)
        (subst (All (λ c. c.1.id ≢ j.id)) holds left.unclaimed)

Step-IsLeft : {pg : Pg} {s t : Fleet} (j : JobRow) → Step pg s t → Inv s → IsLeft s j → IsLeft t j
unfolding set_done
Step-IsLeft {pg} j (enqueues s kind payload context at locked) v left = record {
  stored = added-IsLeft s j v left pg kind payload context at locked;
  not_pending = left.not_pending;
  unclaimed = left.unclaimed;
}
Step-IsLeft j (claims s worker at locked job h) v left =
    let (stored, apart) =
      Claimed-IsLeft s j v left worker at locked _ job
        (Claimed-of_ok worker at locked s.db job h) in
    record { stored = stored; not_pending = left.not_pending; unclaimed = (apart, left.unclaimed) }
Step-IsLeft j (loses_claim s worker at locked) v left = record {
  stored = lost-IsLeft s j v left worker at locked;
  not_pending = left.not_pending;
  unclaimed = left.unclaimed;
}
Step-IsLeft j (completes s worker job front back at locked holds) v left =
    let (apart, others) = unclaimed_middle s j v left worker job front back holds in
    record {
      stored = mem-update_job job.id (completed at) s.db.jobs j (λ e. apart (sym e)) left.stored;
      not_pending = left.not_pending;
      unclaimed = others;
    }
Step-IsLeft {pg} j (fails s worker job front back reason at locked holds) v left =
    let (apart, others) = unclaimed_middle s j v left worker job front back holds in
    record {
      stored = fails-IsLeft s j v left pg job reason at locked apart;
      not_pending = left.not_pending;
      unclaimed = others;
    }
Step-IsLeft j (drops s worker job front back holds) v left = record {
  stored = left.stored;
  not_pending = left.not_pending;
  unclaimed = (unclaimed_middle s j v left worker job front back holds).1;
}

Reach-IsLeft : {pg : Pg} {s t : Fleet} (j : JobRow) → Inv s → IsLeft s j → Reach pg s t → IsLeft t j
Reach-IsLeft j v left here = left
Reach-IsLeft j v left (next r st) = Step-IsLeft j st (Reach-Inv v r) (Reach-IsLeft j v left r)

-- A running row that no worker holds, in a state that the workers reach, stays in the table as it
-- is in every later state, and no worker is given it again.
pub stranded_forever :
    (pg : Pg) (s t : Fleet) (j : JobRow)
    → Reach pg start s
    → Memᴰ j s.db.jobs
    → j.status ≡ running
    → All (λ c. c.1.id ≢ j.id) s.held
    → Reach pg s t
    → Memᴰ j t.db.jobs × All (λ c. c.1.id ≢ j.id) t.held
stranded_forever pg s t j r stored run unclaimed later =
    let left =
      Reach-IsLeft j (Reach-Inv start-Inv r)
        (record {
          stored = stored;
          not_pending = λ e. ground (arith, run, e);
          unclaimed = unclaimed;
        })
        later in
    (left.stored, left.unclaimed)

abbrev pub IsTerminal : JobStatus → Type 0
IsTerminal finished = Unit {0}
IsTerminal failed = Unit {0}
IsTerminal _ = ⊥

-- A row that is done or given up, in a state that the workers reach, keeps every column in every
-- later state.
pub terminal_forever :
    (pg : Pg) (s t : Fleet) (j : JobRow)
    → Reach pg start s
    → Memᴰ j s.db.jobs
    → IsTerminal j.status
    → Reach pg s t
    → Memᴰ j t.db.jobs
terminal_forever pg s t j r stored final later =
    let v = Reach-Inv start-Inv r in
    (Reach-IsLeft j v
      (record {
        stored = stored;
        not_pending = λ e. subst IsTerminal e final;
        unclaimed = All-weaken (λ c h same. subst IsTerminal (run c h.0 same) final) s.held v.held;
      })
      later).stored
  where
    run : (c : Claim) → IsHeld s.db.jobs c → c.1.id ≡ j.id → j.status ≡ running
    run c h same =
        (All-mem (λ k. k.id ≡ c.1.id → IsRunBy c.0 c.1 k) s.db.jobs h stored (sym same)).status
