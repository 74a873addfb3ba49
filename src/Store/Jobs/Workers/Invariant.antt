-- ===== src/Store/Jobs/Workers/Invariant.antt =====
-- The invariant of the fleet and each kind of step.

use projet_etude_app_demo.Prelude.{
  ℕ, ◌+◌, ◌≤◌, ◌≡◌, ◌≢◌, refl, sym, ◌∙◌, ap, subst, Bool, Bytes, List, [], ◌∷◌, ◌++◌, All,
  All-weaken, All-mem, All-zip, All-of_map, arith,
}
use projet_etude_app_demo.Model.{Time, Job}
use projet_etude_app_demo.Store.Db.{JobRow, pending}
use projet_etude_app_demo.Store.Invariant.{IsKeyed, job_ids}
use projet_etude_app_demo.Store.Jobs.{update_job, claimed, to_job}
use projet_etude_app_demo.Store.Jobs.Claim.{IsNext, update_job-All, job_ids-update_job, unique_row}
use projet_etude_app_demo.Store.Jobs.Workers.{
  Claim, Fleet, start, IsSound, IsRunBy, IsHeld, Apart, Inv,
}

pub All-middle {ℓ κ} :
    {A : Type ℓ} (P : A → Type κ) (front back : List A) (x : A)
    → All P (front ++ x ∷ back)
    → P x × All P (front ++ back)
All-middle P [] back x (p, h) = (p, h)
All-middle P (y ∷ front) back x (p, h) = let (q, k) = All-middle P front back x h in (q, (p, k))

Apart-middle :
    (front back : List Claim) (c : Claim)
    → Apart (front ++ c ∷ back)
    → All (λ d. d.1.id ≢ c.1.id) (front ++ back) × Apart (front ++ back)
Apart-middle [] back c (h, k) = (h, k)
Apart-middle (d ∷ front) back c (h, k) =
    let (far, others) = All-middle (λ e. e.1.id ≢ d.1.id) front back c h in
    let (rest, apart) = Apart-middle front back c k in ((λ e. far (sym e), rest), (others, apart))

-- Another job's row may be updated under a claim.
IsHeld-update :
    (c : Claim) (id : ℕ) (f : JobRow → JobRow) (js : List JobRow)
    → ((j : JobRow) → (f j).id ≡ j.id)
    → c.1.id ≢ id
    → IsHeld js c
    → IsHeld (update_job id f js) c
IsHeld-update c id f js keeps apart h =
    update_job-All (λ j. j.id ≡ c.1.id → IsRunBy c.0 c.1 j) (λ j. j.id ≡ c.1.id → IsRunBy c.0 c.1 j)
      id f js (λ j run same is_c. absurd (apart (sym is_c ∙ keeps j ∙ same))) (λ j run differs. run)
      h

pub start-Inv : Inv start
start-Inv = record {
  keyed = record { increasing = tt; given = tt };
  rows = tt;
  held = tt;
  apart = tt;
}

-- A free row is not held: it is pending.
free_not_held :
    (at : Time) (locked : ℕ → Bool) (js : List JobRow) (j : JobRow) (c : Claim)
    → IsNext at locked js j
    → IsHeld js c
    → c.1.id ≢ j.id
free_not_held at locked js j c next h e =
    let run = All-mem (λ k. k.id ≡ c.1.id → IsRunBy c.0 c.1 k) js h next.stored (sym e) in
    ground (arith, run.status, next.free)

-- A claim takes a row that is pending, and whose number no other row has.
module _ (worker : Bytes) (at : Time) (locked : ℕ → Bool) (s : Fleet) (row : JobRow) (v : Inv s)
    (next : IsNext at locked s.db.jobs row) where
  abbrev pub taken : List JobRow
  taken = update_job row.id (claimed worker at) s.db.jobs

  pub row_pending : row.status ≡ pending
  row_pending = ground (arith, next.free)

  pub only_row : All (λ j. j.id ≡ row.id → j ≡ row) s.db.jobs
  only_row = unique_row s.db.jobs row v.keyed.increasing next.stored

  claimed-IsSound : (j : JobRow) → IsSound j → j.status ≡ pending → IsSound (claimed worker at j)
  claimed-IsSound j h p = record {
    within = omega (arith, h.retries_left p);
    retries_left = λ e. cc;
    exhausted = λ e. cc;
    tried = λ _. omega arith;
  }

  taken-rows : All IsSound taken
  taken-rows =
      update_job-All (λ j. IsSound j × (j.id ≡ row.id → j ≡ row)) IsSound row.id (claimed worker at)
        s.db.jobs
        (λ j h same. claimed-IsSound j h.0 (ap (λ (k : JobRow). k.status) (h.1 same) ∙ row_pending))
        (λ j h differs. h.0)
        (All-zip IsSound (λ j. j.id ≡ row.id → j ≡ row) s.db.jobs v.rows only_row)

  taken-IsKeyed : IsKeyed (job_ids taken) s.db.job_seq
  taken-IsKeyed =
      subst (λ ids. IsKeyed ids s.db.job_seq)
        (sym (job_ids-update_job row.id (claimed worker at) s.db.jobs (λ j. refl))) v.keyed

  taken-held : All (λ c. IsHeld taken c × (c.1.id ≤ s.db.job_seq)) s.held
  taken-held =
      All-weaken
        (λ c h. (
          IsHeld-update c row.id (claimed worker at) s.db.jobs (λ j. refl)
              (free_not_held at locked s.db.jobs row c next h.0) h.0,
          h.1,
        ))
        s.held v.held

  abbrev pub new_claim : Claim
  new_claim = (worker, to_job (claimed worker at row))

  new_claim-IsHeld : IsHeld taken new_claim
  new_claim-IsHeld =
      update_job-All (λ j. j.id ≡ row.id → j ≡ row)
        (λ j. j.id ≡ row.id → IsRunBy worker new_claim.1 j) row.id (claimed worker at) s.db.jobs
        (λ j only same _. run j (only same)) (λ j only differs same. absurd (differs same)) only_row
    where
      run : (j : JobRow) → j ≡ row → IsRunBy worker new_claim.1 (claimed worker at j)
      run j e = record {
        status = refl;
        locked_by = refl;
        attempts = ap (λ (k : JobRow). k.attempts + 1) e;
        max_attempts = ap (λ (k : JobRow). k.max_attempts) e;
      }

  row_given : row.id ≤ s.db.job_seq
  row_given =
      All-mem (λ j. j.id ≤ s.db.job_seq) s.db.jobs
        (All-of_map (λ n. n ≤ s.db.job_seq) (λ j. j.id) s.db.jobs v.keyed.given) next.stored

  pub lost-Inv : Inv (record s { db = record s.db { jobs = taken } })
  lost-Inv = record { keyed = taken-IsKeyed; rows = taken-rows; held = taken-held; apart = v.apart }

  pub taken-Inv : Inv (record { db = record s.db { jobs = taken }; held = new_claim ∷ s.held })
  taken-Inv = record {
    keyed = taken-IsKeyed;
    rows = taken-rows;
    held = ((new_claim-IsHeld, row_given), taken-held);
    apart = (
      All-weaken (λ c h. free_not_held at locked s.db.jobs row c next h.0) s.held v.held,
      v.apart,
    );
  }

-- The statement that ends a held job touches its row, and the claim is gone.
module _ (s : Fleet) (worker : Bytes) (job : Job) (front back : List Claim) (v : Inv s)
    (holds : s.held ≡ front ++ (worker, job) ∷ back) where
  pub split_held :
      (IsHeld s.db.jobs (worker, job) × (job.id ≤ s.db.job_seq))
      × All (λ c. IsHeld s.db.jobs c × (c.1.id ≤ s.db.job_seq)) (front ++ back)
  split_held =
      All-middle (λ c. IsHeld s.db.jobs c × (c.1.id ≤ s.db.job_seq)) front back (worker, job)
        (subst (All (λ c. IsHeld s.db.jobs c × (c.1.id ≤ s.db.job_seq))) holds v.held)

  split-Apart : All (λ d. d.1.id ≢ job.id) (front ++ back) × Apart (front ++ back)
  split-Apart = Apart-middle front back (worker, job) (subst Apart holds v.apart)

  pub release-Inv :
      (f : JobRow → JobRow)
      → ((j : JobRow) → (f j).id ≡ j.id)
      → ((j : JobRow) → IsSound j → IsRunBy worker job j → IsSound (f j))
      → Inv (record {
        db = record s.db { jobs = update_job job.id f s.db.jobs };
        held = front ++ back;
      })
  release-Inv f keeps sound = record {
    keyed =
        subst (λ ids. IsKeyed ids s.db.job_seq) (sym (job_ids-update_job job.id f s.db.jobs keeps))
          v.keyed;
    rows =
        update_job-All (λ j. IsSound j × (j.id ≡ job.id → IsRunBy worker job j)) IsSound job.id f
          s.db.jobs (λ j h same. sound j h.0 (h.1 same)) (λ j h differs. h.0)
          (All-zip IsSound (λ j. j.id ≡ job.id → IsRunBy worker job j) s.db.jobs v.rows
            split_held.0.0);
    held =
        All-weaken (λ c h. (IsHeld-update c job.id f s.db.jobs keeps h.1 h.0.0, h.0.1))
          (front ++ back)
          (All-zip (λ c. IsHeld s.db.jobs c × (c.1.id ≤ s.db.job_seq)) (λ c. c.1.id ≢ job.id)
            (front ++ back) split_held.1 split-Apart.0);
    apart = split-Apart.1;
  }

  pub drops-Inv : Inv (record s { held = front ++ back })
  drops-Inv = record { keyed = v.keyed; rows = v.rows; held = split_held.1; apart = split-Apart.1 }
