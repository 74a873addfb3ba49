-- ===== src/Store/Jobs/Workers/Safety.antt =====
-- What the invariant says of every run of the fleet.

use projet_etude_app_demo.Prelude.{
  ℕ, ◌≡◌, refl, sym, ap, subst, inl, inr, Bool, Bytes, ◌∷◌, All, All-weaken,
}
use projet_etude_app_demo.Model.{Time, Job}
use projet_etude_app_demo.Store.Exec.{Pg, ok}
use projet_etude_app_demo.Store.Jobs.{update_job, claimed, completed, claim_next, set_done}
use projet_etude_app_demo.Store.Jobs.Claim.{Claimed-of_ok, claim_next_outcome}
use projet_etude_app_demo.Store.Jobs.Workers.{
  Fleet, start, Step, enqueues, claims, loses_claim, completes, fails, drops, Reach, here, next,
  IsSound, IsHeld, Apart, Inv,
}
use projet_etude_app_demo.Store.Jobs.Workers.Invariant.{
  start-Inv, taken-Inv, lost-Inv, release-Inv, drops-Inv,
}
use projet_etude_app_demo.Store.Jobs.Workers.Ends.{fails-Inv, enqueues-Inv, completed-IsSound}

claims-Inv :
    (s : Fleet) (worker : Bytes) (at : Time) (locked : ℕ → Bool) (job : Job)
    → Inv s
    → (claim_next worker at locked s.db).0 ≡ ok job
    → Inv (record { db = (claim_next worker at locked s.db).1; held = (worker, job) ∷ s.held })
claims-Inv s worker at locked job v h =
    let c = Claimed-of_ok worker at locked s.db job h in
    subst (λ d. Inv (record { db = d; held = (worker, job) ∷ s.held })) (sym c.updated)
      (subst
        (λ j. Inv (record {
          db = record s.db { jobs = update_job c.row.id (claimed worker at) s.db.jobs };
          held = (worker, j) ∷ s.held;
        }))
        (sym c.returned) (taken-Inv worker at locked s c.row v c.next))

loses_claim-Inv :
    (s : Fleet) (worker : Bytes) (at : Time) (locked : ℕ → Bool)
    → Inv s
    → Inv (record s { db = (claim_next worker at locked s.db).1 })
loses_claim-Inv s worker at locked v = elim (claim_next_outcome worker at locked s.db) [
  | inl (job, _, c) ↦
      subst (λ d. Inv (record s { db = d })) (sym c.updated)
        (lost-Inv worker at locked s c.row v c.next)
  | inr (same, _) ↦ subst (λ d. Inv (record s { db = d })) (sym (ap (λ x. x.1) same)) v
]

pub Step-Inv : {pg : Pg} {s t : Fleet} → Step pg s t → Inv s → Inv t
unfolding set_done
Step-Inv {pg} (enqueues s kind payload context at locked) v =
    enqueues-Inv pg s kind payload context at locked v
Step-Inv (claims s worker at locked job h) v = claims-Inv s worker at locked job v h
Step-Inv (loses_claim s worker at locked) v = loses_claim-Inv s worker at locked v
Step-Inv (completes s worker job front back at locked holds) v =
    release-Inv s worker job front back v holds (completed at) (λ j. refl)
      (completed-IsSound at worker job)
Step-Inv {pg} (fails s worker job front back reason at locked holds) v =
    fails-Inv pg s worker job front back reason at locked v holds
Step-Inv (drops s worker job front back holds) v = drops-Inv s worker job front back v holds

pub Reach-Inv : {pg : Pg} {s t : Fleet} → Inv s → Reach pg s t → Inv t
Reach-Inv v here = v
Reach-Inv v (next r st) = Step-Inv st (Reach-Inv v r)

-- In every state that any number of workers reach from the empty table, no two claims are of one
-- job, and the row of a job that a worker holds is running, locked by that worker, at the attempt
-- that it was given.
pub one_holder :
    (pg : Pg) (s : Fleet) → Reach pg start s → Apart s.held × All (λ c. IsHeld s.db.jobs c) s.held
one_holder pg s r =
    let v = Reach-Inv start-Inv r in (v.apart, All-weaken (λ c h. h.0) s.held v.held)

-- In every state that the workers reach from the empty table no row has been tried more often than
-- its limit, a pending row has an attempt left, and a row is given up only after its last attempt.
pub attempts_bounded : (pg : Pg) (s : Fleet) → Reach pg start s → All IsSound s.db.jobs
attempts_bounded pg s r = (Reach-Inv start-Inv r).rows
