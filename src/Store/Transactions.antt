-- ===== src/Store/Transactions.antt =====
-- Sequences of statements and transactions of internal/store, and what they keep of the tables,
-- committed or rolled back.
use projet_etude_app_demo.Prelude.{ℕ, suc, ◌≤◌, List, All-weaken, inl, inr, arith}
use projet_etude_app_demo.Model.{Time}
use projet_etude_app_demo.Store.Db.{Db, keep_sequences}
use projet_etude_app_demo.Store.Exec.{
  Result, ok, err, Pg, World, Exec, answered, refused, lost, Reply, Reply-cases, commit_reply,
  and_then, end_of, transaction, ◌>>=◌, send, send_at,
}
use projet_etude_app_demo.Store.Invariant.{
  ticket_ids, job_ids, audit_ids, IsKeyed, IsValid, KeepsExec,
}

-- A number that was given stays given when the sequence moves on.
pub IsKeyed-le : (ids : List ℕ) (n m : ℕ) → n ≤ m → IsKeyed ids n → IsKeyed ids m
IsKeyed-le ids n m p h = record {
  increasing = h.increasing;
  given = All-weaken (λ i q. omega arith) ids h.given;
}

-- The sequences never go back, also over a transaction that is rolled back.
pub record Advances (before after : Db) : Type 0 where
  pub ticket_seq : before.ticket_seq ≤ after.ticket_seq
  pub job_seq : before.job_seq ≤ after.job_seq
  pub audit_seq : before.audit_seq ≤ after.audit_seq

pub keep_sequences-IsValid :
    (base db : Db) → Advances base db → IsValid base → IsValid (keep_sequences base db)
unfolding keep_sequences
keep_sequences-IsValid base db a h = record {
  tickets =
      IsKeyed-le (ticket_ids base.tickets) base.ticket_seq db.ticket_seq a.ticket_seq h.tickets;
  jobs = IsKeyed-le (job_ids base.jobs) base.job_seq db.job_seq a.job_seq h.jobs;
  audit = IsKeyed-le (audit_ids base.audit_log) base.audit_seq db.audit_seq a.audit_seq h.audit;
  good_tickets = h.good_tickets;
  good_audit = h.good_audit;
}

module _ {ℓ κ} {A : Type ℓ} {B : Type κ} (P : Db → Type 0) where
  and_then-Keeps :
      (x : Result A × World) (f : A → Exec B)
      → P x.1.db
      → ((a : A) → KeepsExec P (f a))
      → P (and_then x f).1.db
  and_then-Keeps (ok a, w) f h k = k a w h
  and_then-Keeps (err e, w) f h k = h

  pub bind-KeepsExec :
      (m : Exec A) (f : A → Exec B)
      → KeepsExec P m
      → ((a : A) → KeepsExec P (f a))
      → KeepsExec P (m >>= f)
  bind-KeepsExec m f h k w p = and_then-Keeps (m w) f (h w p) k

abbrev pub IsValidFrom : Db → Db → Type 0
IsValidFrom base db = IsValid db × Advances base db

pub Advances-refl : (db : Db) → Advances db db
Advances-refl db = record {
  ticket_seq = omega arith;
  job_seq = omega arith;
  audit_seq = omega arith;
}

-- Also where COMMIT fails, or its answer is lost, and on every error inside the transaction.
module _ {ℓ} {A : Type ℓ} where
  commit_reply-IsValid :
      (r : Reply) (base : Db) (a : A) (w : World)
      → IsValid base
      → IsValid w.db
      → Advances base w.db
      → IsValid (commit_reply r base a w).1.db
  commit_reply-IsValid answered base a w b h adv = h
  commit_reply-IsValid (refused e) base a w b h adv = keep_sequences-IsValid base w.db adv b
  commit_reply-IsValid (lost e) base a w b h adv = h

  end_of-IsValid :
      (pg : Pg) (base : Db) (x : Result A × World)
      → IsValid base
      → IsValidFrom base x.1.db
      → IsValid (end_of pg base x).1.db
  end_of-IsValid pg base (err e, w) b (h, a) = keep_sequences-IsValid base w.db a b
  end_of-IsValid pg base (ok a, w) b (h, adv) =
      commit_reply-IsValid (pg.reply w.calls) base a (record w { calls = suc w.calls }) b h adv

  pub transaction-IsValid :
      (pg : Pg) (body : Time → Exec A)
      → ((base : Db) (at : Time) → KeepsExec (IsValidFrom base) (body at))
      → KeepsExec IsValid (transaction pg body)
  unfolding transaction send send_at
  transaction-IsValid pg body k w h = elim (Reply-cases (pg.reply w.calls)) [
    | inl (inl e) ↦
        rw (e, transaction)
          (end_of-IsValid pg w.db (body (pg.now w.calls) (record w { calls = suc w.calls })) h
            (k w.db (pg.now w.calls) (record w { calls = suc w.calls }) (h, Advances-refl w.db)))
    | inl (inr (t, e)) ↦ rw (e, transaction) h
    | inr (t, e) ↦ rw (e, transaction) h
  ]

-- The same for a property that a rollback restores.
module _ {ℓ} {A : Type ℓ} (P : Db → Type 0)
    (restored : (base db : Db) → P base → P (keep_sequences base db)) where
  commit_reply-Keeps :
      (r : Reply) (base : Db) (a : A) (w : World)
      → P base
      → P w.db
      → P (commit_reply r base a w).1.db
  commit_reply-Keeps answered base a w b h = h
  commit_reply-Keeps (refused e) base a w b h = restored base w.db b
  commit_reply-Keeps (lost e) base a w b h = h

  end_of-Keeps :
      (pg : Pg) (base : Db) (x : Result A × World) → P base → P x.1.db → P (end_of pg base x).1.db
  end_of-Keeps pg base (err e, w) b h = restored base w.db b
  end_of-Keeps pg base (ok a, w) b h =
      commit_reply-Keeps (pg.reply w.calls) base a (record w { calls = suc w.calls }) b h

  pub transaction-KeepsExec :
      (pg : Pg) (body : Time → Exec A)
      → ((at : Time) → KeepsExec P (body at))
      → KeepsExec P (transaction pg body)
  unfolding transaction send send_at
  transaction-KeepsExec pg body k w h = elim (Reply-cases (pg.reply w.calls)) [
    | inl (inl e) ↦
        rw (e, transaction)
          (end_of-Keeps pg w.db (body (pg.now w.calls) (record w { calls = suc w.calls })) h
            (k (pg.now w.calls) (record w { calls = suc w.calls }) h))
    | inl (inr (t, e)) ↦ rw (e, transaction) h
    | inr (t, e) ↦ rw (e, transaction) h
  ]
