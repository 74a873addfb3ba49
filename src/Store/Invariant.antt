-- ===== src/Store/Invariant.antt =====
-- What the schema of internal/store/store.go promises of the rows, and how a statement changes it.
use projet_etude_app_demo.Prelude.{
  ℕ, suc, ◌≤◌, ◌≡◌, sym, subst, Bool, true, Bytes, List, [], ◌∷◌, ◌++◌, map, map-concat, All,
  All-append, All-weaken, Increasing, Increasing-concat, All-map_select, Increasing-map-select,
  Option, arith, select,
}
use projet_etude_app_demo.Model.{Ticket, Time}
use projet_etude_app_demo.Store.Db.{
  Db, JobRow, AuditRow, title_check, priority_check, status_check, result_check, empty_db,
}
use projet_etude_app_demo.Store.Exec.{
  Result, Pg, World, Statement, Exec, map_result, send, send_at, timed,
}

abbrev pub ticket_ids : List Ticket → List ℕ
ticket_ids = map (λ t. t.id)

abbrev pub job_ids : List JobRow → List ℕ
job_ids = map (λ j. j.id)

abbrev pub audit_ids : List AuditRow → List ℕ
audit_ids = map (λ r. r.id)

-- The CHECK constraints of a ticket's row.
abbrev pub IsGoodTicket : Ticket → Type 0
IsGoodTicket t =
    (title_check t.title ≡ true)
    × (priority_check t.priority ≡ true)
    × (status_check t.status ≡ true)

-- A key is unique, and was given by its sequence.
pub record IsKeyed (ids : List ℕ) (seq : ℕ) : Type 0 where
  pub increasing : Increasing ids
  pub given : All (λ n. n ≤ seq) ids

pub record IsValid (db : Db) : Type 0 where
  pub tickets : IsKeyed (ticket_ids db.tickets) db.ticket_seq
  pub jobs : IsKeyed (job_ids db.jobs) db.job_seq
  pub audit : IsKeyed (audit_ids db.audit_log) db.audit_seq
  pub good_tickets : All IsGoodTicket db.tickets
  pub good_audit : All (λ r. result_check r.result ≡ true) db.audit_log

pub empty_db-IsValid : IsValid empty_db
empty_db-IsValid = record {
  tickets = record { increasing = tt; given = tt };
  jobs = record { increasing = tt; given = tt };
  audit = record { increasing = tt; given = tt };
  good_tickets = tt;
  good_audit = tt;
}

pub IsKeyed-suc : (ids : List ℕ) (seq : ℕ) → IsKeyed ids seq → IsKeyed ids (suc seq)
IsKeyed-suc ids seq h = record {
  increasing = h.increasing;
  given = All-weaken (λ n p. omega arith) ids h.given;
}

pub IsKeyed-concat :
    (ids : List ℕ) (seq : ℕ) → IsKeyed ids seq → IsKeyed (ids ++ suc seq ∷ []) (suc seq)
IsKeyed-concat ids seq h = record {
  increasing = Increasing-concat ids seq h.increasing h.given;
  given =
      All-append (λ n. n ≤ suc seq) ids (suc seq ∷ []) (IsKeyed-suc ids seq h).given
        (omega arith, tt);
}

pub IsKeyed-map_concat {ℓ} :
    {A : Type ℓ} (f : A → ℕ) (xs : List A) (x : A) (seq : ℕ)
    → f x ≡ suc seq
    → IsKeyed (map f xs) seq
    → IsKeyed (map f (xs ++ x ∷ [])) (suc seq)
IsKeyed-map_concat f xs x seq e h = rw (map-concat f xs x, e) (IsKeyed-concat (map f xs) seq h)

pub IsKeyed-select {ℓ} :
    {A : Type ℓ} (f : A → ℕ) (p : A → Bool) (xs : List A) (seq : ℕ)
    → IsKeyed (map f xs) seq
    → IsKeyed (map f (select p xs)) seq
IsKeyed-select f p xs seq h = record {
  increasing = Increasing-map-select f p xs h.increasing;
  given = All-map_select f p (λ n. n ≤ seq) xs h.given;
}

-- What a statement keeps, whatever `now()` gives and whichever rows are locked.
abbrev pub Keeps {ℓ} : {A : Type ℓ} → (Db → Type 0) → Statement A → Type 0
Keeps P st = (at : Time) (locked : ℕ → Bool) (db : Db) → P db → P (st at locked db).1

abbrev pub KeepsExec {ℓ} : {A : Type ℓ} → (Db → Type 0) → Exec A → Type 0
KeepsExec P m = (w : World) → P w.db → P (m w).1.db

module _ {ℓ} {A : Type ℓ} (P : Db → Type 0) where
  pub send_at-KeepsExec :
      (pg : Pg) (at : Time) (st : Statement A) → Keeps P st → KeepsExec P (send_at pg at st)
  unfolding send_at
  send_at-KeepsExec pg at st k w h = ground (arith, k at (pg.locked w.calls) w.db h)

  pub send-KeepsExec : (pg : Pg) (st : Statement A) → Keeps P st → KeepsExec P (send pg st)
  unfolding send
  send-KeepsExec pg st k w h = send_at-KeepsExec pg (pg.now w.calls) st k w h

  pub timed-KeepsExec :
      (pg : Pg) (span : Option Bytes) (op : Bytes) (m : Exec A)
      → KeepsExec P m
      → KeepsExec P (timed pg span op m)
  unfolding timed
  timed-KeepsExec pg span op m k w h = k w h

  pub map_result-KeepsExec :
      (f : Result A → Result A) (m : Exec A) → KeepsExec P m → KeepsExec P (map_result f m)
  map_result-KeepsExec f m k w h = k w h

-- The three ways in which the statements change the tables' keys.
pub add_ticket-IsValid :
    (db : Db) (t : Ticket)
    → t.id ≡ suc db.ticket_seq
    → IsGoodTicket t
    → IsValid db
    → IsValid (record db { ticket_seq = suc db.ticket_seq; tickets = db.tickets ++ t ∷ [] })
add_ticket-IsValid db t e g h = record {
  tickets = IsKeyed-map_concat (λ u. u.id) db.tickets t db.ticket_seq e h.tickets;
  jobs = h.jobs;
  audit = h.audit;
  good_tickets = All-append IsGoodTicket db.tickets (t ∷ []) h.good_tickets (g, tt);
  good_audit = h.good_audit;
}

pub skip_ticket-IsValid :
    (db : Db) → IsValid db → IsValid (record db { ticket_seq = suc db.ticket_seq })
skip_ticket-IsValid db h = record {
  tickets = IsKeyed-suc (ticket_ids db.tickets) db.ticket_seq h.tickets;
  jobs = h.jobs;
  audit = h.audit;
  good_tickets = h.good_tickets;
  good_audit = h.good_audit;
}

pub add_job-IsValid :
    (db : Db) (j : JobRow)
    → j.id ≡ suc db.job_seq
    → IsValid db
    → IsValid (record db { job_seq = suc db.job_seq; jobs = db.jobs ++ j ∷ [] })
add_job-IsValid db j e h = record {
  tickets = h.tickets;
  jobs = IsKeyed-map_concat (λ k. k.id) db.jobs j db.job_seq e h.jobs;
  audit = h.audit;
  good_tickets = h.good_tickets;
  good_audit = h.good_audit;
}

pub keep_jobs-IsValid :
    (db : Db) (js : List JobRow)
    → job_ids js ≡ job_ids db.jobs
    → IsValid db
    → IsValid (record db { jobs = js })
keep_jobs-IsValid db js e h = record {
  tickets = h.tickets;
  jobs = subst (λ ids. IsKeyed ids db.job_seq) (sym e) h.jobs;
  audit = h.audit;
  good_tickets = h.good_tickets;
  good_audit = h.good_audit;
}

pub keep_tickets-IsValid :
    (db : Db) (ts : List Ticket)
    → ticket_ids ts ≡ ticket_ids db.tickets
    → All IsGoodTicket ts
    → IsValid db
    → IsValid (record db { tickets = ts })
keep_tickets-IsValid db ts e g h = record {
  tickets = subst (λ ids. IsKeyed ids db.ticket_seq) (sym e) h.tickets;
  jobs = h.jobs;
  audit = h.audit;
  good_tickets = g;
  good_audit = h.good_audit;
}
