-- ===== src/AuditPurge/Retention.antt =====
-- What cmd/audit-purge/main.go deletes, by the retention that is set.
use mathlib.Core.List.{Memᴰ}
use projet_etude_app_demo.Prelude.{
  ℕ, ◌+◌, ◌-◌, ◌*◌, ◌≤◌, ◌≡◌, refl, sym, ◌∙◌, ap, subst, ℤ, pos, negsuc, ◌≤ℤ◌, ◌<ℤ◌, ◌-ℤ◌, -ℤ_parts,
  ltb_ℤ, word_mod, Bytes, str, is_empty, Bool, true, false, Bool-cases, not, inl, inr, List, [],
  ◌∷◌, length, select, count_if, All, All-weaken, arith,
}
use projet_etude_app_demo.Model.{Time}
use projet_etude_app_demo.Metrics.{Span}
use projet_etude_app_demo.Store.Db.{Db, AuditRow}
use projet_etude_app_demo.Store.Exec.{ok, Pg, World, send-eq-ok, timed}
use projet_etude_app_demo.Store.Audit.{is_older, delete_audit, purge_audit_older_than}
use projet_etude_app_demo.AuditPurge.{hour, retention, retention_days, run}

-- How the server reads an interval that Duration.String wrote: whole microseconds exactly, and
-- one that is negative by a microsecond or more as less than zero.
pub record ReadsIntervals (pg : Pg) : Type 0 where
  pub exact : (n : ℕ) → pg.interval (pos (n * 1000)) ≡ pos n
  pub negative : (n : ℕ) → 1000 ≤ n → pg.interval (negsuc n) <ℤ pos 0

-- A day, in microseconds.
abbrev pub day_us : ℕ
day_us = 86400000000

retention_exact : (days : ℕ) → days ≤ 106751 → retention days ≡ pos (days * day_us * 1000)
unfolding retention
retention_exact days h = ground arith

retention_negative :
    (days : ℕ) → 106752 ≤ days → days ≤ 213503 → (n : ℕ) × (retention days ≡ negsuc n) × (1000 ≤ n)
unfolding retention
retention_negative days h k = (word_mod - days * 24 * hour - 1, ground arith, omega arith)

le_of_not_ltb : (a b : ℤ) → ltb_ℤ a b ≡ false → b ≤ℤ a
le_of_not_ltb a b h = ground arith

not_ltb_of_le : (a b : ℤ) → b ≤ℤ a → ltb_ℤ a b ≡ false
not_ltb_of_le a b h = ground arith

ltb_of_past : (t now i : ℤ) → t ≤ℤ now → i <ℤ pos 0 → ltb_ℤ t (now -ℤ i) ≡ true
ltb_of_past t now i p q = ground (arith, -ℤ_parts now i)

module _ {ℓ} {A : Type ℓ} where
  count-select :
      (p : A → Bool) (xs : List A) → count_if p xs + length (select (λ x. not (p x)) xs) ≡ length xs
  count-select p [] = omega arith
  count-select p (x ∷ xs) = ground (arith, count-select p xs)

  select-All : (p : A → Bool) (xs : List A) → All (λ x. p x ≡ false) (select (λ x. not (p x)) xs)
  select-All p [] = tt
  select-All p (x ∷ xs) = elim (Bool-cases (p x)) [
    | inl out ↦ rw out (select-All p xs)
    | inr kept ↦ rw kept (kept, select-All p xs)
  ]

  select_all :
      (p : A → Bool) (xs : List A) → All (λ x. p x ≡ true) xs → select (λ x. not (p x)) xs ≡ []
  select_all p [] h = refl
  select_all p (x ∷ xs) (q, h) = rw q (select_all p xs h)

  mem-select :
      (p : A → Bool) (xs : List A) {x : A}
      → p x ≡ false
      → Memᴰ x xs
      → Memᴰ x (select (λ y. not (p y)) xs)
  mem-select p [] kept m = elim m [ ]
  mem-select p (y ∷ ys) kept (Memᴰ.head e) = rw (subst (λ z. p z ≡ false) e kept) (Memᴰ.head e)
  mem-select p (y ∷ ys) kept (Memᴰ.tail m) = elim (Bool-cases (p y)) [
    | inl out ↦ rw out (mem-select p ys kept m)
    | inr stays ↦ rw stays (Memᴰ.tail (mem-select p ys kept m))
  ]

-- The days that the environment sets, and what is in the table after a run.
abbrev pub days_of : (Bytes → Bytes) → ℕ
days_of env = retention_days (env (str "AUDIT_RETENTION_DAYS"))

module _ (pg : Pg) (reads : ReadsIntervals pg) (span : Span) (env : Bytes → Bytes) (w : World)
    (set : is_empty (env (str "DATABASE_URL")) ≡ false) where
  abbrev before : List AuditRow
  before = w.db.audit_log

  abbrev after : List AuditRow
  after = (run pg span env w).1.db.audit_log

  abbrev older : AuditRow → Bool
  older = is_older pg (retention (days_of env)) (pg.now w.calls)

  run-eq-ok :
      (n : ℕ)
      → (run pg span env w).0 ≡ ok n
      → (n ≡ count_if older before) × (after ≡ select (λ r. not (older r)) before)
  unfolding run purge_audit_older_than timed delete_audit
  run-eq-ok n h =
      let d = retention (days_of env) in
      let e : (run pg span env w ≡ purge_audit_older_than pg span d w) = rw (set, run) in
      let (ran, db) = send-eq-ok pg (delete_audit pg d) w n (rw e at h) in
      (ground (arith, ran), ap (λ x. x.1.db.audit_log) e ∙ ap (λ (t : Db). t.audit_log) db)

  abbrev cutoff : Time
  cutoff = pg.now w.calls -ℤ pos (days_of env * day_us)

  older_iff : days_of env ≤ 106751 → (r : AuditRow) → older r ≡ ltb_ℤ r.ts cutoff
  older_iff small r = rw (retention_exact (days_of env) small, reads.exact (days_of env * day_us))

  -- If the database is set, run succeeds and the retention is at most 106751 days, no row of the
  -- audit log older than that is left, every other row is, and the number returned is the number
  -- of rows that are gone.
  pub run_exact :
      (n : ℕ)
      → days_of env ≤ 106751
      → (run pg span env w).0 ≡ ok n
      → All (λ r. cutoff ≤ℤ r.ts) after
        × ((r : AuditRow) → Memᴰ r before → cutoff ≤ℤ r.ts → Memᴰ r after)
        × (n + length after ≡ length before)
  run_exact n small h =
      let (counted, left) = run-eq-ok n h in
      (
        subst (All (λ r. cutoff ≤ℤ r.ts)) (sym left) (
            All-weaken (λ r out. le_of_not_ltb r.ts cutoff (sym (older_iff small r) ∙ out)) _
              (select-All older before)),
        λ r stored recent.
            subst (Memᴰ r) (sym left) (
              mem-select older before (older_iff small r ∙ not_ltb_of_le r.ts cutoff recent)
                stored),
        rw (left, counted) (count-select older before),
      )

  -- If the database is set, run succeeds and the retention is from 106752 to 213503 days, the
  -- product wraps round to a negative duration and every row of the audit log is deleted, where
  -- none lies in the future.
  pub run_overflows :
      (n : ℕ)
      → 106752 ≤ days_of env
      → days_of env ≤ 213503
      → All (λ r. r.ts ≤ℤ pg.now w.calls) before
      → (run pg span env w).0 ≡ ok n
      → after ≡ []
  run_overflows n large small past h =
      let (k, e, big) = retention_negative (days_of env) large small in
      (run-eq-ok n h).1
      ∙ select_all older before (
          All-weaken
            (λ r p.
              subst (λ i. ltb_ℤ r.ts (pg.now w.calls -ℤ pg.interval i) ≡ true) (sym e)
                (ltb_of_past r.ts (pg.now w.calls) (pg.interval (negsuc k)) p
                  (reads.negative k big)))
            before past)
