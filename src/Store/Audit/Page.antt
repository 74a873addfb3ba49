-- ===== src/Store/Audit/Page.antt =====
-- ListAudit of internal/store/audit.go: how many rows it returns, which, and in which order.
use projet_etude_app_demo.Prelude.{
  ℕ, ◌+◌, ◌≤◌, ◌≡◌, refl, subst, Bool, Bool-cases, ℤ, pos, negsuc, leb_ℤ, ◌≤ℤ◌, List, [], ◌∷◌, map,
  All, All-weaken, count_if, take, inl, inr, arith,
}
use projet_etude_app_demo.Model.{AuditEntry}
use projet_etude_app_demo.Metrics.{Span}
use projet_etude_app_demo.Store.Db.{Db, AuditRow}
use projet_etude_app_demo.Store.Exec.{Pg, World, Result, ok, err, send-eq-ok, timed}
use projet_etude_app_demo.Store.Audit.{
  clamp_limit, insert_row_desc, order_rows_desc, to_entry, select_audit, list_audit,
}

-- The newest entry comes first.
abbrev pub LatestFirst : List AuditRow → Type 0
LatestFirst [] = Unit {0}
LatestFirst (r ∷ rs) = All (λ q. q.ts ≤ℤ r.ts) rs × LatestFirst rs

not_later : (a b c : ℤ) → a ≤ℤ b → b ≤ℤ c → a ≤ℤ c
not_later a b c p q = omega arith

insert_row_desc-All :
    (P : AuditRow → Type 0) (r : AuditRow) (qs : List AuditRow)
    → P r
    → All P qs
    → All P (insert_row_desc r qs)
unfolding insert_row_desc
insert_row_desc-All P r [] p h = (p, tt)
insert_row_desc-All P r (q ∷ qs) p (k, h) = elim (Bool-cases (leb_ℤ q.ts r.ts)) [
  | inl le ↦ rw le (p, (k, h))
  | inr gt ↦ rw gt (k, insert_row_desc-All P r qs p h)
]

insert_row_desc-LatestFirst :
    (r : AuditRow) (qs : List AuditRow) → LatestFirst qs → LatestFirst (insert_row_desc r qs)
unfolding insert_row_desc
insert_row_desc-LatestFirst r [] h = (tt, tt)
insert_row_desc-LatestFirst r (q ∷ qs) (below, h) = elim (Bool-cases (leb_ℤ q.ts r.ts)) [
  | inl le ↦ rw le (
    (ground arith, All-weaken (λ v p. not_later v.ts q.ts r.ts p (ground arith)) qs below),
    (below, h),
  )
  | inr gt ↦ rw gt (
    insert_row_desc-All (λ v. v.ts ≤ℤ q.ts) r qs (ground arith) below,
    insert_row_desc-LatestFirst r qs h,
  )
]

order_rows_desc-LatestFirst :
    (sorted rs : List AuditRow) → LatestFirst sorted → LatestFirst (order_rows_desc sorted rs)
unfolding order_rows_desc
order_rows_desc-LatestFirst sorted [] h = h
order_rows_desc-LatestFirst sorted (r ∷ rs) h =
    order_rows_desc-LatestFirst (insert_row_desc r sorted) rs
      (insert_row_desc-LatestFirst r sorted h)

module _ (p : AuditRow → Bool) where
  count-insert_row_desc :
      (r : AuditRow) (qs : List AuditRow) → count_if p (insert_row_desc r qs) ≡ count_if p (r ∷ qs)
  unfolding insert_row_desc
  count-insert_row_desc r [] = refl
  count-insert_row_desc r (q ∷ qs) = ground (arith, count-insert_row_desc r qs)

  count-order_rows_desc :
      (sorted rs : List AuditRow)
      → count_if p (order_rows_desc sorted rs) ≡ count_if p sorted + count_if p rs
  unfolding order_rows_desc
  count-order_rows_desc sorted [] = omega arith
  count-order_rows_desc sorted (r ∷ rs) =
      ground
        (arith, count-order_rows_desc (insert_row_desc r sorted) rs, count-insert_row_desc r sorted)

-- The number of entries that a limit asks for.
pub record IsPageSize (limit : ℤ) (size : ℕ) : Type 0 where
  pub at_least : 1 ≤ size
  pub at_most : size ≤ 500
  pub given : (n : ℕ) → limit ≡ pos n → 1 ≤ n → n ≤ 500 → size ≡ n

clamp_limit-IsPageSize : (limit : ℤ) → IsPageSize limit (clamp_limit limit)
unfolding clamp_limit
clamp_limit-IsPageSize (negsuc n) = record {
  at_least = omega arith;
  at_most = omega arith;
  given = λ m e. cc;
}
clamp_limit-IsPageSize (pos n) = record {
  at_least = ground arith;
  at_most = ground arith;
  given = λ m e low high. ground (arith, e);
}

-- The entries are those of the first rows of all the log, newest first; each test holds of as many of
-- `ordered` as of the rows of the log.
pub record IsPage (pg : Pg) (limit : ℤ) (log : List AuditRow) (entries : List AuditEntry)
    : Type 0 where
  pub ordered : List AuditRow
  pub rows : (p : AuditRow → Bool) → count_if p ordered ≡ count_if p log
  pub latest_first : LatestFirst ordered
  pub size : ℕ
  pub chosen : IsPageSize limit size
  pub first : entries ≡ map (to_entry pg) (take size ordered)

abbrev IsPageAnswer : Pg → ℤ → List AuditRow → Result (List AuditEntry) → Type 0
IsPageAnswer pg limit log (ok entries) = IsPage pg limit log entries
IsPageAnswer pg limit log (err e) = Unit {0}

select_audit-IsPageAnswer :
    (pg : Pg) (limit at : ℤ) (locked : ℕ → Bool) (db : Db)
    → IsPageAnswer pg limit db.audit_log (select_audit pg (clamp_limit limit) at locked db).0
unfolding select_audit
select_audit-IsPageAnswer pg limit at locked db = record {
  ordered = order_rows_desc [] db.audit_log;
  rows = λ p. omega (arith, count-order_rows_desc p [] db.audit_log);
  latest_first = order_rows_desc-LatestFirst [] db.audit_log tt;
  size = clamp_limit limit;
  chosen = clamp_limit-IsPageSize limit;
  first = refl;
}

module _ (pg : Pg) (span : Span) (limit : ℤ) (w : World) where
  -- If ListAudit succeeds it returns the entries of the first rows of a list in which the time
  -- never grows, and which has as many rows that pass a test as the log, for every test; it takes
  -- as many rows as the limit says if that is from 1 to 500, and never none or more than 500.
  pub list_audit-IsPage :
      (entries : List AuditEntry)
      → (list_audit pg span limit w).0 ≡ ok entries
      → IsPage pg limit w.db.audit_log entries
  unfolding list_audit timed
  list_audit-IsPage entries h =
      subst (IsPageAnswer pg limit w.db.audit_log)
        (send-eq-ok pg (select_audit pg (clamp_limit limit)) w entries h).0
        (select_audit-IsPageAnswer pg limit (pg.now w.calls) (pg.locked w.calls) w.db)
