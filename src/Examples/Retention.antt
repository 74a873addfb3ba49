-- ===== src/Examples/Retention.antt =====
-- The audit log with one row: its purge, for thirty days and for too many, and its listing.
use mathlib.Core.List.{Memᴰ}
use projet_etude_app_demo.Prelude.{
  ℕ, str_eq, if◌then◌else◌, parse_int, ap, ◌+◌, ◌*◌, ◌≤◌, ◌≡◌, refl, pos, negsuc, ◌≤ℤ◌, ◌<ℤ◌, ◌-ℤ◌,
  Bytes, str, [], ◌∷◌, length, is_empty, false, All, none, arith,
}
use projet_etude_app_demo.Store.Db.{AuditRow}
use projet_etude_app_demo.Store.Exec.{World, ok, send, timed}
use projet_etude_app_demo.Store.Audit.Page.{IsPage, list_audit-IsPage}
use projet_etude_app_demo.Store.Audit.{
  list_audit, select_audit, order_rows_desc, insert_row_desc, clamp_limit, to_entry,
  purge_audit_older_than, delete_audit,
}
use projet_etude_app_demo.AuditPurge.{run, retention, retention_days}
use projet_etude_app_demo.AuditPurge.Retention.{
  ReadsIntervals, day_us, days_of, run_exact, run_overflows,
}
use projet_etude_app_demo.Examples.{pg, world, micros}

exact_micros : (n : ℕ) → micros (pos (n * 1000)) ≡ pos n
exact_micros n = ap pos (omega arith)

negative_micros : (n : ℕ) → 1000 ≤ n → micros (negsuc n) <ℤ pos 0
negative_micros n h = omega arith

reads_pg : ReadsIntervals pg
reads_pg = record { exact = exact_micros; negative = negative_micros }

unfoldable env : Bytes → Bytes
unfolding str_eq
env name = if str_eq name (str "DATABASE_URL") then str "postgres://" else str "30"

unfoldable wide_env : Bytes → Bytes
unfolding str_eq
wide_env name = if str_eq name (str "DATABASE_URL") then str "postgres://" else str "150000"

abbrev row : AuditRow
row = record {
  id = 1;
  ts = pos 900;
  user_sub = str "dev";
  user_email = none;
  action = str "ticket.create";
  resource_type = none;
  resource_id = none;
  ip = none;
  user_agent = none;
  trace_id = none;
  result = str "ok";
}

abbrev logged_world : World
logged_world = record world { db = record world.db { audit_log = row ∷ []; audit_seq = 1 } }

days_test : days_of env ≡ 30
unfolding env wide_env retention_days parse_int
days_test = refl

wide_days_test : days_of wide_env ≡ 150000
unfolding env wide_env retention_days parse_int
wide_days_test = refl

kept_test : (run pg none env logged_world).0 ≡ ok 0
unfolding env wide_env run purge_audit_older_than timed send delete_audit retention retention_days
    ◌-ℤ◌ parse_int
kept_test = refl

lost_test : (run pg none wide_env logged_world).0 ≡ ok 1
unfolding env wide_env run purge_audit_older_than timed send delete_audit retention retention_days
    ◌-ℤ◌ parse_int
lost_test = refl

wide_url : is_empty (wide_env (str "DATABASE_URL")) ≡ false
unfolding wide_env str_eq
wide_url = refl

url : is_empty (env (str "DATABASE_URL")) ≡ false
unfolding env str_eq
url = refl

run_exact_example :
    All
      (λ r. pg.now 0 -ℤ pos (days_of env * day_us) ≤ℤ r.ts)
      (run pg none env logged_world).1.db.audit_log
    × ((r : AuditRow)
        → Memᴰ r (row ∷ [])
        → pg.now 0 -ℤ pos (days_of env * day_us) ≤ℤ r.ts
        → Memᴰ r (run pg none env logged_world).1.db.audit_log)
    × (0 + length (run pg none env logged_world).1.db.audit_log ≡ 1)
run_exact_example =
    run_exact pg reads_pg none env logged_world url 0 (omega (arith, days_test)) kept_test

run_overflows_example : (run pg none wide_env logged_world).1.db.audit_log ≡ []
run_overflows_example =
    run_overflows pg reads_pg none wide_env logged_world wide_url 1 (omega (arith, wide_days_test))
      (omega (arith, wide_days_test)) (omega arith, tt) lost_test

listed_test : (list_audit pg none (pos 9) logged_world).0 ≡ ok (to_entry pg row ∷ [])
unfolding list_audit timed send select_audit order_rows_desc insert_row_desc clamp_limit
listed_test = refl

list_audit-IsPage_example : IsPage pg (pos 9) (row ∷ []) (to_entry pg row ∷ [])
list_audit-IsPage_example =
    list_audit-IsPage pg none (pos 9) logged_world (to_entry pg row ∷ []) listed_test
