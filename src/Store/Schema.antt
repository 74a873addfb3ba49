-- ===== src/Store/Schema.antt =====
-- The migrations of internal/store/store.go, as what their SQL does to the catalog of the database. A
-- statement is a transaction of its own.
pub mod Recovery
pub mod Race
use projet_etude_app_demo.Prelude.{
  ℕ, suc, Bool, true, false, ◌&&◌, Bytes, str, List, [], ◌∷◌, ◌++◌, if◌then◌else◌,
}
use projet_etude_app_demo.Store.Exec.{
  Error, driver, wrapped, Result, ok, err, Reply, answered, refused, lost, Pg,
}

-- The statements of `migrations`, in the order of the list.
pub data Ddl : Type 0 where
  create_tickets create_tickets_index create_jobs create_jobs_ready_index add_trace_context : Ddl
  create_audit_log create_audit_ts_index create_audit_user_index : Ddl
  replace_notify_jobs drop_jobs_notify create_jobs_notify : Ddl

-- Which of the objects that the migrations name the database has.
pub record Catalog : Type 0 where
  pub tickets : Bool
  pub tickets_index : Bool
  pub jobs : Bool
  pub jobs_ready_index : Bool
  pub trace_context : Bool
  pub audit_log : Bool
  pub audit_ts_index : Bool
  pub audit_user_index : Bool
  pub notify_jobs : Bool
  pub jobs_notify : Bool

-- The first forty characters of a statement: `%.40s`.
unfoldable pub sql_head : Ddl → Bytes
sql_head create_tickets = str "CREATE TABLE IF NOT EXISTS tickets (\n   "
sql_head create_tickets_index = str "CREATE INDEX IF NOT EXISTS tickets_statu"
sql_head create_jobs = str "CREATE TABLE IF NOT EXISTS jobs (\n      "
sql_head create_jobs_ready_index = str "CREATE INDEX IF NOT EXISTS jobs_ready_id"
sql_head add_trace_context = str "ALTER TABLE jobs ADD COLUMN IF NOT EXIST"
sql_head create_audit_log = str "CREATE TABLE IF NOT EXISTS audit_log (\n "
sql_head create_audit_ts_index = str "CREATE INDEX IF NOT EXISTS audit_log_ts_"
sql_head create_audit_user_index = str "CREATE INDEX IF NOT EXISTS audit_log_use"
sql_head replace_notify_jobs = str "CREATE OR REPLACE FUNCTION notify_jobs()"
sql_head drop_jobs_notify = str "DROP TRIGGER IF EXISTS jobs_notify ON jo"
sql_head create_jobs_notify = str "CREATE TRIGGER jobs_notify\n        AFTER"

unfoldable pub migrations : List Ddl
migrations =
    create_tickets ∷ create_tickets_index ∷ create_jobs ∷ create_jobs_ready_index
    ∷ add_trace_context ∷ create_audit_log ∷ create_audit_ts_index ∷ create_audit_user_index
    ∷ replace_notify_jobs ∷ drop_jobs_notify ∷ create_jobs_notify ∷ []

-- A statement on a table that is missing.
abbrev pub on_table : Bytes → Bool → Catalog → Result Catalog
on_table name present c =
    if present
    then ok c
    else err
        (driver (str "ERROR: relation \"" ++ (name ++ str "\" does not exist (SQLSTATE 42P01)")))

abbrev pub trigger_exists : Error
trigger_exists =
    driver
      (str "ERROR: trigger \"jobs_notify\" for relation \"jobs\" already exists (SQLSTATE 42710)")

-- CREATE TRIGGER, which has no IF NOT EXISTS.
abbrev pub created_trigger : Bool → Bool → Catalog → Result Catalog
created_trigger callable taken c =
    if taken
    then err trigger_exists
    else if callable
    then ok (record c { jobs_notify = true })
    else err (driver (str "ERROR: function notify_jobs() does not exist (SQLSTATE 42883)"))

abbrev pub and_catalog : Result Catalog → (Catalog → Result Catalog) → Result Catalog
and_catalog (ok c) f = f c
and_catalog (err e) f = err e

-- What a statement does when it is run.
unfoldable pub run_ddl : Ddl → Catalog → Result Catalog
run_ddl create_tickets c = ok (record c { tickets = true })
run_ddl create_tickets_index c =
    on_table (str "tickets") c.tickets (record c { tickets_index = true })
run_ddl create_jobs c = ok (record c { jobs = true })
run_ddl create_jobs_ready_index c =
    on_table (str "jobs") c.jobs (record c { jobs_ready_index = true })
run_ddl add_trace_context c = on_table (str "jobs") c.jobs (record c { trace_context = true })
run_ddl create_audit_log c = ok (record c { audit_log = true })
run_ddl create_audit_ts_index c =
    on_table (str "audit_log") c.audit_log (record c { audit_ts_index = true })
run_ddl create_audit_user_index c =
    on_table (str "audit_log") c.audit_log (record c { audit_user_index = true })
run_ddl replace_notify_jobs c = ok (record c { notify_jobs = true })
run_ddl drop_jobs_notify c = ok (record c { jobs_notify = false })
run_ddl create_jobs_notify c =
    and_catalog (on_table (str "jobs") c.jobs c) (created_trigger c.notify_jobs c.jobs_notify)

-- What is left of a catalog after a statement that fails.
abbrev pub catalog_or : Catalog → Result Catalog → Catalog
catalog_or c (ok d) = d
catalog_or c (err e) = c

abbrev pub settled_ddl : Catalog → Result Catalog → Result (Unit {0}) × Catalog
settled_ddl c (ok d) = (ok tt, d)
settled_ddl c (err e) = (err e, c)

-- pool.Exec
abbrev pub exec_ddl : Reply → Ddl → Catalog → Result (Unit {0}) × Catalog
exec_ddl answered s c = settled_ddl c (run_ddl s c)
exec_ddl (refused t) s c = (err (driver t), c)
exec_ddl (lost t) s c = (err (driver t), catalog_or c (run_ddl s c))

unfoldable pub migration_failed : Ddl → Error → Error
unfolding sql_head
migration_failed s e = wrapped (str "migration failed (" ++ (sql_head s ++ str "...): ")) e

-- The loop goes on, or returns the error of the statement.
abbrev pub and_migrated :
    Ddl
    → Result (Unit {0}) × Catalog
    → (Catalog → Result (Unit {0}) × Catalog)
    → Result (Unit {0}) × Catalog
and_migrated s (ok u, d) rest = rest d
and_migrated s (err e, d) rest = (err (migration_failed s e), d)

-- The loop of Migrate over the statements that are left; the next call is the n-th.
unfoldable pub migrate_from : Pg → List Ddl → ℕ → Catalog → Result (Unit {0}) × Catalog
unfolding run_ddl migration_failed
migrate_from pg [] n c = (ok tt, c)
migrate_from pg (s ∷ ss) n c =
    and_migrated s (exec_ddl (pg.reply n) s c) (λ d. migrate_from pg ss (suc n) d)

unfoldable pub migrate : Pg → ℕ → Catalog → Result (Unit {0}) × Catalog
unfolding migrate_from migrations
migrate pg n c = migrate_from pg migrations n c
