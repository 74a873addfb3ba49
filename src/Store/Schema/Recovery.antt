-- ===== src/Store/Schema/Recovery.antt =====
-- Migrate of internal/store/store.go after a run that was cut short.
use projet_etude_app_demo.Prelude.{true, List, [], ◌∷◌}
use projet_etude_app_demo.Store.Exec.{Result, ok}
use projet_etude_app_demo.Store.Schema.{Ddl, Catalog, and_catalog, run_ddl}

-- The catalog with every object that the migrations name.
abbrev pub complete : Catalog
complete = record {
  tickets = true;
  tickets_index = true;
  jobs = true;
  jobs_ready_index = true;
  trace_context = true;
  audit_log = true;
  audit_ts_index = true;
  audit_user_index = true;
  notify_jobs = true;
  jobs_notify = true;
}

-- Statements that are all run, one after the other.
unfoldable pub run_all : List Ddl → Catalog → Result Catalog
unfolding run_ddl
run_all [] c = ok c
run_all (s ∷ ss) c = and_catalog (run_ddl s c) (run_all ss)
