-- ===== src/AuditPurge.antt =====
-- cmd/audit-purge/main.go: the retention that the environment sets, and the deletion.
pub mod Retention
use projet_etude_app_demo.Prelude.{
  ℕ, ◌*◌, ◌%◌, ltb, ◌==◌, ℤ, pos, negsuc, to_int64, word_mod, Bytes, str, is_empty, atoi, NumError,
  Bool, Option, none, some, if◌then◌else◌,
}
use projet_etude_app_demo.Metrics.{Span}
use projet_etude_app_demo.Store.Exec.{message, Pg, Exec, raise}
use projet_etude_app_demo.Store.Audit.{purge_audit_older_than}

abbrev pub default_days : ℕ
default_days = 90

-- `err == nil && n > 0`
abbrev pub positive_or_default : ℤ × Option NumError → ℕ
positive_or_default (n, some e) = default_days
positive_or_default (negsuc n, none) = default_days
positive_or_default (pos n, none) = if n == 0 then default_days else n

unfoldable pub retention_days : Bytes → ℕ
retention_days v = if is_empty v then default_days else positive_or_default (atoi v)

-- time.Hour, in nanoseconds.
abbrev pub hour : ℕ
hour = 3600000000000

-- time.Duration(days)*24*time.Hour: an int64, which wraps.
unfoldable pub retention : ℕ → ℤ
retention days = to_int64 (days * 24 % word_mod * hour % word_mod)

-- run, after the pool is open: the number of rows deleted. `env` is os.Getenv.
unfoldable pub run : Pg → Span → (Bytes → Bytes) → Exec ℕ
unfolding retention_days retention
run pg span env =
    if is_empty (env (str "DATABASE_URL"))
    then raise (message (str "DATABASE_URL is required"))
    else purge_audit_older_than pg span
        (retention (retention_days (env (str "AUDIT_RETENTION_DAYS"))))
