-- ===== src/Boot/Purge.antt =====
-- run of cmd/audit-purge/main.go from its start: Open of internal/dbutil/dbutil.go, and the deletion.
use projet_etude_app_demo.Prelude.{
  ℕ, ◌≡◌, refl, ◌⊎◌, inl, inr, Bool-cases, Bytes, str, is_empty, Option, none, some, if◌then◌else◌,
}
use projet_etude_app_demo.Metrics.{Span}
use projet_etude_app_demo.Store.Exec.{Error, Result, err, Pg, World}
use projet_etude_app_demo.AuditPurge.{run}
use projet_etude_app_demo.Boot.Open.{
  Driver, Opened, opened, rejected, gave_up, open_pool, KeepsTime, open_pool-IsPunctual,
}

-- What follows Open, whose error is returned as it is.
abbrev pub purge_opened :
    Pg → Span → (Bytes → Bytes) → Option Opened → World → Option (Result ℕ × World)
purge_opened pg span env none w = none
purge_opened pg span env (some (opened cfg at)) w = some (run pg span env w)
purge_opened pg span env (some (rejected e)) w = some (err e, w)
purge_opened pg span env (some (gave_up e at)) w = some (err e, w)

-- `none` if the fuel of Open runs out.
unfoldable pub purge_run : Driver → Pg → Span → (Bytes → Bytes) → World → Option (Result ℕ × World)
unfolding open_pool
purge_run d pg span env w =
    if is_empty (env (str "DATABASE_URL"))
    then some (run pg span env w)
    else purge_opened pg span env (open_pool d (env (str "DATABASE_URL"))) w

-- With a driver that keeps time the command ends: it has run the deletion, or it returns an error and
-- the world is as it was.
purge_run_total :
    (d : Driver) (pg : Pg) (span : Span) (env : Bytes → Bytes) (w : World)
    → KeepsTime d
    → (purge_run d pg span env w ≡ some (run pg span env w))
      ⊎ ((e : Error) × (purge_run d pg span env w ≡ some (err e, w)))
unfolding purge_run
purge_run_total d pg span env w time = elim (Bool-cases (is_empty (env (str "DATABASE_URL")))) [
  | inl unset ↦ inl (rw (unset, purge_run) refl)
  | inr given ↦
      let (o, ran, _) = open_pool-IsPunctual d (env (str "DATABASE_URL")) time in
      elim (after o) [
        | inl purged ↦ inl (rw (given, ran, purge_run) purged)
        | inr (e, failed) ↦ inr (e, rw (given, ran, purge_run) failed)
      ]
]
  where
    after :
        (o : Opened)
        → (purge_opened pg span env (some o) w ≡ some (run pg span env w))
          ⊎ ((e : Error) × (purge_opened pg span env (some o) w ≡ some (err e, w)))
    after (opened cfg at) = inl refl
    after (rejected e) = inr (e, refl)
    after (gave_up e at) = inr (e, refl)
