-- ===== src/Boot/WorkerRun/Start.antt =====
-- What run of cmd/worker/main.go has given back when it returns.
use projet_etude_app_demo.Prelude.{◌≡◌, refl, str, List, some}
use projet_etude_app_demo.Auth.{or_default}
use projet_etude_app_demo.Store.Exec.{Result}
use projet_etude_app_demo.Boot.Open.{KeepsTime, open_pool-IsPunctual}
use projet_etude_app_demo.Boot.Api.{Host, Run, Site, Resource, prepared, default_dsn}
use projet_etude_app_demo.Boot.Api.Releases.{IsNeutral, held_after, prepared-IsNeutral}
use projet_etude_app_demo.Boot.WorkerRun.{worker_run}

-- With a driver that keeps time, and a rest of run that gives back what it takes, run returns and has
-- released what it acquired, in the reverse order.
worker_run_outcome :
    (h : Host) (body : Run) (s : Site) (rs : List Resource)
    → KeepsTime h.driver
    → IsNeutral body
    → held_after s.log ≡ some rs
    → (r : Result (Unit {0})) × (t : Site) × (worker_run h body s ≡ some (r, t))
      × (held_after t.log ≡ some rs)
unfolding worker_run
worker_run_outcome h body s rs time neutral k =
    let name = str "projet-etude-app-demo-worker" in
    let (o, ran, _) =
      open_pool-IsPunctual h.driver (or_default (h.sdk.getenv (str "DATABASE_URL")) default_dsn)
        time in
    (
      (prepared name h o body s).0,
      (prepared name h o body s).1,
      rw ran refl,
      prepared-IsNeutral name h o body neutral s rs k,
    )
