-- ===== src/Boot/WorkerRun.antt =====
-- run of cmd/worker/main.go: its start, its probes, and its goroutines, which are the main one, w.Run with
-- its listener, and the metrics server.
pub mod Start
pub mod Hang
pub mod Exit
use projet_etude_app_demo.Prelude.{
  ℕ, ◌≡◌, Bool, true, false, Bytes, str, is_empty, List, [], Option, none, some, if◌then◌else◌,
}
use projet_etude_app_demo.Metrics.{Span}
use projet_etude_app_demo.Auth.{or_default}
use projet_etude_app_demo.Store.Exec.{Error, wrapped, error_text, Result, ok, err, Pg, World, send}
use projet_etude_app_demo.Store.Trace.{Otel}
use projet_etude_app_demo.Http.Exchange.{
  Exchange, Handler, returned, text, write, http_error, with_world,
}
use projet_etude_app_demo.Http.Handlers.{ping_statement}
use projet_etude_app_demo.Boot.Open.{open_pool}
use projet_etude_app_demo.Boot.Api.{Host, Run, Site, prepared, run_opened, default_dsn}
use projet_etude_app_demo.Worker.{Net, Worker}
use projet_etude_app_demo.Worker.Loop.{Main, stopped, Conn, held, Loop, Event, cancels, LoopStep}

-- The address of the metrics server.
unfoldable pub metrics_addr : (Bytes → Bytes) → Bytes
metrics_addr getenv = or_default (getenv (str "METRICS_ADDR")) (str ":8081")

-- The worker's own GET /healthz and GET /readyz.
unfoldable pub worker_healthz : Handler
unfolding write
worker_healthz r x = returned (write (text (str "ok\n")) x)

abbrev pub show_worker_ready : Result (Unit {0}) × World → Exchange → Exchange
show_worker_ready (err e, w) x = http_error (error_text e) 503 (with_world w x)
show_worker_ready (ok u, w) x = write (text (str "ready\n")) (with_world w x)

unfoldable pub worker_readyz : Pg → Handler
unfolding send write http_error
worker_readyz pg r x = returned (show_worker_ready (send pg ping_statement x.world) x)

-- Up to the start of the goroutines, for what is run from there on and has returned.
unfoldable pub worker_run : Host → Run → Site → Option (Result (Unit {0}) × Site)
unfolding prepared open_pool
worker_run h body s =
    run_opened (λ o. prepared (str "projet-etude-app-demo-worker") h o body)
      (open_pool h.driver (or_default (h.sdk.getenv (str "DATABASE_URL")) default_dsn)) s

-- The main goroutine: in the select, before srv.Shutdown, in the deferred Close of the pool with the
-- result of run, and after run has returned.
pub data Phase : Type 0 where
  serving shutting_down : Phase
  closing exited : Result (Unit {0}) → Phase

pub record WorkerProcess : Type 0 where
  pub loop : Loop
  pub phase : Phase

-- A step of w.Run or of its listener, or the signal, which cancels the context; or one of the main
-- goroutine.
pub data ProcessEvent : Type 0 where
  of_loop : Event → ProcessEvent
  stops serves_no_more ends shuts_down closes : ProcessEvent

module _ (pg : Pg) (otel : Otel) (net : Net) (worker : Worker) (span : Span) where
  -- pgxpool's Close waits for every connection that was acquired.
  pub data ProcessStep : ProcessEvent → WorkerProcess → WorkerProcess → Type 0 where
    loop_step :
        (p : WorkerProcess) (e : Event) (l : Loop)
        → LoopStep pg otel net worker span e p.loop l
        → ProcessStep (of_loop e) p (record p { loop = l })
    serves_no_more_step :
        (p : WorkerProcess) (e : Error)
        → p.phase ≡ serving
        → ProcessStep serves_no_more p
            (record p { phase = closing (err (wrapped (str "metrics server: ") e)) })
    stops_step :
        (p : WorkerProcess)
        → p.phase ≡ serving
        → p.loop.cancelled ≡ true
        → ProcessStep stops p (record p { phase = shutting_down })
    ends_step :
        (p : WorkerProcess) (r : Option Error)
        → p.phase ≡ serving
        → p.loop.main ≡ stopped r
        → ProcessStep ends p (record p { phase = shutting_down })
    shuts_down_step :
        (p : WorkerProcess)
        → p.phase ≡ shutting_down
        → ProcessStep shuts_down p (record p { phase = closing (ok tt) })
    closes_step :
        (p : WorkerProcess) (r : Result (Unit {0}))
        → p.phase ≡ closing r
        → (p.loop.conn ≡ held → ⊥)
        → ProcessStep closes p (record p { phase = exited r })

  pub data ProcessPath (allowed : ProcessEvent → Bool)
      : WorkerProcess → WorkerProcess → Type 0 where
    stay : {p : WorkerProcess} → ProcessPath allowed p p
    go :
        {p q r : WorkerProcess} (e : ProcessEvent)
        → allowed e ≡ true
        → ProcessPath allowed p q
        → ProcessStep e q r
        → ProcessPath allowed p r
