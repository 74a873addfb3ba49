-- ===== src/Boot/WorkerRun/Exit.antt =====
-- The end of run of cmd/worker/main.go after a signal.
use projet_etude_app_demo.Prelude.{◌≡◌, ◌⊎◌, refl, sym, subst, inl, inr, Bool, true, false}
use projet_etude_app_demo.Metrics.{Span}
use projet_etude_app_demo.Store.Exec.{Result, Pg, World}
use projet_etude_app_demo.Store.Trace.{Otel}
use projet_etude_app_demo.Store.Jobs.Workers.{Inv}
use projet_etude_app_demo.Worker.{Net, Worker}
use projet_etude_app_demo.Worker.Steps.{idle}
use projet_etude_app_demo.Worker.Loop.{Loop, LoopPath, here, next, any, run_start}
use projet_etude_app_demo.Worker.Loop.Shutdown.{is_own, cancelled_run_ends}
use projet_etude_app_demo.Boot.WorkerRun.{
  Phase, serving, shutting_down, closing, exited, WorkerProcess, ProcessEvent, of_loop, stops,
  serves_no_more, shuts_down, closes, loop_step, serves_no_more_step, stops_step, ends_step,
  shuts_down_step, closes_step, ProcessPath, stay, go,
}

abbrev pub anything : ProcessEvent → Bool
anything e = true

-- Every event but a tick, a notification, a signal and a failure of the metrics server.
abbrev pub is_own_process : ProcessEvent → Bool
is_own_process (of_loop e) = is_own e
is_own_process serves_no_more = false
is_own_process _ = true

-- The process when its goroutines are started.
abbrev pub process_start : World → Bool → WorkerProcess
process_start w cancelled = record { loop = run_start w cancelled; phase = serving }

module _ (pg : Pg) (otel : Otel) (net : Net) (worker : Worker) (span : Span) where
  loop_path :
      {p q : WorkerProcess}
      → ProcessPath pg otel net worker span anything p q
      → LoopPath pg otel net worker span any p.loop q.loop
  loop_path stay = here
  loop_path (go f k path (loop_step p e l st)) = next e refl (loop_path path) st
  loop_path (go f k path (serves_no_more_step p e s)) = loop_path path
  loop_path (go f k path (stops_step p s c)) = loop_path path
  loop_path (go f k path (ends_step p r s c)) = loop_path path
  loop_path (go f k path (shuts_down_step p s)) = loop_path path
  loop_path (go f k path (closes_step p r s free)) = loop_path path

  -- The main goroutine goes on to its Close, or has returned.
  closing_path :
      (ph : Phase) (p : WorkerProcess)
      → p.phase ≡ ph
      → p.loop.cancelled ≡ true
      → (q : WorkerProcess) × (r : Result (Unit {0})) × ProcessPath pg otel net worker span
          is_own_process p q
        × (q.loop ≡ p.loop)
        × ((q.phase ≡ closing r) ⊎ (q.phase ≡ exited r))
  closing_path serving p s c = (
    _,
    _,
    go shuts_down refl (go stops refl stay (stops_step p s c)) (shuts_down_step _ refl),
    refl,
    inl refl,
  )
  closing_path shutting_down p s c =
      (_, _, go shuts_down refl stay (shuts_down_step p s), refl, inl refl)
  closing_path (closing r) p s c = (p, r, stay, refl, inl s)
  closing_path (exited r) p s c = (p, r, stay, refl, inr s)

  after_loop :
      {p q : WorkerProcess} {l : Loop}
      → ProcessPath pg otel net worker span is_own_process p q
      → LoopPath pg otel net worker span is_own q.loop l
      → ProcessPath pg otel net worker span is_own_process p (record q { loop = l })
  after_loop path here = path
  after_loop path (next e own before st) =
      go (of_loop e) own (after_loop path before) (loop_step _ e _ st)

  -- In every state that the worker process reaches from a table that satisfies the invariant of
  -- the fleet, once its context is cancelled, it has a run to the return of run by its own steps
  -- alone, with no tick, no notification and no failure of the metrics server: the drain that is
  -- going on ends, the listener returns, the connection is released and the pool closes.
  pub signalled_worker_exits :
      (w : World) (cancelled : Bool) (p : WorkerProcess)
      → Inv (idle w.db)
      → ProcessPath pg otel net worker span anything (process_start w cancelled) p
      → p.loop.cancelled ≡ true
      → (q : WorkerProcess) × (r : Result (Unit {0})) × ProcessPath pg otel net worker span
          is_own_process p q
        × (q.phase ≡ exited r)
  signalled_worker_exits w cancelled p v path c =
      let (l, o, own, stops_with, free) =
        cancelled_run_ends pg otel net worker span w cancelled p.loop v (loop_path path) c in
      let (q, r, before, same, phase) = closing_path p.phase p refl c in
      elim phase [
        | inl closes_with ↦ (
          _,
          r,
          go closes refl
              (after_loop before
                (subst (λ s. LoopPath pg otel net worker span is_own s l) (sym same) own))
              (closes_step _ r closes_with free),
          refl,
        )
        | inr has_exited ↦ (q, r, before, has_exited)
      ]
