-- ===== src/Boot/WorkerRun/Hang.antt =====
-- The end of run of cmd/worker/main.go when the metrics server fails.
use projet_etude_app_demo.Prelude.{◌≡◌, refl, sym, ◌∙◌, ◌⊎◌, inl, inr, Bool, true, false, str}
use projet_etude_app_demo.Metrics.{Span}
use projet_etude_app_demo.Store.Exec.{Error, wrapped, Result, err, Pg}
use projet_etude_app_demo.Store.Trace.{Otel}
use projet_etude_app_demo.Worker.{Net, Worker}
use projet_etude_app_demo.Worker.Loop.{
  Main, acquiring, subscribing, starting, selecting, draining, joining, held, Loop, Event, cancels,
  LoopStep, acquiring_step, subscribing_step, starting_step, tick_step, take_step, publish_step,
  drain_step, return_step, join_step, receive_step, forward_step, fail_step, resume_step,
  other_step, cancel_step,
}
use projet_etude_app_demo.Boot.WorkerRun.{
  serving, closing, WorkerProcess, ProcessEvent, of_loop, serves_no_more, ProcessStep, loop_step,
  serves_no_more_step, stops_step, ends_step, shuts_down_step, closes_step, ProcessPath, stay, go,
}

-- Every event but the signal.
abbrev pub is_quiet : Event → Bool
is_quiet cancels = false
is_quiet _ = true

abbrev pub no_signal : ProcessEvent → Bool
no_signal (of_loop e) = is_quiet e
no_signal _ = true

-- A worker in its loop, which nobody has told to stop.
pub record IsBusy (l : Loop) : Type 0 where
  pub connected : l.conn ≡ held
  pub uncancelled : l.cancelled ≡ false
  pub running : (l.main ≡ selecting) ⊎ (l.main ≡ draining)

not_running :
    {m : Main} (n : Main)
    → m ≡ n
    → (n ≡ selecting → ⊥)
    → (n ≡ draining → ⊥)
    → (m ≡ selecting) ⊎ (m ≡ draining)
    → ⊥
not_running n e s d (inl h) = s (sym e ∙ h)
not_running n e s d (inr h) = d (sym e ∙ h)

not_cancelled : {b : Bool} → b ≡ true → b ≡ false → ⊥
not_cancelled h k = cc

module _ (pg : Pg) (otel : Otel) (net : Net) (worker : Worker) (span : Span) where
  LoopStep-IsBusy :
      {e : Event} {l m : Loop}
      → LoopStep pg otel net worker span e l m
      → is_quiet e ≡ true
      → IsBusy l
      → IsBusy m
  LoopStep-IsBusy (acquiring_step s r m) q b =
      absurd (not_running acquiring m (λ h. cc) (λ h. cc) b.running)
  LoopStep-IsBusy (subscribing_step s r m) q b =
      absurd (not_running subscribing m (λ h. cc) (λ h. cc) b.running)
  LoopStep-IsBusy (starting_step s fuel w m d) q b =
      absurd (not_running starting m (λ h. cc) (λ h. cc) b.running)
  LoopStep-IsBusy (tick_step s m) q b = record {
    connected = b.connected;
    uncancelled = b.uncancelled;
    running = inr refl;
  }
  LoopStep-IsBusy (take_step s m k) q b = record {
    connected = b.connected;
    uncancelled = b.uncancelled;
    running = inr refl;
  }
  LoopStep-IsBusy (publish_step s m) q b = record {
    connected = b.connected;
    uncancelled = b.uncancelled;
    running = b.running;
  }
  LoopStep-IsBusy (drain_step s fuel w m d) q b = record {
    connected = b.connected;
    uncancelled = b.uncancelled;
    running = inl refl;
  }
  LoopStep-IsBusy (return_step s m c) q b = absurd (not_cancelled c b.uncancelled)
  LoopStep-IsBusy (join_step s m l) q b =
      absurd (not_running joining m (λ h. cc) (λ h. cc) b.running)
  LoopStep-IsBusy (receive_step s l) q b = record {
    connected = b.connected;
    uncancelled = b.uncancelled;
    running = b.running;
  }
  LoopStep-IsBusy (forward_step s l) q b = record {
    connected = b.connected;
    uncancelled = b.uncancelled;
    running = b.running;
  }
  LoopStep-IsBusy (fail_step s k l) q b = record {
    connected = b.connected;
    uncancelled = b.uncancelled;
    running = b.running;
  }
  LoopStep-IsBusy (resume_step s l) q b = record {
    connected = b.connected;
    uncancelled = b.uncancelled;
    running = b.running;
  }
  LoopStep-IsBusy (other_step s db r) q b = record {
    connected = b.connected;
    uncancelled = b.uncancelled;
    running = b.running;
  }
  LoopStep-IsBusy (cancel_step s) q b = cc

  ProcessStep-IsStuck :
      {e : ProcessEvent} {p q : WorkerProcess} (r : Result (Unit {0}))
      → ProcessStep pg otel net worker span e p q
      → no_signal e ≡ true
      → (p.phase ≡ closing r) × IsBusy p.loop
      → (q.phase ≡ closing r) × IsBusy q.loop
  ProcessStep-IsStuck r (loop_step p e l st) k (c, b) = (c, LoopStep-IsBusy st k b)
  ProcessStep-IsStuck r (serves_no_more_step p e s) k (c, b) = cc
  ProcessStep-IsStuck r (stops_step p s d) k (c, b) = cc
  ProcessStep-IsStuck r (ends_step p o s d) k (c, b) = cc
  ProcessStep-IsStuck r (shuts_down_step p s) k (c, b) = cc
  ProcessStep-IsStuck r (closes_step p o s free) k (c, b) = absurd (free b.connected)

  -- If the metrics server fails while the worker is in its loop, holds its connection and is not
  -- cancelled, the main goroutine may go on to the deferred Close of the pool with the error of
  -- the server; and from there, in every state that the process reaches without a signal, it still
  -- stands in that Close.
  pub metrics_failure_hangs :
      (p q : WorkerProcess) (e : Error)
      → p.phase ≡ serving
      → IsBusy p.loop
      → ProcessPath pg otel net worker span no_signal
          (record p { phase = closing (err (wrapped (str "metrics server: ") e)) })
          q
      → ProcessStep pg otel net worker span serves_no_more p
          (record p { phase = closing (err (wrapped (str "metrics server: ") e)) })
        × (q.phase ≡ closing (err (wrapped (str "metrics server: ") e)))
  metrics_failure_hangs p q e s b path = (serves_no_more_step p e s, (stuck path).0)
    where
      stuck :
          {u : WorkerProcess}
          → ProcessPath pg otel net worker span no_signal
              (record p { phase = closing (err (wrapped (str "metrics server: ") e)) })
              u
          → (u.phase ≡ closing (err (wrapped (str "metrics server: ") e))) × IsBusy u.loop
      stuck stay = (refl, b)
      stuck (go f k before st) = ProcessStep-IsStuck _ st k (stuck before)
