-- ===== src/Examples/Loops.antt =====
-- The worker in its loop, and its process.
use projet_etude_app_demo.Prelude.{◌≡◌, ◌≢◌, ◌⊎◌, refl, inl, str, true, false, none, some, arith}
use projet_etude_app_demo.Store.Exec.{Error, message, wrapped, Result, ok, err, World}
use projet_etude_app_demo.Store.Jobs.Workers.Invariant.{start-Inv}
use projet_etude_app_demo.Worker.{drain}
use projet_etude_app_demo.Worker.Termination.{drain_total}
use projet_etude_app_demo.Worker.Loop.{
  subscribing, starting, draining, forwarding, held, Loop, acquires, subscribes, starts, receives,
  cancels, after_acquire, after_listen, after_start, acquiring_step, subscribing_step,
  starting_step, receive_step, cancel_step, LoopPath, here, next, any, run_start,
}
use projet_etude_app_demo.Worker.Loop.Safety.{is_running, is_stopped, release_order}
use projet_etude_app_demo.Worker.Loop.Wakeup.{IsPending, is_wake, notification_wakes}
use projet_etude_app_demo.Boot.WorkerRun.{
  serving, closing, exited, WorkerProcess, of_loop, serves_no_more, loop_step, ProcessStep,
  ProcessPath, stay, go,
}
use projet_etude_app_demo.Boot.WorkerRun.Hang.{metrics_failure_hangs}
use projet_etude_app_demo.Boot.WorkerRun.Exit.{
  is_own_process, process_start, signalled_worker_exits,
}
use projet_etude_app_demo.Examples.{pg, otel, net, worker, world}

first_drain : (w : World) × (drain 6 pg otel net worker none world ≡ some w)
first_drain = drain_total pg otel net worker none 6 world start-Inv (omega arith)

abbrev connected : Loop
connected = record (run_start world false) { main = subscribing; conn = held }

abbrev listened : Loop
listened = record connected { main = starting }

abbrev looping : Loop
looping = after_start pg none first_drain.0 listened

abbrev notified : Loop
notified = record looping { listener = forwarding }

looping_path : LoopPath pg otel net worker none any (run_start world false) looping
unfolding after_acquire after_listen after_start
looping_path =
    next starts refl
      (next subscribes refl
        (next acquires refl here (acquiring_step (run_start world false) (ok tt) refl))
        (subscribing_step connected (ok tt) refl))
      (starting_step listened 6 first_drain.0 refl first_drain.1)

notified_path : LoopPath pg otel net worker none any (run_start world false) notified
unfolding after_start
notified_path = next receives refl looping_path (receive_step looping refl)

release_order_example :
    ((notified.conn ≡ held) ⊎ (is_running notified.listener ≡ false))
    × ((is_stopped notified.main ≡ false) ⊎ (notified.conn ≢ held))
release_order_example = release_order pg otel net worker none world false notified notified_path

notification_wakes_example :
    IsPending notified
    × ((u : Loop) × LoopPath pg otel net worker none is_wake notified u
        × (u.main ≡ draining)
        × (u.world ≡ notified.world))
unfolding after_start
notification_wakes_example =
    notification_wakes pg otel net worker none world false notified notified notified_path
      (inl refl) here refl

abbrev cancelled : WorkerProcess
cancelled = record { loop = record (run_start world false) { cancelled = true }; phase = serving }

signalled_worker_exits_example :
    (q : WorkerProcess) × (r : Result (Unit {0})) × ProcessPath pg otel net worker none
      is_own_process cancelled q
    × (q.phase ≡ exited r)
signalled_worker_exits_example =
    signalled_worker_exits pg otel net worker none world false cancelled start-Inv
      (go (of_loop cancels) refl stay
        (loop_step (process_start world false) cancels _ (cancel_step (run_start world false))))
      refl

abbrev bind_error : Error
bind_error = message (str "listen tcp :8081: bind: address already in use")

abbrev unserved : WorkerProcess
unserved = record {
  loop = looping;
  phase = closing (err (wrapped (str "metrics server: ") bind_error));
}

metrics_failure_hangs_example :
    ProcessStep pg otel net worker none serves_no_more
      (record { loop = looping; phase = serving })
      unserved
    × (unserved.phase ≡ closing (err (wrapped (str "metrics server: ") bind_error)))
unfolding after_start
metrics_failure_hangs_example =
    metrics_failure_hangs pg otel net worker none (record { loop = looping; phase = serving })
      unserved bind_error refl (record { connected = refl; uncancelled = refl; running = inl refl })
      stay
