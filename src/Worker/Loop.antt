-- ===== src/Worker/Loop.antt =====
-- Run and listenLoop of internal/jobworker/worker.go as steps of two goroutines that share a channel
-- of capacity 1. pgx's connection, the tickers and the context's cancellation decide which step is next.
pub mod Safety
pub mod Wakeup
pub mod Shutdown
use projet_etude_app_demo.Prelude.{
  ℕ, ◌≡◌, Bool, true, false, ◌||◌, Bytes, str, Option, none, some, if◌then◌else◌,
}
use projet_etude_app_demo.Metrics.{Span}
use projet_etude_app_demo.Store.Exec.{Error, wrapped, Result, ok, err, Pg, World}
use projet_etude_app_demo.Store.Db.{Db}
use projet_etude_app_demo.Store.Trace.{Otel}
use projet_etude_app_demo.Store.Jobs.Workers.{Reach}
use projet_etude_app_demo.Worker.Steps.{idle}
use projet_etude_app_demo.Worker.{Net, Worker, publish_depth, drain}

-- Where Run stands: before Pool.Acquire, before LISTEN, before the first drain, in its select, in a
-- drain, at the deferred wait for listenerDone, and after its return with an error, if any.
pub data Main : Type 0 where
  acquiring subscribing starting selecting draining joining : Main
  stopped : Option Error → Main

-- listenLoop: not started, in WaitForNotification, with a notification that it has yet to pass on, in
-- its sleep of a second, and returned, after which listenerDone is closed.
pub data Listener : Type 0 where
  unborn waiting forwarding pausing finished : Listener

-- The connection that Run acquires.
pub data Conn : Type 0 where
  never held released : Conn

-- `buffered`: notifCh holds a value. `cancelled`: the context is done.
pub record Loop : Type 0 where
  pub world : World
  pub main : Main
  pub listener : Listener
  pub conn : Conn
  pub buffered : Bool
  pub cancelled : Bool

unfoldable pub after_acquire : Result (Unit {0}) → Loop → Loop
after_acquire (ok u) s = record s { main = subscribing; conn = held }
after_acquire (err e) s = record s {
  main = stopped (some (wrapped (str "acquire listen conn: ") e));
}

unfoldable pub after_listen : Result (Unit {0}) → Loop → Loop
after_listen (ok u) s = record s { main = starting }
after_listen (err e) s = record s {
  main = stopped (some (wrapped (str "LISTEN: ") e));
  conn = released;
}

-- After the first drain: publishDepth, and the listener is started.
unfoldable pub after_start : Pg → Span → World → Loop → Loop
after_start pg span w s = record s {
  world = publish_depth pg span w;
  main = selecting;
  listener = waiting;
}

-- The test on an error of WaitForNotification: whether it is context.Canceled, or the context is done.
unfoldable pub after_wait_error : Bool → Bool → Listener
after_wait_error is_canceled cancelled = if is_canceled || cancelled then finished else pausing

-- The select of listenLoop: a send that would block is dropped.
unfoldable pub offer : Bool → Bool
offer false = true
offer true = true

-- What happens: the start of Run, the cases of its select, the ends of a drain and of the deferred
-- wait; what the listener does; the cancellation; and what other
-- processes do to the tables meanwhile.
pub data Event : Type 0 where
  acquires subscribes starts ticks takes publishes drains returns joins : Event
  receives forwards fails resumes cancels others : Event

module _ (pg : Pg) (otel : Otel) (net : Net) (worker : Worker) (span : Span) where
  pub data LoopStep : Event → Loop → Loop → Type 0 where
    acquiring_step :
        (s : Loop) (r : Result (Unit {0}))
        → s.main ≡ acquiring
        → LoopStep acquires s (after_acquire r s)
    subscribing_step :
        (s : Loop) (r : Result (Unit {0}))
        → s.main ≡ subscribing
        → LoopStep subscribes s (after_listen r s)
    starting_step :
        (s : Loop) (fuel : ℕ) (w : World)
        → s.main ≡ starting
        → drain fuel pg otel net worker span s.world ≡ some w
        → LoopStep starts s (after_start pg span w s)
    tick_step : (s : Loop) → s.main ≡ selecting → LoopStep ticks s (record s { main = draining })
    take_step :
        (s : Loop)
        → s.main ≡ selecting
        → s.buffered ≡ true
        → LoopStep takes s (record s { main = draining; buffered = false })
    publish_step :
        (s : Loop)
        → s.main ≡ selecting
        → LoopStep publishes s (record s { world = publish_depth pg span s.world })
    drain_step :
        (s : Loop) (fuel : ℕ) (w : World)
        → s.main ≡ draining
        → drain fuel pg otel net worker span s.world ≡ some w
        → LoopStep drains s (record s { world = w; main = selecting })
    return_step :
        (s : Loop)
        → s.main ≡ selecting
        → s.cancelled ≡ true
        → LoopStep returns s (record s { main = joining })
    join_step :
        (s : Loop)
        → s.main ≡ joining
        → s.listener ≡ finished
        → LoopStep joins s (record s { main = stopped none; conn = released })
    receive_step :
        (s : Loop) → s.listener ≡ waiting → LoopStep receives s (record s { listener = forwarding })
    forward_step :
        (s : Loop)
        → s.listener ≡ forwarding
        → LoopStep forwards s (record s { listener = waiting; buffered = offer s.buffered })
    fail_step :
        (s : Loop) (is_canceled : Bool)
        → s.listener ≡ waiting
        → LoopStep fails s (record s { listener = after_wait_error is_canceled s.cancelled })
    resume_step :
        (s : Loop) → s.listener ≡ pausing → LoopStep resumes s (record s { listener = waiting })
    other_step :
        (s : Loop) (db : Db)
        → Reach pg (idle s.world.db) (idle db)
        → LoopStep others s (record s { world = record s.world { db = db } })
    cancel_step : (s : Loop) → LoopStep cancels s (record s { cancelled = true })

  -- A run in which every event passes a test.
  pub data LoopPath (allowed : Event → Bool) : Loop → Loop → Type 0 where
    here : {s : Loop} → LoopPath allowed s s
    next :
        {s t u : Loop} (e : Event)
        → allowed e ≡ true
        → LoopPath allowed s t
        → LoopStep e t u
        → LoopPath allowed s u

abbrev pub any : Event → Bool
any e = true

-- Run as it is called.
abbrev pub run_start : World → Bool → Loop
run_start w cancelled = record {
  world = w;
  main = acquiring;
  listener = unborn;
  conn = never;
  buffered = false;
  cancelled = cancelled;
}
