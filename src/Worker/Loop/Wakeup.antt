-- ===== src/Worker/Loop/Wakeup.antt =====
-- A notification that listenLoop of internal/jobworker/worker.go has received, and the drain that it asks for.
use projet_etude_app_demo.Prelude.{◌≡◌, refl, ◌⊎◌, inl, inr, Bool, true, false, arith}
use projet_etude_app_demo.Metrics.{Span}
use projet_etude_app_demo.Store.Exec.{ok, err, Pg, World}
use projet_etude_app_demo.Store.Trace.{Otel}
use projet_etude_app_demo.Worker.{Net, Worker}
use projet_etude_app_demo.Worker.Loop.{
  starting, selecting, draining, Listener, forwarding, Conn, Loop, after_acquire, after_listen,
  after_start, offer, Event, takes, forwards, LoopStep, acquiring_step, subscribing_step,
  starting_step, tick_step, take_step, publish_step, drain_step, return_step, join_step,
  receive_step, forward_step, fail_step, resume_step, other_step, cancel_step, LoopPath, here, next,
  any, run_start,
}
use projet_etude_app_demo.Worker.Loop.Safety.{is_ordered, is_unborn, IsOrdered, LoopPath-IsOrdered}

-- The listener is about to offer to notifCh, or notifCh holds a value.
abbrev pub IsPending : Loop → Type 0
IsPending s = (s.listener ≡ forwarding) ⊎ (s.buffered ≡ true)

-- Every event but a receive from notifCh.
abbrev pub no_take : Event → Bool
no_take takes = false
no_take _ = true

-- A send to notifCh, and a receive.
abbrev pub is_wake : Event → Bool
is_wake takes = true
is_wake forwards = true
is_wake _ = false

offer-true : (b : Bool) → offer b ≡ true
unfolding offer
offer-true b = ground (arith)

starting-pending : (l : Listener) (c : Conn) → is_ordered starting l c ≡ true → l ≡ forwarding → ⊥
unfolding is_ordered is_unborn
starting-pending l c o f = ground (arith, o, f)

module _ (pg : Pg) (otel : Otel) (net : Net) (worker : Worker) (span : Span) where
  LoopStep-IsPending :
      {e : Event} {s t : Loop}
      → LoopStep pg otel net worker span e s t
      → no_take e ≡ true
      → IsOrdered s
      → IsPending s
      → IsPending t
  unfolding after_acquire after_listen after_start
  LoopStep-IsPending (acquiring_step s (ok u) m) k o p = p
  LoopStep-IsPending (acquiring_step s (err e) m) k o p = p
  LoopStep-IsPending (subscribing_step s (ok u) m) k o p = p
  LoopStep-IsPending (subscribing_step s (err e) m) k o p = p
  LoopStep-IsPending (starting_step s fuel w m d) k o (inl f) =
      absurd (starting-pending s.listener s.conn (rw m at o) f)
  LoopStep-IsPending (starting_step s fuel w m d) k o (inr b) = inr b
  LoopStep-IsPending (tick_step s m) k o p = p
  LoopStep-IsPending (take_step s m b) k o p = cc
  LoopStep-IsPending (publish_step s m) k o p = p
  LoopStep-IsPending (drain_step s fuel w m d) k o p = p
  LoopStep-IsPending (return_step s m c) k o p = p
  LoopStep-IsPending (join_step s m l) k o p = p
  LoopStep-IsPending (receive_step s l) k o p = inl refl
  LoopStep-IsPending (forward_step s l) k o p = inr (offer-true s.buffered)
  LoopStep-IsPending (fail_step s canceled l) k o (inl f) = cc
  LoopStep-IsPending (fail_step s canceled l) k o (inr b) = inr b
  LoopStep-IsPending (resume_step s l) k o (inl f) = cc
  LoopStep-IsPending (resume_step s l) k o (inr b) = inr b
  LoopStep-IsPending (other_step s db r) k o p = p
  LoopStep-IsPending (cancel_step s) k o p = p

  LoopPath-IsPending :
      {s t : Loop}
      → LoopPath pg otel net worker span no_take s t
      → IsOrdered s
      → IsPending s
      → IsPending t
  LoopPath-IsPending here o p = p
  LoopPath-IsPending (next e allowed path st) o p =
      LoopStep-IsPending st allowed (LoopPath-IsOrdered pg otel net worker span path o)
        (LoopPath-IsPending path o p)

  -- From a pending state in the select, a wake-up is at most two steps away.
  pending-wakes :
      (s : Loop)
      → IsPending s
      → s.main ≡ selecting
      → (u : Loop) × LoopPath pg otel net worker span is_wake s u
        × (u.main ≡ draining)
        × (u.world ≡ s.world)
  unfolding offer
  pending-wakes s (inr b) m = (_, next takes refl here (take_step s m b), refl, refl)
  pending-wakes s (inl f) m = (
    _,
    next takes refl (next forwards refl here (forward_step s f))
        (take_step _ m (offer-true s.buffered)),
    refl,
    refl,
  )

  -- A notification that the listener has received, and that it is about to offer to notifCh or has
  -- offered, stays pending in every run of the worker in which nothing is taken from notifCh; and
  -- whenever Run stands in its select, at most an offer and a receive lead to the drain, on the
  -- world as it is then.
  pub notification_wakes :
      (w : World) (cancelled : Bool) (s t : Loop)
      → LoopPath pg otel net worker span any (run_start w cancelled) s
      → IsPending s
      → LoopPath pg otel net worker span no_take s t
      → t.main ≡ selecting
      → IsPending t
        × ((u : Loop) × LoopPath pg otel net worker span is_wake t u
            × (u.main ≡ draining)
            × (u.world ≡ t.world))
  unfolding is_ordered is_unborn
  notification_wakes w cancelled s t before pending after m =
      let p =
        LoopPath-IsPending after (LoopPath-IsOrdered pg otel net worker span before refl) pending in
      (p, pending-wakes t p m)
