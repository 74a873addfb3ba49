-- ===== src/Worker/Loop/Shutdown.antt =====
-- The end of Run of internal/jobworker/worker.go, once its context is done.
use projet_etude_app_demo.Prelude.{
  suc, ◌≡◌, refl, sym, subst, Bool, true, false, Option, some, none, arith, str,
}
use projet_etude_app_demo.Metrics.{Span}
use projet_etude_app_demo.Store.Exec.{Error, ok, err, message, Pg, World}
use projet_etude_app_demo.Store.Trace.{Otel}
use projet_etude_app_demo.Worker.{Net, Worker, drain}
use projet_etude_app_demo.Worker.Loop.{
  Main, acquiring, subscribing, starting, selecting, draining, joining, stopped, Listener, unborn,
  waiting, forwarding, pausing, finished, Conn, held, Loop, after_acquire, after_listen,
  after_start, after_wait_error, Event, acquires, subscribes, starts, ticks, takes, publishes,
  drains, returns, joins, receives, forwards, fails, resumes, cancels, others, LoopStep,
  acquiring_step, subscribing_step, starting_step, tick_step, take_step, publish_step, drain_step,
  return_step, join_step, receive_step, forward_step, fail_step, resume_step, other_step,
  cancel_step, LoopPath, here, next, any, run_start,
}
use projet_etude_app_demo.Store.Jobs.Workers.{Inv}
use projet_etude_app_demo.Store.Jobs.Workers.Safety.{Reach-Inv}
use projet_etude_app_demo.Worker.Steps.{idle, drain-Reach, publish_depth-db}
use projet_etude_app_demo.Worker.Termination.{budget, drain_total}
use projet_etude_app_demo.Worker.Loop.Safety.{
  is_ordered, is_unborn, is_held, is_released, is_finished, LoopPath-IsOrdered,
}

-- The steps that Run and listenLoop take of themselves, with no tick and no notification.
abbrev pub is_own : Event → Bool
is_own ticks = false
is_own takes = false
is_own publishes = false
is_own receives = false
is_own cancels = false
is_own others = false
is_own _ = true

selecting-started :
    (l : Listener) (c : Conn) → is_ordered selecting l c ≡ true → is_unborn l ≡ false
unfolding is_ordered is_unborn is_held
selecting-started l c o = ground (arith, o)

stopped-held :
    (r : Option Error) (l : Listener) (c : Conn) → is_ordered (stopped r) l c ≡ true → c ≡ held → ⊥
unfolding is_ordered is_unborn is_held is_finished is_released
stopped-held none l c o h = ground (arith, o, h)
stopped-held (some e) l c o h = ground (arith, o, h)

module _ (pg : Pg) (otel : Otel) (net : Net) (worker : Worker) (span : Span) where
  LoopStep-Inv :
      {e : Event} {s t : Loop}
      → LoopStep pg otel net worker span e s t
      → Inv (idle s.world.db)
      → Inv (idle t.world.db)
  unfolding after_acquire after_listen after_start
  LoopStep-Inv (acquiring_step s (ok u) m) v = v
  LoopStep-Inv (acquiring_step s (err e) m) v = v
  LoopStep-Inv (subscribing_step s (ok u) m) v = v
  LoopStep-Inv (subscribing_step s (err e) m) v = v
  LoopStep-Inv (starting_step s fuel w m d) v =
      subst (λ db. Inv (idle db)) (sym (publish_depth-db pg otel net worker span w))
        (Reach-Inv v (drain-Reach pg otel net worker span fuel s.world w d))
  LoopStep-Inv (tick_step s m) v = v
  LoopStep-Inv (take_step s m b) v = v
  LoopStep-Inv (publish_step s m) v =
      subst (λ db. Inv (idle db)) (sym (publish_depth-db pg otel net worker span s.world)) v
  LoopStep-Inv (drain_step s fuel w m d) v =
      Reach-Inv v (drain-Reach pg otel net worker span fuel s.world w d)
  LoopStep-Inv (return_step s m c) v = v
  LoopStep-Inv (join_step s m l) v = v
  LoopStep-Inv (receive_step s l) v = v
  LoopStep-Inv (forward_step s l) v = v
  LoopStep-Inv (fail_step s canceled l) v = v
  LoopStep-Inv (resume_step s l) v = v
  LoopStep-Inv (other_step s db r) v = Reach-Inv v r
  LoopStep-Inv (cancel_step s) v = v

  LoopPath-Inv :
      {allowed : Event → Bool} {s t : Loop}
      → LoopPath pg otel net worker span allowed s t
      → Inv (idle s.world.db)
      → Inv (idle t.world.db)
  LoopPath-Inv here v = v
  LoopPath-Inv (next e allowed path st) v = LoopStep-Inv st (LoopPath-Inv path v)

  abbrev pub Ends : Loop → Type 0
  Ends s =
      (u : Loop) × (r : Option Error) × LoopPath pg otel net worker span is_own s u
      × (u.main ≡ stopped r)

  prepend-Ends :
      (e : Event) (s t : Loop)
      → is_own e ≡ true
      → LoopStep pg otel net worker span e s t
      → Ends t
      → Ends s
  prepend-Ends e s t own st (u, r, path, stops) = (u, r, prepended path, stops)
    where
      prepended :
          {v : Loop}
          → LoopPath pg otel net worker span is_own t v
          → LoopPath pg otel net worker span is_own s v
      prepended here = next e own here st
      prepended (next f g path step) = next f g (prepended path) step

  finished-Ends : (s : Loop) → s.listener ≡ finished → s.main ≡ joining → Ends s
  finished-Ends s l m = (_, none, next joins refl here (join_step s m l), refl)

  waiting-Ends : (s : Loop) → s.listener ≡ waiting → s.main ≡ joining → Ends s
  unfolding after_wait_error
  waiting-Ends s l m = prepend-Ends fails s _ refl (fail_step s true l) (finished-Ends _ refl m)

  joining-Ends :
      (l : Listener) (s : Loop) → s.listener ≡ l → is_unborn l ≡ false → s.main ≡ joining → Ends s
  unfolding is_unborn
  joining-Ends unborn s l born m = cc
  joining-Ends finished s l born m = finished-Ends s l m
  joining-Ends waiting s l born m = waiting-Ends s l m
  joining-Ends forwarding s l born m =
      prepend-Ends forwards s _ refl (forward_step s l) (waiting-Ends _ refl m)
  joining-Ends pausing s l born m =
      prepend-Ends resumes s _ refl (resume_step s l) (waiting-Ends _ refl m)

  selecting-Ends :
      (s : Loop) → is_unborn s.listener ≡ false → s.cancelled ≡ true → s.main ≡ selecting → Ends s
  selecting-Ends s born c m =
      prepend-Ends returns s _ refl (return_step s m c) (joining-Ends s.listener _ refl born refl)

  -- The rounds of a drain that starts in a table that satisfies the invariant.
  drain_of :
      (w : World)
      → Inv (idle w.db)
      → (w' : World) × (drain (suc (budget w.db.jobs)) pg otel net worker span w ≡ some w')
  drain_of w v = drain_total pg otel net worker span (suc (budget w.db.jobs)) w v (omega arith)

  ordered-Ends :
      (m : Main) (s : Loop)
      → s.main ≡ m
      → is_ordered m s.listener s.conn ≡ true
      → Inv (idle s.world.db)
      → s.cancelled ≡ true
      → Ends s
  unfolding after_acquire after_listen after_start is_unborn is_ordered
  ordered-Ends acquiring s m o v c = (
    _,
    _,
    next acquires refl here (acquiring_step s (err (message (str "context canceled"))) m),
    refl,
  )
  ordered-Ends subscribing s m o v c = (
    _,
    _,
    next subscribes refl here (subscribing_step s (err (message (str "context canceled"))) m),
    refl,
  )
  ordered-Ends starting s m o v c =
      let (w, d) = drain_of s.world v in
      prepend-Ends starts s _ refl (starting_step s _ w m d) (selecting-Ends _ refl c refl)
  ordered-Ends selecting s m o v c = selecting-Ends s (selecting-started s.listener s.conn o) c m
  ordered-Ends draining s m o v c =
      let (w, d) = drain_of s.world v in
      prepend-Ends drains s _ refl (drain_step s _ w m d)
        (selecting-Ends _ (selecting-started s.listener s.conn o) c refl)
  ordered-Ends joining s m o v c =
      joining-Ends s.listener s refl (selecting-started s.listener s.conn o) m
  ordered-Ends (stopped r) s m o v c = (s, r, here, m)

  pub cancelled_run_ends :
      (w : World) (cancelled : Bool) (s : Loop)
      → Inv (idle w.db)
      → LoopPath pg otel net worker span any (run_start w cancelled) s
      → s.cancelled ≡ true
      → (u : Loop) × (r : Option Error) × LoopPath pg otel net worker span is_own s u
        × (u.main ≡ stopped r)
        × (u.conn ≡ held → ⊥)
  unfolding is_ordered is_unborn is_held is_released
  cancelled_run_ends w cancelled s v path c =
      let o = LoopPath-IsOrdered pg otel net worker span path refl in
      let (u, r, own, stops) = ordered-Ends s.main s refl o (LoopPath-Inv path v) c in
      let last = LoopPath-IsOrdered pg otel net worker span own o in
      (u, r, own, stops, stopped-held r u.listener u.conn (rw stops at last))
