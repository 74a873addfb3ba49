-- ===== src/Worker/Loop/Safety.antt =====
-- The connection of Run in internal/jobworker/worker.go: who may still use it when it is released.
use projet_etude_app_demo.Prelude.{
  ◌≢◌, ◌⊎◌, ◌≡◌, refl, ap, inl, inr, Bool, Bool-cases, true, false, not, ◌&&◌, ◌||◌, some, none,
  arith, str,
}
use projet_etude_app_demo.Metrics.{Span}
use projet_etude_app_demo.Store.Exec.{Error, wrapped, ok, err, Pg, World}
use projet_etude_app_demo.Store.Trace.{Otel}
use projet_etude_app_demo.Worker.{Net, Worker}
use projet_etude_app_demo.Worker.Loop.{
  Main, acquiring, subscribing, starting, selecting, draining, joining, stopped, Listener, unborn,
  waiting, forwarding, pausing, finished, Conn, held, released, Loop, after_acquire, after_listen,
  after_start, after_wait_error, Event, LoopStep, acquiring_step, subscribing_step, starting_step,
  tick_step, take_step, publish_step, drain_step, return_step, join_step, receive_step,
  forward_step, fail_step, resume_step, other_step, cancel_step, LoopPath, here, next, any,
  run_start,
}

unfoldable pub is_unborn : Listener → Bool
is_unborn unborn = true
is_unborn _ = false

unfoldable pub is_finished : Listener → Bool
is_finished finished = true
is_finished _ = false

unfoldable pub is_held : Conn → Bool
is_held held = true
is_held _ = false

unfoldable pub is_released : Conn → Bool
is_released released = true
is_released _ = false

-- The listener and the connection at each point of Run: the listener runs only while Run holds the
-- connection, and Run gives it back only after the listener, if it was started, has returned.
unfoldable pub is_ordered : Main → Listener → Conn → Bool
unfolding is_unborn is_finished is_held is_released
is_ordered acquiring l c = is_unborn l && (not (is_held c) && not (is_released c))
is_ordered subscribing l c = is_unborn l && is_held c
is_ordered starting l c = is_unborn l && is_held c
is_ordered selecting l c = not (is_unborn l) && is_held c
is_ordered draining l c = not (is_unborn l) && is_held c
is_ordered joining l c = not (is_unborn l) && is_held c
is_ordered (stopped (some e)) l c = is_unborn l && not (is_held c)
is_ordered (stopped none) l c = is_finished l && is_released c

-- A listener that is running.
unfoldable pub is_running : Listener → Bool
is_running unborn = false
is_running finished = false
is_running _ = true

moved-is_ordered :
    (m : Main) (l k : Listener) (c : Conn)
    → is_running l ≡ true
    → is_unborn k ≡ false
    → is_ordered m l c ≡ true
    → is_ordered m k c ≡ true
unfolding is_ordered is_running is_unborn is_finished is_held is_released
moved-is_ordered m l k c run born o = ground (arith, run, born, o)

abbrev pub IsOrdered : Loop → Type 0
IsOrdered s = is_ordered s.main s.listener s.conn ≡ true

module _ (l : Listener) (c : Conn) where
  acquired-is_ordered : is_ordered acquiring l c ≡ true → is_ordered subscribing l held ≡ true
  unfolding is_ordered is_unborn is_held is_released
  acquired-is_ordered o = ground (arith, o)

  refused-is_ordered :
      (e : Error) → is_ordered acquiring l c ≡ true → is_ordered (stopped (some e)) l c ≡ true
  unfolding is_ordered is_unborn is_held is_released
  refused-is_ordered e o = ground (arith, o)

  unlistened-is_ordered :
      (e : Error)
      → is_ordered subscribing l c ≡ true
      → is_ordered (stopped (some e)) l released ≡ true
  unfolding is_ordered is_unborn is_held is_released
  unlistened-is_ordered e o = ground (arith, o)

  started-is_ordered : is_ordered starting l c ≡ true → is_ordered selecting waiting c ≡ true
  unfolding is_ordered is_unborn is_held is_released
  started-is_ordered o = ground (arith, o)

unfoldable pub is_stopped : Main → Bool
is_stopped (stopped r) = true
is_stopped _ = false

ordered-users :
    (m : Main) (l : Listener) (c : Conn)
    → is_ordered m l c ≡ true
    → (c ≡ held) ⊎ (is_running l ≡ false)
unfolding is_ordered is_running is_unborn is_finished is_held is_released
ordered-users m l c o = ground (arith, o)

ordered-end :
    (m : Main) (l : Listener) (c : Conn)
    → is_ordered m l c ≡ true
    → (is_stopped m ≡ false) ⊎ (c ≢ held)
unfolding is_ordered is_stopped is_unborn is_finished is_held is_released
ordered-end m l c o = ground (arith, o)

module _ (pg : Pg) (otel : Otel) (net : Net) (worker : Worker) (span : Span) where
  LoopStep-IsOrdered :
      {e : Event} {s t : Loop} → LoopStep pg otel net worker span e s t → IsOrdered s → IsOrdered t
  unfolding after_acquire after_listen after_start after_wait_error is_ordered is_running is_unborn
      is_finished is_held is_released
  LoopStep-IsOrdered (acquiring_step s (ok u) m) o =
      acquired-is_ordered s.listener s.conn (rw m at o)
  LoopStep-IsOrdered (acquiring_step s (err e) m) o =
      refused-is_ordered s.listener s.conn (wrapped (str "acquire listen conn: ") e) (rw m at o)
  LoopStep-IsOrdered (subscribing_step s (ok u) m) o = rw m at o
  LoopStep-IsOrdered (subscribing_step s (err e) m) o =
      unlistened-is_ordered s.listener s.conn (wrapped (str "LISTEN: ") e) (rw m at o)
  LoopStep-IsOrdered (starting_step s fuel w m d) o =
      started-is_ordered s.listener s.conn (rw m at o)
  LoopStep-IsOrdered (tick_step s m) o = rw m at o
  LoopStep-IsOrdered (take_step s m b) o = rw m at o
  LoopStep-IsOrdered (publish_step s m) o = o
  LoopStep-IsOrdered (drain_step s fuel w m d) o = rw m at o
  LoopStep-IsOrdered (return_step s m c) o = rw m at o
  LoopStep-IsOrdered (join_step s m l) o = rw l refl
  LoopStep-IsOrdered (receive_step s l) o =
      moved-is_ordered s.main s.listener forwarding s.conn (ap is_running l) refl o
  LoopStep-IsOrdered (forward_step s l) o =
      moved-is_ordered s.main s.listener waiting s.conn (ap is_running l) refl o
  LoopStep-IsOrdered (fail_step s canceled l) o = elim (Bool-cases (canceled || s.cancelled)) [
    | inl over ↦
        rw (over) (moved-is_ordered s.main s.listener finished s.conn (ap is_running l) refl o)
    | inr goes_on ↦
        rw (goes_on) (moved-is_ordered s.main s.listener pausing s.conn (ap is_running l) refl o)
  ]
  LoopStep-IsOrdered (resume_step s l) o =
      moved-is_ordered s.main s.listener waiting s.conn (ap is_running l) refl o
  LoopStep-IsOrdered (other_step s db r) o = o
  LoopStep-IsOrdered (cancel_step s) o = o

  pub LoopPath-IsOrdered :
      {allowed : Event → Bool} {s t : Loop}
      → LoopPath pg otel net worker span allowed s t
      → IsOrdered s
      → IsOrdered t
  LoopPath-IsOrdered here o = o
  LoopPath-IsOrdered (next e ok_e path st) o = LoopStep-IsOrdered st (LoopPath-IsOrdered path o)

  -- In every state that Run reaches, it holds the connection or the listener does not run; and
  -- when it has returned, it does not hold the connection.
  pub release_order :
      (w : World) (cancelled : Bool) (s : Loop)
      → LoopPath pg otel net worker span any (run_start w cancelled) s
      → ((s.conn ≡ held) ⊎ (is_running s.listener ≡ false))
        × ((is_stopped s.main ≡ false) ⊎ (s.conn ≢ held))
  unfolding is_ordered is_unborn is_held is_released
  release_order w cancelled s path =
      let o = LoopPath-IsOrdered path refl in
      (ordered-users s.main s.listener s.conn o, ordered-end s.main s.listener s.conn o)
