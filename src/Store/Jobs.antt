-- ===== src/Store/Jobs.antt =====
-- internal/store/jobs.go. A row of `jobs` is updated where its number is that of the WHERE clause.
pub mod Workers
pub mod Claim
pub mod Backoff
use projet_etude_app_demo.Prelude.{
  ℕ, ◌+◌, ◌*◌, ◌%◌, ◌^◌, ltb, ◌==◌, ℤ, pos, leb_ℤ, ltb_ℤ, ◌+ℤ◌, to_int64, word_mod, Bool, true,
  false, not, ◌&&◌, Bytes, str, List, [], ◌∷◌, count_if, Option, none, some, if◌then◌else◌,
}
use projet_etude_app_demo.Model.{Time, Job, JobKind}
use projet_etude_app_demo.Metrics.{Span}
use projet_etude_app_demo.Store.Db.{Db, JobRow, JobStatus, pending, running, finished, failed}
use projet_etude_app_demo.Store.Exec.{
  no_rows, driver, Result, ok, err, Pg, Statement, Exec, rows_or_not_found, map_result, send, timed,
}
use projet_etude_app_demo.Store.Trace.{Otel, inject_trace_context}
use projet_etude_app_demo.Store.Tickets.{insert_job}

-- An empty payload becomes `{}`.
abbrev pub payload_or_empty : Bytes → Bytes
payload_or_empty [] = str "{}"
payload_or_empty (c ∷ s) = c ∷ s

unfoldable pub enqueue : Pg → Otel → Span → JobKind → Bytes → Exec (Unit {0})
unfolding timed send insert_job inject_trace_context
enqueue pg otel span kind payload =
    timed pg span (str "enqueue")
      (send pg (insert_job pg kind (payload_or_empty payload) (inject_trace_context otel span)))

abbrev pub is_pending : JobStatus → Bool
is_pending pending = true
is_pending _ = false

-- WHERE status = 'pending' AND run_after <= now()
abbrev pub is_ready : Time → JobRow → Bool
is_ready at j = is_pending j.status && leb_ℤ j.run_after at

-- ORDER BY id LIMIT 1: of two candidates the one with the smaller number.
abbrev pub smaller_id : JobRow → Option JobRow → JobRow
smaller_id j none = j
smaller_id j (some k) = if ltb k.id j.id then k else j

-- FOR UPDATE SKIP LOCKED: a row that another transaction holds is passed over.
unfoldable pub next_job : Time → (ℕ → Bool) → List JobRow → Option JobRow
next_job at locked [] = none
next_job at locked (j ∷ js) =
    if is_ready at j && not (locked j.id)
    then some (smaller_id j (next_job at locked js))
    else next_job at locked js

-- UPDATE jobs SET … WHERE id = …
unfoldable pub update_job : ℕ → (JobRow → JobRow) → List JobRow → List JobRow
update_job id f [] = []
update_job id f (j ∷ js) = (if j.id == id then f j else j) ∷ update_job id f js

abbrev pub claimed : Bytes → Time → JobRow → JobRow
claimed worker at j = record j {
  status = running;
  attempts = j.attempts + 1;
  locked_at = some at;
  locked_by = some worker;
  updated_at = at;
}

-- RETURNING id, kind, payload, attempts, max_attempts, trace_context
abbrev pub to_job : JobRow → Job
to_job j = record {
  id = j.id;
  kind = j.kind;
  payload = j.payload;
  attempts = j.attempts;
  max_attempts = j.max_attempts;
  trace_context = j.trace_context;
}

abbrev pub claim_row : Bytes → Time → Db → Option JobRow → Result Job × Db
claim_row worker at db none = (err no_rows, db)
claim_row worker at db (some j) = (
  ok (to_job (claimed worker at j)),
  record db { jobs = update_job j.id (claimed worker at) db.jobs },
)

unfoldable pub claim_next : Bytes → Statement Job
unfolding next_job update_job
claim_next worker at locked db = claim_row worker at db (next_job at locked db.jobs)

unfoldable pub claim_next_job : Pg → Span → Bytes → Exec Job
unfolding timed send claim_next
claim_next_job pg span worker =
    timed pg span (str "claim_job") (map_result rows_or_not_found (send pg (claim_next worker)))

abbrev pub completed : Time → JobRow → JobRow
completed at j = record j { status = finished; updated_at = at }

unfoldable pub set_done : ℕ → Statement (Unit {0})
unfolding update_job
set_done id at locked db = (ok tt, record db { jobs = update_job id (completed at) db.jobs })

unfoldable pub complete_job : Pg → Span → ℕ → Exec (Unit {0})
unfolding timed send set_done
complete_job pg span id = timed pg span (str "complete_job") (send pg (set_done id))

-- time.Second and 5*time.Minute, in nanoseconds.
abbrev pub second : ℕ
second = 1000000000

abbrev pub max_backoff : ℤ
max_backoff = pos 300000000000

-- time.Duration(1<<attempts) * time.Second, and the cap: both are int64 and wrap.
unfoldable pub backoff_duration : ℕ → ℤ
backoff_duration attempts =
    let backoff = to_int64 (2 ^ attempts % word_mod * second % word_mod) in
    if ltb_ℤ max_backoff backoff then max_backoff else backoff

abbrev pub retried : Pg → ℤ → Bytes → Time → JobRow → JobRow
retried pg backoff reason at j = record j {
  status = pending;
  run_after = at +ℤ pg.interval backoff;
  locked_at = none;
  locked_by = none;
  last_error = some reason;
  updated_at = at;
}

abbrev pub given_up : Bytes → Time → JobRow → JobRow
given_up reason at j = record j { status = failed; last_error = some reason; updated_at = at }

unfoldable pub set_pending : Pg → ℕ → ℤ → Bytes → Statement (Unit {0})
unfolding update_job
set_pending pg id backoff reason at locked db =
    (ok tt, record db { jobs = update_job id (retried pg backoff reason at) db.jobs })

unfoldable pub set_failed : ℕ → Bytes → Statement (Unit {0})
unfolding update_job
set_failed id reason at locked db =
    (ok tt, record db { jobs = update_job id (given_up reason at) db.jobs })

unfoldable pub end_attempt : Pg → ℕ → ℕ → ℕ → Bytes → Statement (Unit {0})
unfolding set_pending set_failed
end_attempt pg id attempts max_attempts reason =
    if ltb attempts max_attempts
    then set_pending pg id (backoff_duration attempts) reason
    else set_failed id reason

-- A reason that the server does not accept as text changes nothing.
unfoldable pub fail_statement : Pg → ℕ → ℕ → ℕ → Bytes → Statement (Unit {0})
unfolding end_attempt
fail_statement pg id attempts max_attempts reason at locked db =
    if pg.accepts_text reason
    then end_attempt pg id attempts max_attempts reason at locked db
    else (err (driver (str "text")), db)

unfoldable pub fail_job : Pg → Span → ℕ → ℕ → ℕ → Bytes → Exec (Unit {0})
unfolding timed send fail_statement
fail_job pg span id attempts max_attempts reason =
    timed pg span (str "fail_job") (send pg (fail_statement pg id attempts max_attempts reason))

unfoldable pub count_ready : Statement ℕ
count_ready at locked db = (ok (count_if (is_ready at) db.jobs), db)

unfoldable pub queue_depth : Pg → Span → Exec ℕ
unfolding timed send count_ready
queue_depth pg span = timed pg span (str "queue_depth") (send pg count_ready)
