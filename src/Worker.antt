-- ===== src/Worker.antt =====
-- internal/jobworker/worker.go. json.Unmarshal of a payload and the HTTP client are parameters.
pub mod Steps
pub mod Termination
pub mod Loop
pub mod Drained
use projet_etude_app_demo.Prelude.{
  ℕ, zero, suc, ◌+◌, leb, ℤ, is_nat, Bool, true, false, not, Bytes, str, str_eq, is_empty,
  format_nat, List, [], ◌∷◌, ◌++◌, Option, none, some, if◌then◌else◌,
}
use projet_etude_app_demo.Model.{Ticket, Job, JobKind, Notice, job_kind_webhook_notify}
use projet_etude_app_demo.Metrics.{
  Span, inc, set_gauge, jobs_processed_total, jobs_queue_depth, observe_job_duration_ctx,
}
use projet_etude_app_demo.Store.Exec.{
  Error, message, wrapped, not_found, is_not_found, error_text, Result, ok, err, Pg, World, Exec,
  pure, raise, emit, and_then, ◌>>=◌, ◌>>◌,
}
use projet_etude_app_demo.Store.Trace.{Otel, extract_trace_context}
use projet_etude_app_demo.Store.Tickets.{get_ticket}
use projet_etude_app_demo.Store.Jobs.{claim_next_job, complete_job, fail_job, queue_depth}

-- The ticket_id that json.Unmarshal reads from a payload, or its error; the error of
-- http.NewRequestWithContext for a URL, if any; and the status or the error of the n-th request.
pub record Net : Type 0 where
  pub decode : Bytes → Result ℤ
  pub bad_url : Bytes → Option Bytes
  pub respond : ℕ → Result ℕ

-- Worker, without the pool, the store and the ticker.
pub record Worker : Type 0 where
  pub id : Bytes
  pub webhook_url : Bytes

-- New, on the name that os.Hostname gives, os.Getpid and os.Getenv.
unfoldable pub new_worker : Bytes → ℕ → (Bytes → Bytes) → Worker
new_worker host pid getenv = record {
  id = (if is_empty host then str "worker" else host) ++ (str "-" ++ format_nat pid);
  webhook_url = getenv (str "WEBHOOK_URL");
}

-- fmt.Sprintf("[%s] ticket #%d: %s", …), and the fields of the JSON body.
unfoldable pub notice : Ticket → Notice
notice t = record {
  text =
      str "[" ++ (t.priority ++ (str "] ticket #" ++ (format_nat t.id ++ (str ": " ++ t.title))));
  id = t.id;
  title = t.title;
  priority = t.priority;
  status = t.status;
}

-- fmt.Errorf(prefix + "%w", err)
abbrev pub wrap_error {ℓ} : {A : Type ℓ} → Bytes → Result A × World → Result A × World
wrap_error prefix (ok a, w) = (ok a, w)
wrap_error prefix (err e, w) = (err (wrapped prefix e), w)

abbrev pub count_sent : List (Bytes × Notice) → ℕ
count_sent [] = 0
count_sent (_ ∷ rs) = suc (count_sent rs)

abbrev pub check_status : Result ℕ → Result (Unit {0})
check_status (err e) = err e
check_status (ok code) =
    if leb 300 code then err (message (str "webhook returned " ++ format_nat code)) else ok tt

-- NewRequestWithContext, HTTP.Do and the test of the status.
unfoldable pub post : Net → Bytes → Ticket → Exec (Unit {0})
unfolding notice
post net url t w = elim (net.bad_url url) [
  | some text ↦ (err (message text), w)
  | none ↦ (
    check_status (net.respond (count_sent w.sent)),
    record w { sent = w.sent ++ (url, notice t) ∷ [] },
  )
]

unfoldable pub deliver : Net → Worker → Ticket → Exec (Unit {0})
unfolding post
deliver net worker t =
    if is_empty worker.webhook_url then pure tt else post net worker.webhook_url t

unfoldable pub notify_ticket : Pg → Net → Worker → Span → ℤ → Exec (Unit {0})
unfolding deliver get_ticket
notify_ticket pg net worker span id w =
    if is_nat id 0
    then (err (message (str "missing ticket_id")), w)
    else and_then (wrap_error (str "load ticket: ") (get_ticket pg span id w)) (deliver net worker)

unfoldable pub run_webhook : Pg → Net → Worker → Span → Bytes → Exec (Unit {0})
unfolding notify_ticket
run_webhook pg net worker span raw w = elim (net.decode raw) [
  | err e ↦ (err (wrapped (str "decode payload: ") e), w)
  | ok id ↦ notify_ticket pg net worker span id w
]

unfoldable pub execute : Pg → Net → Worker → Span → Job → Exec (Unit {0})
unfolding run_webhook
execute pg net worker span j =
    if str_eq j.kind job_kind_webhook_notify
    then run_webhook pg net worker span j.payload
    else raise (message (str "unknown job kind: " ++ j.kind))

-- The world after a call whose error is only logged.
abbrev pub logged {ℓ} : {A : Type ℓ} → Exec A → World → World
logged m w = (m w).1

-- What process does with the result of execute.
unfoldable pub finish : Pg → Span → Job → Result (Unit {0}) → World → World
unfolding complete_job fail_job
finish pg span j (err e) w =
    logged (fail_job pg span j.id j.attempts j.max_attempts (error_text e)) (record w {
      effects = w.effects ++ inc jobs_processed_total (j.kind ∷ str "error" ∷ []) ∷ [];
    })
finish pg span j (ok u) w =
    logged (complete_job pg span j.id)
      (record w { effects = w.effects ++ inc jobs_processed_total (j.kind ∷ str "ok" ∷ []) ∷ [] })

abbrev pub job_span : Otel → Span → Job → Span
job_span otel span j = otel.start (extract_trace_context otel span j.trace_context)

unfoldable pub process : Pg → Otel → Net → Worker → Span → Job → World → World
unfolding execute finish
process pg otel net worker span j w =
    let s = job_span otel span j in
    let (r, w') = execute pg net worker s j w in
    finish pg s j r
      (record w' { effects = w'.effects ++ observe_job_duration_ctx pg.exemplars s j.kind ∷ [] })

abbrev pub set_depth : Result ℕ × World → World
set_depth (err e, w) = w
set_depth (ok n, w) = record w { effects = w.effects ++ set_gauge jobs_queue_depth n ∷ [] }

unfoldable pub publish_depth : Pg → Span → World → World
unfolding queue_depth
publish_depth pg span w = set_depth (queue_depth pg span w)

-- The end of the loop of drain, at an error of ClaimNextJob.
unfoldable pub drained : Pg → Span → Error → World → World
unfolding publish_depth
drained pg span e w = if is_not_found e then publish_depth pg span w else w

-- The loop of drain on fuel: `none` if the fuel runs out.
unfoldable pub drain : ℕ → Pg → Otel → Net → Worker → Span → World → Option World
unfolding claim_next_job process drained
drain zero pg otel net worker span w = none
drain (suc fuel) pg otel net worker span w =
    let (r, w') = claim_next_job pg span worker.id w in
    elim r [
      | err e ↦ some (drained pg span e w')
      | ok j ↦ drain fuel pg otel net worker span (process pg otel net worker span j w')
    ]
