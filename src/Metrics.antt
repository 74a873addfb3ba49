-- ===== src/Metrics.antt =====
-- internal/metrics/metrics.go. The Prometheus client is not part of the repository: a call of it is
-- an effect that the model records, in the order of the calls. Durations are not modelled.
use projet_etude_app_demo.Prelude.{
  ℕ, Bytes, List, [], ◌∷◌, Option, none, some, Bool, true, false, format_nat,
}

-- The collectors that the package registers.
pub data Counter : Type 0 where
  http_requests_total tickets_created_total tickets_closed_total : Counter
  jobs_enqueued_total jobs_processed_total : Counter

pub data Gauge : Type 0 where
  tickets_open jobs_queue_depth : Gauge

pub data Histogram : Type 0 where
  http_request_duration db_query_duration job_duration : Histogram

-- `WithLabelValues(...).Inc()`, `Set(n)`, and `Observe` with the exemplar that is attached, if any.
pub data Effect : Type 0 where
  inc : Counter → List Bytes → Effect
  set_gauge : Gauge → ℕ → Effect
  observe : Histogram → List Bytes → Option Bytes → Effect

-- The trace id of the context's span, if it has one: exemplar, and traceIDFromCtx of the handlers.
abbrev pub Span : Type 0
Span = Option Bytes

-- `supports` says whether the client's observer takes exemplars.
unfoldable pub observe_with_exemplar : Bool → Span → Histogram → List Bytes → Effect
observe_with_exemplar supports none h labels = observe h labels none
observe_with_exemplar true (some trace) h labels = observe h labels (some trace)
observe_with_exemplar false (some trace) h labels = observe h labels none

unfoldable pub observe_query_ctx : Bool → Span → Bytes → Effect
unfolding observe_with_exemplar
observe_query_ctx supports span op = observe_with_exemplar supports span db_query_duration (op ∷ [])

unfoldable pub record_http_ctx : Bool → Span → Bytes → ℕ → List Effect
unfolding observe_with_exemplar
record_http_ctx supports span path status =
    observe_with_exemplar supports span http_request_duration (path ∷ [])
    ∷ inc http_requests_total (path ∷ format_nat status ∷ [])
    ∷ []

unfoldable pub observe_job_duration_ctx : Bool → Span → Bytes → Effect
unfolding observe_with_exemplar
observe_job_duration_ctx supports span kind =
    observe_with_exemplar supports span job_duration (kind ∷ [])
