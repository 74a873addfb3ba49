-- ===== src/Store/Trace.antt =====
-- injectTraceContext of internal/store/tickets.go and extractTraceContext of
-- internal/jobworker/worker.go. OpenTelemetry's propagator and encoding/json are parameters;
-- `start` gives the span that tracer.Start opens below another.
use projet_etude_app_demo.Prelude.{Bytes, Option, none, some, List, [], ◌∷◌}
use projet_etude_app_demo.Metrics.{Span}

abbrev pub Carrier : Type 0
Carrier = List (Bytes × Bytes)

pub record Otel : Type 0 where
  pub inject : Span → Carrier
  pub start : Span → Span
  pub extract : Span → Carrier → Span
  pub marshal : Carrier → Bytes
  pub unmarshal : Bytes → Option Carrier

unfoldable pub inject_trace_context : Otel → Span → Option Bytes
inject_trace_context otel span = elim (otel.inject span) [
  | [] ↦ none
  | entry ∷ rest ↦ some (otel.marshal (entry ∷ rest))
]

-- `none` is the SQL NULL, which is scanned as a nil slice.
unfoldable pub extract_trace_context : Otel → Span → Option Bytes → Span
extract_trace_context otel span none = span
extract_trace_context otel span (some []) = span
extract_trace_context otel span (some (c ∷ raw)) = elim (otel.unmarshal (c ∷ raw)) [
  | none ↦ span
  | some [] ↦ span
  | some (entry ∷ rest) ↦ otel.extract span (entry ∷ rest)
]
