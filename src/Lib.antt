-- ===== src/Lib.antt =====
-- projet-etude-app-demo is a ticket service in Go: an HTTP API over PostgreSQL, a worker that delivers
-- webhooks from a queue of jobs in the same database, an audit log, and a command that purges it.
-- This library models the program and proves what makes it correct.
--
-- The parts. A request meets the authentication middleware (internal/auth), a guard for its role, the
-- wrappers that count it and write the audit log, and a handler (internal/httpapi), which calls the
-- store (internal/store). A ticket of high priority is created together with a job, in one transaction.
-- Workers (internal/jobworker) claim jobs, deliver them, and complete or fail them. cmd/audit-purge
-- deletes old rows of the audit log.
--
-- The files.
--   Prelude         shared names, lists, Go strings as bytes, int64, base64, strconv
--   Model           internal/model/model.go
--   Metrics         internal/metrics/metrics.go: calls of the Prometheus client, recorded in order
--   Store.Db        the schema of internal/store/store.go: tables, constraints, sequences
--   Store.Exec      errors, PostgreSQL as the program meets it, statements and transactions
--   Store.Trace     injectTraceContext and extractTraceContext
--   Store.Tickets   internal/store/tickets.go; Creation, Valid, Listing and
--                   Closing are about its methods
--   Store.Jobs      internal/store/jobs.go; Claim and Backoff are about ClaimNextJob and FailJob, and
--                   Workers is about any number of workers on one table
--   Store.Audit     internal/store/audit.go; Page is about ListAudit
--   Store.Invariant what the schema promises; Store.Transactions is about sequences of statements
--   Store.Schema    the migrations and Migrate of internal/store/store.go, on the catalog; Recovery is
--                   about runs that are cut short, Race about two at once
--   Worker          internal/jobworker/worker.go; Steps relates drain to Store.Jobs.Workers,
--                   Termination and Drained are about the end of its loop, and Loop is Run with
--                   listenLoop: Safety, Wakeup and Shutdown are about them
--   Request         what the program reads of an *http.Request
--   Auth            internal/auth/auth.go and session.go; Session, Roles and Access are about them
--   AuditPurge      cmd/audit-purge/main.go
--   Http            internal/httpapi/handlers.go: Exchange (the response and the statusRecorder), Input
--                   (parseCreate, wantsHTML, clientIP), Wrappers (RequireRead, RequireMutate, auditing,
--                   instrument), Handlers, Routes (NewMux); Login is internal/auth/login.go, Chaos is
--                   internal/httpapi/chaos.go with workHandler; the other children are about these
--   Boot            how the processes start and end: Open is internal/dbutil/dbutil.go, Telemetry is
--                   internal/otelinit/otelinit.go, Api is run of cmd/api/main.go, WorkerRun is run of
--                   cmd/worker/main.go, and Purge opens the pool for AuditPurge
--   Examples        parameters and states at which the theorems are applied
--
-- The state. `World` holds the tables, the webhook requests that have gone out, the number of statements
-- sent, and the effects on the metrics; a store method is a function into `Exec`, from a world to a
-- result and a world. `Exchange` adds the response. A SQL text is a `Statement`: a function of the
-- time, of the rows that others hold locked, and of the tables. `Catalog` holds what the migrations
-- create. `Loop` is the state of a worker's two goroutines and of the channel between them, and
-- `WorkerProcess` adds the main goroutine; their steps are indexed by what happens.
--
-- Parameters stand for what is not in the repository. `Pg` says for the n-th statement that is sent
-- whether it is answered, is not run, or is run with its answer lost, what now() gives and which rows
-- are locked; and how the server reads texts, JSON, intervals and addresses. `Otel`, `Net`, `Idp`,
-- `Platform` and `hmac` stand for OpenTelemetry, the HTTP client with encoding/json, the OIDC provider,
-- the decoders of net/http and net with oauth2, and HMAC-SHA256; `Chance` of a request for crypto/rand,
-- the clock and the client; `Driver` and `Sdk` for pgxpool with the clock, and the OpenTelemetry SDK.
-- `KeepsTime` states what a clock does, and a ping whose context has expired, `DrawsWell` what crypto/rand promises.
-- Close of a pool waits for every connection that was acquired. `ReadsIntervals` states how PostgreSQL reads an
-- interval that time.Duration.String wrote. A COMMIT whose answer is lost has committed, and a
-- transaction that is rolled back leaves the sequences where they are.
--
-- Bounds and fuel. int64 and time.Duration wrap at 2^64, in two's complement, and /work computes modulo
-- 2^64. A float64 is compared exactly: a finite one is a multiple of 2^-1074. The loop of drain runs on fuel; the
-- attempts that the rows have left bound its rounds. The retry loop of Open has fuel for 62 rounds,
-- which outlast its 30 s at half a second each. A timestamp is a number of microseconds.
--
-- Not modelled: html/template and internal/httpapi/templates.go, which only gives it the embedded
-- files; internal/testutil, which starts a container for tests; GET /metrics, which is the Prometheus
-- client's; and the lines of log. Inside a request no context is cancelled, and durations are not
-- measured; the context of a worker is cancelled by a signal. The tables that a worker drains change
-- meanwhile only between its drains. SQL leaves the order of rows with equal timestamps open; here the
-- row inserted last comes first.
mod Prelude
pub mod Model
pub mod Metrics
pub mod Store
pub mod Worker
pub mod Request
pub mod Auth
pub mod AuditPurge
pub mod Boot
pub mod Http
pub mod Examples
