-- ===== src/Boot.antt =====
-- How the two processes start and end: internal/dbutil/dbutil.go, internal/otelinit/otelinit.go, and run of
-- cmd/api/main.go and cmd/worker/main.go.
pub mod Open
pub mod Telemetry
pub mod Api
pub mod WorkerRun
pub mod Purge
