-- ===== src/Store.antt =====
-- internal/store: the tables, and the methods that the rest of the program calls.
pub mod Db
pub mod Exec
pub mod Trace
pub mod Tickets
pub mod Jobs
pub mod Audit
pub mod Invariant
pub mod Transactions
pub mod Schema
