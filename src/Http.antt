-- ===== src/Http.antt =====
-- internal/httpapi: the handlers, what wraps them, and the routes.
pub mod Exchange
pub mod Input
pub mod Wrappers
pub mod Handlers
pub mod Login
pub mod Chaos
pub mod Routes
pub mod Keeps
mod Quiet
mod Answers
pub mod Valid
pub mod Validation
pub mod AuditTrail
pub mod Access
