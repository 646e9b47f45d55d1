-- ===== src/Api.antt =====
-- The analysis service (sitescore-api/src/sitescore_api): the lifecycle of analyses, the outbox of
-- tasks for the broker, the worker that executes an analysis, and its report.
pub mod Rows
pub mod Row
pub mod Moves
pub mod Sound
pub mod Keeps
pub mod Evolves
pub mod Admits
pub mod Session
pub mod Dispatcher
pub mod Lifecycle
pub mod Report
pub mod Reconcile
pub mod Pair
pub mod Finalize
pub mod Worker
pub mod Service
pub mod Auth
pub mod ReportBackend
mod Tests
