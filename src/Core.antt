-- ===== src/Core.antt =====
-- The deterministic scoring of sites (sitescore-core/src/sitescore): category scores with their
-- penalties, the economics, and the decision.
pub mod Numbers
pub mod Fixed
pub mod Config
pub mod Penalty
pub mod Location
pub mod Revenue
pub mod Financial
pub mod Decision
pub mod Confidence
mod Tests
