-- ===== src/Dns.antt =====
-- The Domain Semantic Name Service: internal/dns and internal/controller/dsns_reconciler.go.
pub mod Endpoint
pub mod Event
pub mod Zone
pub mod Writer
pub mod State
pub mod Derive
pub mod Reconcile
mod Tests
mod Runs
