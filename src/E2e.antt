-- ===== src/E2e.antt =====
-- pkg/e2e: the helpers that the operators' end-to-end suites share. What they call over the network
-- is a parameter of each.
pub mod Client
pub mod Duration
pub mod Reading
pub mod Poller
pub mod Namespace
pub mod Applier
pub mod Registry
mod Servers
mod Tests
