-- ===== src/Lineage.antt =====
-- Lineage: pkg/lineage, the lineage index of api/v1alpha1, and the three reconcilers of
-- internal/controller that write it.
pub mod Index
pub mod Labels
pub mod Registry
pub mod Retention
pub mod Outcome
pub mod Synced
pub mod Control
pub mod Append
pub mod Names
pub mod Tracked
pub mod System
pub mod Samples
pub mod Tests
pub mod Racing
