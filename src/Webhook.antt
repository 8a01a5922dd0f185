-- ===== src/Webhook.antt =====
-- The admission webhooks for InfrastructureLineageIndex objects: internal/webhook.
pub mod Decide
pub mod Handler
pub mod Rules
pub mod Sealing
mod Tests
