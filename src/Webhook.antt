-- ===== src/Webhook.antt =====
-- The admission webhooks of webhooks/: what a new or changed object must satisfy.
pub mod Conditions
pub mod Discovery
pub mod Duplicates
pub mod Endpoint
pub mod Error
pub mod Hardware
pub mod Instance
pub mod Network
mod Same
mod Tests
mod Examples
