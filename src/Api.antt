-- ===== src/Api.antt =====
-- crates/6grok-api: the service that takes in frames from agents.
pub mod Gsmtap
pub mod Store
pub mod Ingest
pub mod Server
pub mod Stats
pub mod Live
