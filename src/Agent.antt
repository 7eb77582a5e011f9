-- ===== src/Agent.antt =====
-- crates/6grok-agent/src/main.rs: the acquisition agent.
pub mod Output
pub mod Stream
pub mod Capture
pub mod Profiles
pub mod Control
pub mod Configure
pub mod Records
pub mod Normalized
pub mod World
pub mod Command
