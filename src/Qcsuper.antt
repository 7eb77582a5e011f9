-- ===== src/Qcsuper.antt =====
-- crates/6grok-qcsuper/src: the second Qualcomm collector, which reaches the modem by QCSuper's bridge.
-- Its protocol.rs repeats crates/6grok-agent/src/qualcomm.rs, and is modelled by the same definitions.
pub mod Profiles
pub mod Control
pub mod Capture
