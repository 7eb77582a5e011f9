-- ===== src/Qualcomm.antt =====
-- crates/6grok-agent/src/qualcomm.rs: Qualcomm DIAG framing and control.
pub mod Hdlc
pub mod Codes
pub mod Mask
pub mod LogConfig
