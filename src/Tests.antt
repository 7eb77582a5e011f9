-- ===== src/Tests.antt =====
-- Runs at concrete inputs, and the theorems at inputs where their hypotheses hold.
mod Hdlc
mod Control
mod Sdm
mod SdmCommand
mod Core
mod Agent
mod Rerun
mod Configure
mod Normalized
mod Arguments
mod Delivery
mod Datagrams
mod Qcsuper
mod Api
mod Server
mod Tally
mod Command
mod SdmProgram
