-- ===== src/Api/Gsmtap.antt =====
-- crates/6grok-api/src/gsmtap.rs: the GSMTAP datagram of a Qualcomm DIAG packet.
use grok.Base.{ℕ, ◌++◌, set, replicate, Bytes}

abbrev pub gsmtap_type_qc_diag : ℕ
gsmtap_type_qc_diag = 0x11

abbrev pub gsmtap_header : ℕ → ℕ → Bytes
gsmtap_header packet_type subtype =
    set (set (set (set (replicate 16 0) 0 2) 1 4) 2 packet_type) 12 subtype

unfoldable pub qc_diag_datagram : Bytes → Bytes
qc_diag_datagram packet = gsmtap_header gsmtap_type_qc_diag 0 ++ packet
