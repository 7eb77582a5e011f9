-- ===== src/Lib.antt =====
-- Models and proofs for 6grok, a Rust workspace that acquires cellular diagnostic streams,
-- normalises them to frames and serves them.
--
-- The parts. An agent (crates/6grok-agent) reads the DIAG port of a Qualcomm modem, a recorded
-- stream, or records of other vendors, and makes a CaptureFrame of each log packet. It writes the
-- frames to a file, prints the decoded packets and sends the frames over TCP, as MessagePack behind
-- a length. The service (crates/6grok-api) takes them in, mirrors Qualcomm packets as GSMTAP
-- datagrams, keeps statistics and a history, and serves both. A second acquisition path
-- (crates/6grok-samsung-sdm) speaks Samsung's SDM framing, and a third (crates/6grok-qcsuper) reaches a
-- Qualcomm modem by QCSuper's bridge. crates/6grok-core has what they share.
--
-- The files.
--   Base        shared names; results, words of 16 and 32 bits, lists on native numbers, sorting, texts
--   Core        crates/6grok-core/src/lib.rs: frames, vendors, the wire format
--   Qualcomm    crates/6grok-agent/src/qualcomm.rs: Hdlc (HdlcDecoder::push, validate_diag_frame,
--               encode_hdlc), Codes (group_log_codes), Mask (set_mask_request), LogConfig (requests
--               and responses). crates/6grok-qcsuper/src/protocol.rs repeats that file.
--   Agent       crates/6grok-agent/src: Output (emit_frame, WireSink::send), Stream (the loop over the
--               reads of a stream, which three programs share), Capture (run_qualcomm_stream),
--               Normalized (replay_normalized_frames), Control (send_diag_packet,
--               wait_for_log_config_response, Command::Disable) and Configure
--               (configure_qualcomm_logs) of main.rs; Profiles (profiles.rs); Records
--               (vendor_records.rs, and run_vendor_records of main.rs in Records/Emission); World (what
--               the commands open) and Command (main, from the parsed command line on) of main.rs
--   Sdm         crates/6grok-samsung-sdm/src: headers, packets, Decoder (SdmDecoder::push) and Init
--               (init_packets) of sdm.rs; Command (run_stream, emit_frame, configure_sdm,
--               Command::Stop) and Program (main) of main.rs, on the outputs, the loop and the world of
--               Agent
--   Qcsuper     crates/6grok-qcsuper/src: Profiles (profiles.rs); Control
--               (wait_for_log_config_response, configure_logs) and Capture (run_capture) of main.rs,
--               on the configuration and the loop of Agent
--   Api         crates/6grok-api/src: Gsmtap (gsmtap.rs), Store (Store, process_frame, packets), Ingest
--               (ingest_client), Server (run_ingest and its tasks), Stats (stats) and Live (websocket)
--               of main.rs
--   Delivery    from the uplink of a collector to the service; Datagrams: from the modem to the GSMTAP
--               datagrams of the service
--   Arguments   parse_u16_auto and parse_u32_auto of the three collectors
--   Tests       runs at concrete inputs, and the theorems at inputs where their hypotheses hold
--
-- How the code is modelled. Bytes are native numbers; a theorem that needs them below 256 says so.
-- A struct is a record, an error enum a data type, `Result` a sum with `?` as bind. A function on
-- `&mut self` returns the new state. What a program writes is part of its state, so what it wrote
-- before an error stays written; a single write that fails adds nothing, so that what the system
-- has taken of it before the error counts as not written. The tasks of the service take turns in
-- any order; a turn is the step of a task up to its next access to what they share. A reader is
-- the list of what its reads return, or the bytes that it delivers and the fault behind them. A
-- command is an action on a world: the port, the outputs, and what was created and connected to. A
-- BTreeMap of groups is the list of its entries in the order of their keys.
--
-- Parameters. The CRC of the crc crate (16 bits), MessagePack (what is written is read back), the
-- clock, the JSON texts and their reader, UTF-8, the fivegrok parser, which write or send fails,
-- and the operating system's calls: which of them fail, and what files and ports deliver.
--
-- Fuel. SdmDecoder::push, read_records and ingest_client loop until their input ends; the models
-- take as fuel the length of the input and one more, since each round takes at least one byte.
--
-- Not modelled: the argument types of the command lines (clap), the attributes that termios sets,
-- the choice of the command in crates/6grok-qcsuper, axum's routes, the broadcast channel, texts
-- on the standard error, and crates/6grok-qcsuper/src/protocol.rs, which repeats the agent's
-- qualcomm.rs. Counters and sequence numbers are taken not to overflow 64 bits.
pub mod Base
pub mod Core
pub mod Qualcomm
pub mod Agent
pub mod Api
pub mod Sdm
pub mod Qcsuper
pub mod Arguments
pub mod Delivery
pub mod Tests
