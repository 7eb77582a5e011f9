-- ===== src/Sdm.antt =====
-- crates/6grok-samsung-sdm/src/sdm.rs: Samsung SDM packets.
pub mod Decoder
pub mod Init
pub mod Command
pub mod Program
use grok.Base.{
  ℕ, ◌+◌, ◌*◌, ◌/◌, ◌%◌, ◌^◌, List, [], ◌∷◌, ◌++◌, ltb, ◌||◌, if◌then◌else◌, length, get_or, bit_or,
  Bytes, to_le_u16, to_le_u32, from_le_u16, from_le_u32, Result, ok, err,
}

abbrev pub sdm_start : ℕ
sdm_start = 0x7f

abbrev pub sdm_end : ℕ
sdm_end = 0x7e

abbrev pub sdm_header_len : ℕ
sdm_header_len = 14

abbrev pub max_sdm_packet : ℕ
max_sdm_packet = 8 * 1024 * 1024

pub record SdmHeader : Type 0 where
  pub length1 : ℕ
  pub zero_byte : ℕ
  pub length2 : ℕ
  pub stamp : ℕ
  pub direction : ℕ
  pub radio_id : ℕ
  pub group : ℕ
  pub command : ℕ
  pub timestamp : ℕ

-- `SDM_SYNTHETIC_BASE | u16::from(self.group & 0x1f)`
unfoldable pub synthetic_log_code : SdmHeader → ℕ
synthetic_log_code h = bit_or 0x2400 (h.group % 2 ^ 5)

pub record SdmFrame : Type 0 where
  pub header : SdmHeader
  pub packet : Bytes

pub data SdmError : Type 0 where
  header_too_short : SdmError
  invalid_length_relation : ℕ → ℕ → SdmError
  packet_too_large : ℕ → SdmError
  bad_terminator : ℕ → SdmError

unfoldable pub parse_header : Bytes → Result SdmError SdmHeader
parse_header header =
    if ltb (length header) sdm_header_len
    then err header_too_short
    else let group_raw = get_or header 8 0 in
      ok (record {
        length1 = from_le_u16 (get_or header 0 0) (get_or header 1 0);
        zero_byte = get_or header 2 0;
        length2 = from_le_u16 (get_or header 3 0) (get_or header 4 0);
        stamp = from_le_u16 (get_or header 5 0) (get_or header 6 0);
        direction = get_or header 7 0;
        radio_id = group_raw / 2 ^ 5;
        group = group_raw % 2 ^ 5;
        command = get_or header 9 0;
        timestamp =
            from_le_u32 (get_or header 10 0) (get_or header 11 0) (get_or header 12 0)
              (get_or header 13 0);
      })

-- The bytes of a packet in front of its payload.
abbrev pub packet_head : ℕ → ℕ → ℕ → ℕ → ℕ → ℕ → Bytes
packet_head length1 length2 direction group command timestamp =
    sdm_start
    ∷ (to_le_u16 length1
        ++ (0
            ∷ (to_le_u16 length2
                ++ (to_le_u16 0 ++ (direction ∷ group ∷ command ∷ to_le_u32 timestamp)))))

-- The length of a slice is far below the largest `usize`, so the checked addition never fails.
unfoldable pub generate_packet : ℕ → ℕ → ℕ → Bytes → ℕ → Result SdmError Bytes
generate_packet direction group command payload timestamp =
    let length2 = 11 + length payload in
    let length1 = length2 + 3 in
    let total = length1 + 2 in
    if ltb max_sdm_packet total || ltb 65535 length1
    then err (packet_too_large total)
    else ok (
        packet_head (length1 % 2 ^ 16) (length2 % 2 ^ 16) direction group command timestamp
        ++ (payload ++ (sdm_end ∷ [])))
