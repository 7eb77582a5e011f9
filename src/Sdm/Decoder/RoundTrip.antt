-- ===== src/Sdm/Decoder/RoundTrip.antt =====
-- The decoder on what `generate_packet` writes.
use grok.Base.{
  ℕ, ◌+◌, ◌/◌, ◌%◌, ◌≤◌, ◌≡◌, ◌≢◌, refl, sym, ◌∙◌, some, List, [], ◌∷◌, ◌++◌, length, length-append,
  take, drop, get_or, get_or-append_at, take-append_at, drop-append_at, All, Bytes, IsU32, ok, err,
  arith, append_assoc, from_le_u16-to_le_u16, from_le_u32-to_le_u32,
}
use grok.Sdm.{sdm_start, sdm_end, SdmHeader, SdmFrame, packet_head, generate_packet, parse_header}
use grok.Sdm.Decoder.{
  default, SdmResult, emit, end_frame, sized_frame, headed_frame, frame_round, round, push,
}
use grok.Sdm.Decoder.Rounds.{round_start, round_skip}
use grok.Sdm.Decoder.Chunks.{Scans, halt, more, push_of_Scans}

-- The arguments of `generate_packet`.
pub record Request : Type 0 where
  pub direction : ℕ
  pub group : ℕ
  pub command : ℕ
  pub payload : Bytes
  pub timestamp : ℕ

-- The payload fits the 16-bit length field, and the timestamp is a `u32`.
pub record IsSendable (q : Request) : Type 0 where
  pub fits : length q.payload ≤ 65521
  pub stamped : IsU32 q.timestamp

-- The header of the generated packet: the group byte gives the radio ID and the group.
abbrev pub header_of : Request → SdmHeader
header_of q = record {
  length1 = length q.payload + 14;
  zero_byte = 0;
  length2 = length q.payload + 11;
  stamp = 0;
  direction = q.direction;
  radio_id = q.group / 32;
  group = q.group % 32;
  command = q.command;
  timestamp = q.timestamp;
}

abbrev head_of : Request → Bytes
head_of q =
    packet_head (length q.payload + 14) (length q.payload + 11) q.direction q.group q.command
      q.timestamp

abbrev pub packet_of : Request → Bytes
packet_of q = head_of q ++ (q.payload ++ (sdm_end ∷ []))

generate_packet-packet_of :
    (q : Request)
    → IsSendable q
    → generate_packet q.direction q.group q.command q.payload q.timestamp ≡ ok (packet_of q)
unfolding generate_packet
generate_packet-packet_of q v = ground (arith, v.fits)

frame_of : Request → SdmFrame
frame_of q = record { header = header_of q; packet = packet_of q }

module _ (q : Request) (v : IsSendable q) (rest : Bytes) where
  shape : packet_of q ++ rest ≡ (head_of q ++ q.payload) ++ (sdm_end ∷ rest)
  shape = rw (append_assoc q.payload (sdm_end ∷ []) rest)

  parsed : parse_header (take 14 (drop 1 (packet_of q ++ rest))) ≡ ok (header_of q)
  unfolding parse_header
  parsed = ground (
    arith,
    from_le_u16-to_le_u16 (length q.payload + 14),
    from_le_u16-to_le_u16 (length q.payload + 11),
    from_le_u32-to_le_u32 q.timestamp v.stamped,
  )

  length-packet_of : length (packet_of q) ≡ length q.payload + 16
  length-packet_of = ground (arith, length-append q.payload (sdm_end ∷ []))

  terminator : get_or (packet_of q ++ rest) (length q.payload + 15) 0 ≡ sdm_end
  terminator = rw shape (
      get_or-append_at (head_of q ++ q.payload) rest sdm_end (length q.payload + 15) 0
        (omega arith))

  frame_round-packet_of : frame_round (packet_of q ++ rest) ≡ emit (ok (frame_of q)) rest
  unfolding frame_round headed_frame sized_frame end_frame frame_of
  frame_round-packet_of = ground (
    arith,
    parsed,
    terminator,
    length-packet_of,
    length-append (packet_of q) rest,
    take-append_at (packet_of q) rest (length q.payload + 16) (sym length-packet_of),
    drop-append_at (packet_of q) rest (length q.payload + 16) (sym length-packet_of),
  )

-- Garbage without a start byte, and a request behind it.
pub record Item : Type 0 where
  pub noise : Bytes
  pub request : Request

pub record IsClean (i : Item) : Type 0 where
  pub quiet : All (λ b. b ≢ sdm_start) i.noise
  pub sendable : IsSendable i.request

-- What `generate_packet` returns for a request, or no bytes if it fails.
abbrev pub generated : Request → Bytes
generated q = elim (generate_packet q.direction q.group q.command q.payload q.timestamp) [
  | ok packet ↦ packet
  | err e ↦ []
]

generated-packet_of : (q : Request) → IsSendable q → generated q ≡ packet_of q
generated-packet_of q v = rw (generate_packet-packet_of q v, generated)

abbrev pub stream : List Item → Bytes
stream [] = []
stream (i ∷ is) = i.noise ++ (generated i.request ++ stream is)

-- The frame that the decoder makes of each request.
abbrev pub frames : List Item → List SdmResult
frames [] = []
frames (i ∷ is) =
    ok (record { header = header_of i.request; packet = generated i.request }) ∷ frames is

round-noise :
    (noise rest : Bytes) → All (λ b. b ≢ sdm_start) noise → round (noise ++ rest) ≡ round rest
round-noise [] rest h = refl
round-noise (b ∷ bs) rest h =
    round_skip b (bs ++ rest) (ground (arith, h.0)) ∙ round-noise bs rest h.1

round-packet_of :
    (q : Request) (rest : Bytes)
    → IsSendable q
    → round (packet_of q ++ rest)
      ≡ emit (ok (record { header = header_of q; packet = packet_of q })) rest
unfolding frame_of
round-packet_of q rest v = round_start _ ∙ frame_round-packet_of q v rest

stream-Scans : (items : List Item) → All IsClean items → Scans (stream items) (frames items) []
unfolding round
stream-Scans [] h = halt refl
stream-Scans (i ∷ is) h = rw (generated-packet_of i.request h.0.sendable) (
    more (round-noise i.noise _ h.0.quiet ∙ round-packet_of i.request (stream is) h.0.sendable)
      (stream-Scans is h.1))

-- A fresh decoder that is given any number of generated packets, with noise free of the start byte
-- in front of each, returns one frame for each, in order: the packet itself, and a header that
-- holds the arguments of the packet. Nothing is left in its buffer.
pub push-stream :
    (items : List Item)
    → All IsClean items
    → push default (stream items) ≡ some (frames items, default)
push-stream items h = push_of_Scans default (stream items) (stream-Scans items h)
