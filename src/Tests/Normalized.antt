-- ===== src/Tests/Normalized.antt =====
-- The replay of a frame capture at a concrete input.
use Prim.Native.String.{String}
use grok.Base.{
  ◌≡◌, refl, none, some, [], ◌∷◌, ◌++◌, to_be_u32, Bytes, Result, ok, is_blank, subst, arith,
}
use grok.Core.{encode_wire_frame, parser_id}
use grok.Agent.Output.{
  Outputs, emit_frame, send, write_wire, write_capture, write_stdout, wire_length, send_into,
  capture_frame_into, and_then,
}
use grok.Agent.Stream.{emit_list}
use grok.Agent.Capture.Frames.{emit_all}
use grok.Agent.Normalized.{FrameReader, replay_normalized_frames}
use grok.Agent.Normalized.RoundTrip.{ReadsBack, replay_normalized_frames-emit_all}
use grok.Tests.Core.{log_frame, log_bytes, write_message}
use grok.Tests.Agent.{env}

-- The JSON text of every frame is the letter f.
abbrev pub reader : FrameReader
reader = record { from_utf8 = λ bytes. ok bytes; from_str = λ text. ok log_frame }

abbrev pub captured : Outputs
captured = record { raw = none; capture = some []; wire = some []; stdout = [] }

abbrev uplink : Outputs
uplink = record { raw = none; capture = none; wire = some []; stdout = [] }

abbrev pub after : Outputs
after = record {
  raw = none;
  capture = some (b'f' ∷ b'\n' ∷ []);
  wire = some (to_be_u32 9 ++ log_bytes);
  stdout = b'd' ∷ b'\n' ∷ [];
}

pub emit_all-log_frame : emit_all env (log_frame ∷ []) captured ≡ (ok tt, after)
unfolding emit_all emit_list emit_frame send write_wire write_capture write_stdout and_then
    encode_wire_frame write_message parser_id wire_length send_into capture_frame_into
emit_all-log_frame = refl

f-ReadsBack :
    (line : Bytes)
    → ◌≡◌ {A = Result String Bytes} (ok (b'f' ∷ [])) (ok line)
    → ReadsBack reader line log_frame
unfolding is_blank
f-ReadsBack line e =
    let same : (b'f' ∷ []) ≡ line = cc in
    subst (λ l. ReadsBack reader l log_frame) same
      (record {
        is_line = ((λ h. omega (arith, h), λ h. omega (arith, h)), tt);
        text = b'f' ∷ [];
        is_text = refl;
        not_blank = refl;
        is_frame = refl;
      })

replay_normalized_frames-emit_all_example :
    (file : Bytes) × (after.capture ≡ some file)
    × (replay_normalized_frames env reader file uplink ≡ emit_all env (log_frame ∷ []) uplink)
replay_normalized_frames-emit_all_example =
    replay_normalized_frames-emit_all env reader (log_frame ∷ []) captured after uplink
      (f-ReadsBack, tt) refl refl emit_all-log_frame
