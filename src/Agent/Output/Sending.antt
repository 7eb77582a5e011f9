-- ===== src/Agent/Output/Sending.antt =====
-- What `WireSink::send` leaves on the uplink.
use grok.Base.{
  ℕ, ◌^◌, ◌<◌, ◌≡◌, refl, sym, ap, ◌∙◌, some, ◌++◌, append_assoc, length, Bytes, to_be_u32, Result,
  ok, err, arith,
}
use grok.Core.{CaptureFrame, WireError, encode_wire_frame}
use grok.Agent.Output.{
  Env, Failure, Io, lift_wire, Outputs, and_then, write_wire, wire_length, send,
}

-- Inversion of a run that succeeds.
pub record Chain {A B : Type 0} (f : A → Io B) (r : Result Failure A × Outputs) (b : B)
    (out : Outputs) : Type 0 where
  pub value : A
  pub middle : Outputs
  pub first : r ≡ (ok value, middle)
  pub then_ : f value middle ≡ (ok b, out)

pub and_then-eq-ok :
    {A B : Type 0} (f : A → Io B) (r : Result Failure A × Outputs) (b : B) (out : Outputs)
    → and_then f r ≡ (ok b, out)
    → Chain f r b out
unfolding and_then
and_then-eq-ok f (ok a, o) b out e = record { value = a; middle = o; first = refl; then_ = e }
and_then-eq-ok f (err x, o) b out e = cc

-- A frame sent in whole: what its encoding is, and that it follows what was sent before.
pub record IsOnWire (env : Env) (frame : CaptureFrame) (old : Bytes) (out : Outputs) : Type 0 where
  pub payload : Bytes
  pub encoded : encode_wire_frame env.codec frame ≡ ok payload
  pub fits : length payload < 2 ^ 32
  pub written : out.wire ≡ some (old ++ (to_be_u32 (length payload) ++ payload))

lift_wire-eq-ok :
    (r : Result WireError Bytes) (payload : Bytes) → lift_wire r ≡ ok payload → r ≡ ok payload
lift_wire-eq-ok (ok x) payload h = cc
lift_wire-eq-ok (err x) payload h = cc

module _ (env : Env) where
  write_wire-some :
      (bytes old : Bytes) (out out' : Outputs)
      → out.wire ≡ some old
      → write_wire env bytes out ≡ (ok tt, out')
      → out'.wire ≡ some (old ++ bytes)
  unfolding write_wire
  write_wire-some bytes old out out' h e = ground arith

  wire_length-eq-ok :
      (payload : Bytes) (n : ℕ)
      → wire_length env payload ≡ ok n
      → (n ≡ length payload) × (length payload < 2 ^ 32)
  unfolding wire_length
  wire_length-eq-ok payload n h = ground arith

  -- If a frame is sent without an error to a connected sink, then it could be encoded, in fewer than
  -- 2 ^ 32 bytes, and the uplink is what it was, followed by the length in four bytes, the high byte
  -- first, and the encoding.
  pub send-IsOnWire :
      (frame : CaptureFrame) (old : Bytes) (out out' : Outputs)
      → out.wire ≡ some old
      → send env frame out ≡ (ok tt, out')
      → IsOnWire env frame old out'
  unfolding send
  send-IsOnWire frame old out out' h e =
      let c = and_then-eq-ok _ (lift_wire (encode_wire_frame env.codec frame), out) tt out' e in
      let d = and_then-eq-ok _ (wire_length env c.value, c.middle) tt out' c.then_ in
      let w = and_then-eq-ok _ (write_wire env (to_be_u32 d.value) d.middle) tt out' d.then_ in
      let same : d.middle ≡ out = sym (ap (λ t. t.1) d.first) ∙ sym (ap (λ t. t.1) c.first) in
      let long = wire_length-eq-ok c.value d.value (ap (λ t. t.0) d.first) in
      let first =
        write_wire-some (to_be_u32 d.value) old d.middle w.middle (ap (λ o. o.wire) same ∙ h)
          w.first in
      let second = write_wire-some c.value (old ++ to_be_u32 d.value) w.middle out' first w.then_ in
      record {
        payload = c.value;
        encoded =
            lift_wire-eq-ok (encode_wire_frame env.codec frame) c.value (ap (λ t. t.0) c.first);
        fits = long.1;
        written =
            second
            ∙ ap some (append_assoc old (to_be_u32 d.value) c.value)
            ∙ ap (λ n. some (old ++ (to_be_u32 n ++ c.value))) long.0;
      }
