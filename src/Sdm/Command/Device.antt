-- ===== src/Sdm/Command/Device.antt =====
-- What `configure_sdm` leaves on the device.
use Prim.Native.String.{String}
use grok.Base.{
  ℕ, ◌≡◌, refl, sym, ap, ◌∙◌, Bool, Option, none, some, List, [], ◌∷◌, ◌++◌, append-nil,
  append_assoc, map, Bytes,
}
use grok.Sdm.Decoder.{push, default}
use grok.Sdm.Decoder.RoundTrip.{frames}
use grok.Sdm.Init.{SdmProfile}
use grok.Sdm.Init.Transaction.{joined, quiet, init_requests, init_packets-decoded}
use grok.Sdm.Command.{
  DeviceError, write_result, write_device, and_write, write_packets, generated_then, configure_sdm,
}

module _ (write_error : List Bytes → Bytes → Option String) where
  write_result-none :
      (o : Option String) (packet : Bytes) (written after : List Bytes)
      → write_result write_error o packet written ≡ (none, after)
      → after ≡ written ++ (packet ∷ [])
  unfolding write_result
  write_result-none none packet written after e = sym (ap (λ r. r.1) e)
  write_result-none (some x) packet written after e = cc

  -- If no write fails, the packets stand behind what was written.
  and_write-none :
      (r : Option DeviceError × List Bytes) (k : List Bytes → Option DeviceError × List Bytes)
      (after : List Bytes)
      → and_write write_error r k ≡ (none, after)
      → (r ≡ (none, r.1)) × (k r.1 ≡ (none, after))
  unfolding and_write
  and_write-none (none, w) k after e = (refl, e)
  and_write-none (some x, w) k after e = cc

  write_packets-none :
      (packets written after : List Bytes)
      → write_packets write_error packets written ≡ (none, after)
      → after ≡ written ++ packets
  unfolding write_packets write_device
  write_packets-none [] written after e = sym (ap (λ r. r.1) e) ∙ sym (append-nil written)
  write_packets-none (p ∷ ps) written after e =
      let (first, rest) = and_write-none (write_device write_error p written) _ after e in
      let w =
        write_result-none (write_error written p) p written (write_device write_error p written).1
          first in
      write_packets-none ps (write_device write_error p written).1 after rest
      ∙ ap (λ l. l ++ ps) w
      ∙ append_assoc written (p ∷ []) ps

  -- If `configure_sdm` reports no failure, then what it has written to the device, packet behind
  -- packet, is decoded to one frame for each command of the transaction: start with the magic, update
  -- period, five cleared selections, and the selections made.
  pub configure_sdm-decoded :
      (magic : ℕ) (profile : SdmProfile) (all : Bool) (written : List Bytes)
      → configure_sdm write_error magic profile all [] ≡ (none, written)
      → push default (joined written)
        ≡ some (frames (map quiet (init_requests magic profile all)), default)
  unfolding configure_sdm generated_then
  configure_sdm-decoded magic profile all written e =
      let (packets, made, decoded) = init_packets-decoded magic profile all in
      rw (write_packets-none packets [] written (rw made at e)) decoded
