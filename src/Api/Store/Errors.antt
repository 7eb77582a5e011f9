-- ===== src/Api/Store/Errors.antt =====
-- The errors of `process_frame`: the mirror's and the serialisation's.
use Prim.Native.String.{String}
use grok.Base.{◌≢◌, Bool, true, false, Option, none, some, [], ◌∷◌, Bytes, Result, ok, err}
use grok.Core.{Vendor, CaptureFrame}
use grok.Api.Gsmtap.{qc_diag_datagram}
use grok.Api.Store.{
  Decoded, IngestError, out_of_fuel, Env, Service, sent, mirror_payload, mirror_vendor, mirror,
  stored, after_mirror, process_frame,
}

module _ {V : Type 0} (env : Env V) where
  abbrev Ends : Option IngestError × Service V → Type 0
  Ends r = r.0 ≢ some out_of_fuel

  sent-Ends : (o : Option String) (d : Bytes) (s : Service V) → Ends (sent env o d s)
  unfolding sent
  sent-Ends none d s e = cc
  sent-Ends (some x) d s e = cc

  mirror_vendor-Ends :
      (v : Vendor) (enabled : Bool) (p : Bytes) (s : Service V)
      → Ends (mirror_vendor env v enabled p s)
  unfolding mirror_vendor mirror_payload
  mirror_vendor-Ends Vendor.qualcomm true [] s e = cc
  mirror_vendor-Ends Vendor.qualcomm true (a ∷ []) s e = cc
  mirror_vendor-Ends Vendor.qualcomm true (a ∷ b ∷ raw) s e =
      sent-Ends (env.udp_error s.datagrams (qc_diag_datagram raw)) (qc_diag_datagram raw) s e
  mirror_vendor-Ends Vendor.qualcomm false p s e = cc
  mirror_vendor-Ends Vendor.mediatek enabled p s e = cc
  mirror_vendor-Ends Vendor.samsung enabled p s e = cc

  stored-Ends :
      (d : Decoded) (v : Result String V) (t : Result String String) (s : Service V)
      → Ends (stored env d v t s)
  unfolding stored
  stored-Ends d (err x) t s e = cc
  stored-Ends d (ok v) (err x) s e = cc
  stored-Ends d (ok v) (ok t) s e = cc

  after_mirror-Ends :
      (f : CaptureFrame) (r : Option IngestError × Service V) → Ends r → Ends (after_mirror env f r)
  unfolding after_mirror
  after_mirror-Ends f (some x, s) h = h
  after_mirror-Ends f (none, s) h =
      stored-Ends (env.decode f) (env.to_value (env.decode f)) (env.to_string (env.decode f)) s

  pub process_frame-ends :
      (f : CaptureFrame) (s : Service V) → (process_frame env f s).0 ≢ some out_of_fuel
  unfolding process_frame mirror
  process_frame-ends f s =
      after_mirror-Ends f (mirror env f s)
        (mirror_vendor-Ends f.vendor env.gsmtap_enabled f.payload s)
