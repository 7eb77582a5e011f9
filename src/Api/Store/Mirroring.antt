-- ===== src/Api/Store/Mirroring.antt =====
-- What the GSMTAP mirror leaves alone.
use Prim.Native.String.{String}
use grok.Base.{◌++◌, ℕ, ◌≡◌, refl, Bytes, Bool, true, false, Option, none, some, [], ◌∷◌}
use grok.Core.{Vendor, CaptureFrame}
use grok.Api.Gsmtap.{qc_diag_datagram}
use grok.Api.Store.{Env, Service, sent, mirror_payload, mirror_vendor, mirror}

module _ {V : Type 0} (env : Env V) where
  -- The service as the mirror leaves it: only the datagrams may be others.
  abbrev Mirrors : Service V → Service V → Type 0
  Mirrors before s = (s.store ≡ before.store) × (s.live ≡ before.live)

  sent-Mirrors : (o : Option String) (d : Bytes) (s : Service V) → Mirrors s (sent env o d s).1
  unfolding sent
  sent-Mirrors none d s = (refl, refl)
  sent-Mirrors (some e) d s = (refl, refl)

  mirror_payload-Mirrors : (p : Bytes) (s : Service V) → Mirrors s (mirror_payload env p s).1
  unfolding mirror_payload
  mirror_payload-Mirrors [] s = (refl, refl)
  mirror_payload-Mirrors (a ∷ []) s = (refl, refl)
  mirror_payload-Mirrors (a ∷ b ∷ raw) s =
      sent-Mirrors (env.udp_error s.datagrams (qc_diag_datagram raw)) (qc_diag_datagram raw) s

  mirror_vendor-Mirrors :
      (v : Vendor) (enabled : Bool) (p : Bytes) (s : Service V)
      → Mirrors s (mirror_vendor env v enabled p s).1
  unfolding mirror_vendor
  mirror_vendor-Mirrors Vendor.qualcomm true p s = mirror_payload-Mirrors p s
  mirror_vendor-Mirrors Vendor.qualcomm false p s = (refl, refl)
  mirror_vendor-Mirrors Vendor.mediatek enabled p s = (refl, refl)
  mirror_vendor-Mirrors Vendor.samsung enabled p s = (refl, refl)

  -- The mirror leaves the store and the texts alone.
  pub mirror-Mirrors :
      (f : CaptureFrame) (s : Service V)
      → ((mirror env f s).1.store ≡ s.store) × ((mirror env f s).1.live ≡ s.live)
  unfolding mirror
  mirror-Mirrors f s = mirror_vendor-Mirrors f.vendor env.gsmtap_enabled f.payload s

  -- The mirror of the DIAG packet behind the two bytes of a Qualcomm log code.
  pub mirror-diag :
      (f : CaptureFrame) (a b : ℕ) (raw : Bytes) (s : Service V)
      → f.vendor ≡ Vendor.qualcomm
      → f.payload ≡ a ∷ b ∷ raw
      → env.gsmtap_enabled ≡ true
      → env.udp_error s.datagrams (qc_diag_datagram raw) ≡ none
      → mirror env f s ≡ (none, record s { datagrams = s.datagrams ++ (qc_diag_datagram raw ∷ []) })
  unfolding mirror mirror_vendor mirror_payload sent
  mirror-diag f a b raw s vendor payload enabled sends = rw (vendor, payload, enabled, sends)
