-- ===== src/Agent/World/Opening.antt =====
-- The captures and the uplink, on a machine on which they can be opened.
use Prim.Native.String.{String}
use grok.Base.{◌≡◌, refl, ap, ◌∙◌, Option, none, some, [], ◌∷◌, ◌++◌, Bytes, ok}
use grok.Agent.World.{Machine, World, and_next, open_optional, connect_optional, open_outputs}

-- A new file or connection, if one is asked for.
abbrev pub fresh_output : Option String → Option Bytes
fresh_output none = none
fresh_output (some path) = some []

module _ (machine : Machine) (creates : (path : String) → machine.create_error path ≡ none)
    (connects : (address : String) → machine.connect_error address ≡ none) where
  open_optional-willing :
      (path : Option String) (w : World)
      → (v : World) × (open_optional machine path w ≡ (ok (fresh_output path), v))
        × (v.port ≡ w.port)
        × (v.outputs ≡ w.outputs)
  unfolding open_optional and_next
  open_optional-willing none w = (w, refl, refl, refl)
  open_optional-willing (some path) w =
      (record w { created = w.created ++ (path ∷ []) }, rw (creates path) refl, refl, refl)

  connect_optional-willing :
      (address : Option String) (w : World)
      → (v : World) × (connect_optional machine address w ≡ (ok (fresh_output address), v))
        × (v.port ≡ w.port)
        × (v.outputs ≡ w.outputs)
  unfolding connect_optional and_next
  connect_optional-willing none w = (w, refl, refl, refl)
  connect_optional-willing (some address) w = (
    record w { connected = w.connected ++ (address ∷ []) },
    rw (connects address) refl,
    refl,
    refl,
  )

  pub open_outputs-willing :
      (raw capture server : Option String) (w : World)
      → (v : World) × (open_outputs machine raw capture server w ≡ (ok tt, v))
        × (v.port ≡ w.port)
        × (v.outputs ≡ record {
          raw = fresh_output raw;
          capture = fresh_output capture;
          wire = fresh_output server;
          stdout = w.outputs.stdout;
        })
  unfolding open_outputs and_next
  open_outputs-willing raw capture server w =
      let (a, e, p, o) = open_optional-willing raw w in
      let (b, f, q, r) = open_optional-willing capture a in
      let (c, g, t, u) = connect_optional-willing server b in
      (
        record c {
          outputs = record {
            raw = fresh_output raw;
            capture = fresh_output capture;
            wire = fresh_output server;
            stdout = c.outputs.stdout;
          };
        },
        rw (e, f, g),
        t ∙ q ∙ p,
        ap
            (λ x. record {
              raw = fresh_output raw;
              capture = fresh_output capture;
              wire = fresh_output server;
              stdout = x.stdout;
            })
            (u ∙ r ∙ o),
      )
