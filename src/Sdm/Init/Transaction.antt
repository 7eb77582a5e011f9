-- ===== src/Sdm/Init/Transaction.antt =====
-- What the other end decodes of the transaction.
use grok.Base.{
  ℕ, ◌≤◌, ◌≡◌, refl, ap, ◌∙◌, Bool, true, false, some, List, [], ◌∷◌, ◌++◌, map, length, All, Bytes,
  to_be_u32, ok, arith,
}
use grok.Sdm.{generate_packet}
use grok.Sdm.Decoder.{default, push}
use grok.Sdm.Decoder.RoundTrip.{Request, Item, IsClean, generated, stream, frames, push-stream}
use grok.Sdm.Init.{
  SdmProfile, signaling, radio, full, direction_dm, group_control, item_selection, select_all,
  deselect_all, item_commands, profile_items, for_commands, select_items, init_packets,
}

-- A control command as a request.
abbrev pub control : ℕ → Bytes → Request
control command payload = record {
  direction = direction_dm;
  group = group_control;
  command = command;
  payload = payload;
  timestamp = 0;
}

-- The item selections of a transaction: everything, or the profile's common and LTE items.
abbrev pub selection_requests : SdmProfile → Bool → List Request
selection_requests profile true = map (λ c. control c select_all) item_commands
selection_requests profile false =
    control 0x10 (item_selection (profile_items profile).0)
    ∷ control 0x20 (item_selection (profile_items profile).1)
    ∷ []

-- Start, update period, every selection cleared, and the selections made.
abbrev pub init_requests : ℕ → SdmProfile → Bool → List Request
init_requests magic profile all =
    control 0 (to_be_u32 magic)
    ∷ control 6 (5 ∷ [])
    ∷ (map (λ c. control c deselect_all) item_commands ++ selection_requests profile all)

abbrev pub quiet : Request → Item
quiet q = record { noise = []; request = q }

abbrev pub joined : List Bytes → Bytes
joined [] = []
joined (p ∷ ps) = p ++ joined ps

joined-generated : (qs : List Request) → joined (map generated qs) ≡ stream (map quiet qs)
joined-generated [] = refl
joined-generated (q ∷ qs) = ap (λ r. generated q ++ r) (joined-generated qs)

init_packets-eq :
    (magic : ℕ) (profile : SdmProfile) (all : Bool)
    → init_packets magic profile all ≡ ok (map generated (init_requests magic profile all))
unfolding init_packets select_items for_commands profile_items generate_packet
init_packets-eq magic signaling true = refl
init_packets-eq magic radio true = refl
init_packets-eq magic full true = refl
init_packets-eq magic signaling false = refl
init_packets-eq magic radio false = refl
init_packets-eq magic full false = refl

control-IsClean :
    (command : ℕ) (payload : Bytes)
    → length payload ≤ 65521
    → IsClean (quiet (control command payload))
control-IsClean command payload h = record {
  quiet = tt;
  sendable = record { fits = h; stamped = omega arith };
}

pairs-IsClean :
    (common lte : Bytes)
    → length (item_selection common) ≤ 65521
    → length (item_selection lte) ≤ 65521
    → All IsClean
        (map quiet (control 0x10 (item_selection common) ∷ control 0x20 (item_selection lte) ∷ []))
pairs-IsClean common lte hc hl = (
  control-IsClean 0x10 (item_selection common) hc,
  (control-IsClean 0x20 (item_selection lte) hl, tt),
)

commands-IsClean :
    (payload : Bytes)
    → length payload ≤ 65521
    → (commands : List ℕ) → All IsClean (map quiet (map (λ c. control c payload) commands))
commands-IsClean payload h [] = tt
commands-IsClean payload h (c ∷ cs) = (control-IsClean c payload h, commands-IsClean payload h cs)

selection_requests-IsClean :
    (profile : SdmProfile) (all : Bool) → All IsClean (map quiet (selection_requests profile all))
unfolding profile_items
selection_requests-IsClean profile true = commands-IsClean select_all (omega arith) item_commands
selection_requests-IsClean signaling false =
    pairs-IsClean (profile_items signaling).0 (profile_items signaling).1 (omega arith)
      (omega arith)
selection_requests-IsClean radio false =
    pairs-IsClean (profile_items radio).0 (profile_items radio).1 (omega arith) (omega arith)
selection_requests-IsClean full false =
    pairs-IsClean (profile_items full).0 (profile_items full).1 (omega arith) (omega arith)

init_requests-IsClean :
    (magic : ℕ) (profile : SdmProfile) (all : Bool)
    → All IsClean (map quiet (init_requests magic profile all))
init_requests-IsClean magic profile all = (
  control-IsClean 0 (to_be_u32 magic) (omega arith),
  (
    control-IsClean 6 (5 ∷ []) (omega arith),
    (
      control-IsClean 0x10 deselect_all (omega arith),
      (
        control-IsClean 0x20 deselect_all (omega arith),
        (
          control-IsClean 0x30 deselect_all (omega arith),
          (
            control-IsClean 0x40 deselect_all (omega arith),
            (
              control-IsClean 0x44 deselect_all (omega arith),
              selection_requests-IsClean profile all,
            ),
          ),
        ),
      ),
    ),
  ),
)

-- The transaction is always generated, and a decoder that gets its packets back to back returns one
-- frame for each command: start with the magic, update period, five cleared selections, and then the
-- five full ones or the two of the profile.
pub init_packets-decoded :
    (magic : ℕ) (profile : SdmProfile) (all : Bool)
    → (packets : List Bytes) × (init_packets magic profile all ≡ ok packets)
      × (push default (joined packets)
          ≡ some (frames (map quiet (init_requests magic profile all)), default))
init_packets-decoded magic profile all = (
  map generated (init_requests magic profile all),
  init_packets-eq magic profile all,
  ap (push default) (joined-generated (init_requests magic profile all))
      ∙ push-stream (map quiet (init_requests magic profile all))
          (init_requests-IsClean magic profile all),
)
