-- ===== src/Qualcomm/Mask/Bitmap.antt =====
-- The bitmap that `set_mask_request` sends.
use grok.Base.{
  ℕ, zero, suc, ◌+◌, ◌/◌, ◌%◌, ◌≤◌, ◌<◌, ◌≡◌, refl, ◌∙◌, Bool, true, false, ◌||◌, List, [], ◌∷◌,
  ◌++◌, ltb, to_le_u32, ◌==◌, if◌then◌else◌, length, length-set, length-replicate, replicate, set,
  get_or, Bytes, IsByte, All, ok, err, arith, contains, test_bit, test_bit-bit_or, bit_or-IsByte,
  Bool-cases, inl, inr,
}
use grok.Qualcomm.Mask.{item_out_of_range, set_item, fill_mask, set_mask_request}

-- Bit `item` of a mask, as the modem reads it.
abbrev pub mask_bit : Bytes → ℕ → Bool
mask_bit mask item = test_bit (get_or mask (item / 8) 0) (item % 8)

get_or-IsByte : (mask : Bytes) (i : ℕ) → All IsByte mask → get_or mask i 0 < 256
get_or-IsByte [] i h = omega arith
get_or-IsByte (b ∷ bs) zero h = h.0
get_or-IsByte (b ∷ bs) (suc i) h = get_or-IsByte bs i h.1

set-IsByte : (mask : Bytes) (i v : ℕ) → v < 256 → All IsByte mask → All IsByte (set mask i v)
set-IsByte [] i v hv h = tt
set-IsByte (b ∷ bs) zero v hv h = (hv, h.1)
set-IsByte (b ∷ bs) (suc i) v hv h = (h.0, set-IsByte bs i v hv h.1)

get_or-set :
    (mask : Bytes) (i j v : ℕ)
    → i < length mask
    → get_or (set mask i v) j 0 ≡ (if j == i then v else get_or mask j 0)
get_or-set [] i j v h = absurd (omega arith)
get_or-set (b ∷ bs) zero zero v h = ground arith
get_or-set (b ∷ bs) zero (suc j) v h = ground arith
get_or-set (b ∷ bs) (suc i) zero v h = ground arith
get_or-set (b ∷ bs) (suc i) (suc j) v h = get_or-set bs i j v (omega arith) ∙ ground arith

set_item-IsByte : (item : ℕ) (mask : Bytes) → All IsByte mask → All IsByte (set_item item mask)
unfolding set_item
set_item-IsByte item mask h =
    set-IsByte mask (item / 8) _ (bit_or-IsByte _ _ (get_or-IsByte mask _ h) (omega arith)) h

same_byte : (item j : ℕ) → j / 8 ≡ item / 8 → (j % 8 == item % 8) ≡ (j == item)
same_byte item j h = ground arith

other_byte : (item j : ℕ) → (j / 8 == item / 8) ≡ false → (j == item) ≡ false
other_byte item j h = ground arith

mask_bit-set_item :
    (item j : ℕ) (mask : Bytes)
    → All IsByte mask
    → item / 8 < length mask
    → mask_bit (set_item item mask) j ≡ (j == item || mask_bit mask j)
unfolding set_item
mask_bit-set_item item j mask h lt = elim (Bool-cases (j / 8 == item / 8)) [
  | inl same ↦
      let q : j / 8 ≡ item / 8 = ground arith in
      rw (get_or-set mask (item / 8) (j / 8) _ lt, same)
        (test_bit-bit_or (get_or mask (item / 8) 0) (item % 8) (j % 8) (get_or-IsByte mask _ h)
            (omega arith) (omega arith)
          ∙ rw (same_byte item j q, q))
  | inr other ↦ rw (get_or-set mask (item / 8) (j / 8) _ lt, other) (rw (other_byte item j other))
]

length-set_item : (item : ℕ) (mask : Bytes) → length (set_item item mask) ≡ length mask
unfolding set_item
length-set_item item mask = length-set mask _ _

get_or-replicate : (n i : ℕ) → get_or {A = ℕ} (replicate n 0) i 0 ≡ 0
get_or-replicate zero i = refl
get_or-replicate (suc n) zero = refl
get_or-replicate (suc n) (suc i) = get_or-replicate n i

replicate-IsByte : (n : ℕ) → All IsByte (replicate n 0)
replicate-IsByte zero = tt
replicate-IsByte (suc n) = (omega arith, replicate-IsByte n)

zero_bit : (k : ℕ) → test_bit 0 k ≡ false
zero_bit k = ground arith

-- The mask that the loop makes of `mask`: the bits of the items are added to it.
record Filled (items : List ℕ) (mask result : Bytes) : Type 0 where
  same_length : length result ≡ length mask
  bytes : All IsByte result
  bits : (j : ℕ) → mask_bit result j ≡ (contains j items || mask_bit mask j)

module _ (equip_id last_item : ℕ) where
  fill_mask-ok :
      (items : List ℕ) (mask : Bytes)
      → All (λ item. item ≤ last_item) items
      → All IsByte mask
      → length mask ≡ last_item / 8 + 1
      → (result : Bytes) × (fill_mask equip_id last_item items mask ≡ ok result)
        × Filled items mask result
  unfolding fill_mask contains
  fill_mask-ok [] mask h hb hl =
      (mask, refl, record { same_length = refl; bytes = hb; bits = λ j. refl })
  fill_mask-ok (item ∷ items) mask h hb hl =
      let (result, e, f) =
        fill_mask-ok items (set_item item mask) h.1 (set_item-IsByte item mask hb)
          (length-set_item item mask ∙ hl) in
      (
        result,
        ground arith,
        record {
          same_length = f.same_length ∙ length-set_item item mask;
          bytes = f.bytes;
          bits = λ j. ground (arith, f.bits j, mask_bit-set_item item j mask hb (omega arith));
        },
      )

  fill_mask-err :
      (items : List ℕ) (mask : Bytes) (item : ℕ)
      → contains item items ≡ true
      → last_item < item
      → (bad : ℕ) × (fill_mask equip_id last_item items mask
          ≡ err (item_out_of_range equip_id bad last_item))
        × (last_item < bad)
        × (contains bad items ≡ true)
  unfolding fill_mask contains
  fill_mask-err [] mask item m lt = cc
  fill_mask-err (x ∷ items) mask item m lt = elim (Bool-cases (ltb last_item x)) [
    | inl over ↦ (x, rw over, ground arith, ground arith)
    | inr fits ↦
        let (bad, e, b, c) = fill_mask-err items (set_item x mask) item (ground arith) lt in
        (bad, rw fits e, b, ground arith)
  ]

-- The bytes in front of the mask.
abbrev pub set_mask_header : ℕ → ℕ → Bytes
set_mask_header equip_id last_item =
    0x73 ∷ 0 ∷ 0 ∷ 0 ∷ (to_le_u32 3 ++ (to_le_u32 equip_id ++ to_le_u32 last_item))

-- For an equipment ID of four bits and items up to the last one, the request is built: 16 bytes of
-- header and a mask of `last_item / 8 + 1` bytes, in which bit `j` is set exactly when `j` is one
-- of the items.
pub set_mask_request_bits :
    (equip_id last_item : ℕ) (items : List ℕ)
    → equip_id < 16
    → All (λ item. item ≤ last_item) items
    → (mask : Bytes) × (set_mask_request equip_id last_item items
        ≡ ok (set_mask_header equip_id last_item ++ mask))
      × (length mask ≡ last_item / 8 + 1)
      × All IsByte mask
      × ((j : ℕ) → mask_bit mask j ≡ contains j items)
unfolding set_mask_request
set_mask_request_bits equip_id last_item items he h =
    let zeros : Bytes = replicate (last_item / 8 + 1) 0 in
    let (mask, e, f) =
      fill_mask-ok equip_id last_item items zeros h (replicate-IsByte _) (length-replicate _ 0) in
    (
      mask,
      ground arith,
      f.same_length ∙ length-replicate _ 0,
      f.bytes,
      λ j. ground (arith, f.bits j, get_or-replicate (last_item / 8 + 1) (j / 8), zero_bit (j % 8)),
    )

-- With a valid equipment ID, an item beyond the last one makes the whole request fail, and the
-- error names the ID, an item of the list that is beyond the last one, and the last one.
pub set_mask_request_refused :
    (equip_id last_item : ℕ) (items : List ℕ) (item : ℕ)
    → equip_id < 16
    → contains item items ≡ true
    → last_item < item
    → (bad : ℕ) × (set_mask_request equip_id last_item items
        ≡ err (item_out_of_range equip_id bad last_item))
      × (last_item < bad)
      × (contains bad items ≡ true)
unfolding set_mask_request
set_mask_request_refused equip_id last_item items item he m lt =
    let zeros : Bytes = replicate (last_item / 8 + 1) 0 in
    let (bad, e, b, c) = fill_mask-err equip_id last_item items zeros item m lt in
    (bad, ground arith, b, c)
