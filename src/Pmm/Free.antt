-- ===== src/Pmm/Free.antt =====
-- `MmLookupFreePhysFrame`: it finds the lowest free frame, and leaves the bitmap if there is none.
use native.Mathlib.Nat.{div-le_self, div-lt_self}
use feral.Base.{
  ℕ, zero, suc, ◌+◌, ◌*◌, ◌/◌, ◌%◌, ◌≤◌, ◌<◌, ◌≡◌, ◌≢◌, Bool, true, false, not, ◌&&◌, ◌||◌, Option,
  none, some, arith, ltb, ◌==◌, length, get_elem?, get_or, get_elem?-ge, get_elem?-eq-get_or, inl,
  inr, u64, refl, Option-cases, ◌∙◌, sym,
}
use native.Mathlib.Decide.{dec_lt}
use mathlib.Core.Bool.{false≢true}
use feral.Base.Byte.{bit_of, holds_below, holds_at}
use feral.Base.Fault.{◌>>=◌}
use feral.Status.{Status}
use feral.Pmm.{
  MemoryManagementState, internal_get_value_of_bit, free_bit, free_block, mm_lookup_free_phys_frame,
}
use feral.Pmm.Frames.{IsValid, frame_in_use, frame_count, frame-lt-max_paddr}

-- What the inner loop finds in a byte, over all bytes: the lowest clear bit.
lowest_clear : ℕ → Option ℕ → Bool
lowest_clear c (some b) =
    ltb b 8 && (bit_of c b == 0) && holds_below 8 (λ k. not (ltb k b) || not (bit_of c k == 0))
lowest_clear c none = holds_below 8 (λ k. not (bit_of c k == 0))

free_bit_table : holds_below 256 (λ c. lowest_clear c (free_bit 8 0 c)) ≡ true
unfolding holds_below lowest_clear free_bit internal_get_value_of_bit
free_bit_table = refl

free_bit_lem : (c : ℕ) → c < 256 → lowest_clear c (free_bit 8 0 c) ≡ true
free_bit_lem c h = holds_at 256 (λ c. lowest_clear c (free_bit 8 0 c)) c free_bit_table h

free_bit-some :
    (c b : ℕ)
    → c < 256
    → free_bit 8 0 c ≡ some b
    → (b < 8) × (bit_of c b ≡ 0) × ((k : ℕ) → k < b → not (bit_of c k == 0) ≡ true)
unfolding lowest_clear
free_bit-some c b h e = (
  ground (arith, found),
  ground (arith, found),
  λ k lt. ground (arith, found, holds_at 8 (λ k. not (ltb k b) || not (bit_of c k == 0)) k),
)
  where
    found : lowest_clear c (some b) ≡ true
    found = rw e at (free_bit_lem c h)

free_bit-none :
    (c : ℕ) → c < 256 → free_bit 8 0 c ≡ none → (k : ℕ) → k < 8 → not (bit_of c k == 0) ≡ true
unfolding lowest_clear
free_bit-none c h e k lt = holds_at 8 (λ k. not (bit_of c k == 0)) k (rw e at (free_bit_lem c h)) lt

module _ {st : MemoryManagementState} (v : IsValid st) where
  -- What the search promises: the lowest free frame from `block` on.
  IsLowestFree : ℕ → ℕ → Type 0
  IsLowestFree block frame =
      (frame < frame_count st)
      × (frame_in_use st frame ≡ false)
      × ((lower : ℕ) → 8 * block ≤ lower → lower < frame → frame_in_use st lower ≡ true)

  -- No arithmetic of the result wraps.
  location_lem :
      (block bit : ℕ)
      → bit < 8
      → 8 * block + bit < frame_count st
      → u64 (u64 (st.frame_size * block * 8) + u64 (bit * st.frame_size))
        ≡ (8 * block + bit) * st.frame_size
  location_lem block bit h inside =
      grind (arith, v.paddr_fits, frame-lt-max_paddr v (8 * block + bit) inside)

  -- The frames of one byte.
  module _ (block : ℕ) where
    abbrev c : ℕ
    c = get_or st.bitmask_used_frames block 0

    frame_in_use_of_byte :
        (frame : ℕ) → frame / 8 ≡ block → frame_in_use st frame ≡ not (bit_of c (frame % 8) == 0)
    frame_in_use_of_byte frame e = rw e refl

    full_byte :
        free_bit 8 0 c ≡ none → (frame : ℕ) → frame / 8 ≡ block → frame_in_use st frame ≡ true
    full_byte full frame e =
        frame_in_use_of_byte frame e
        ∙ free_bit-none c (v.bytes block) full (frame % 8) (omega arith)

    found_in_byte :
        {bit : ℕ}
        → free_bit 8 0 c ≡ some bit
        → 8 * block < frame_count st
        → IsLowestFree block (8 * block + bit) × (bit < 8)
    unfolding IsLowestFree
    found_in_byte {bit} found inside =
        let (small, clear, below) = free_bit-some c bit (v.bytes block) found in
        (
          (
            omega arith,
            ground (arith, frame_in_use_of_byte (8 * block + bit) (omega arith)),
            λ lower lo hi.
                frame_in_use_of_byte lower (omega arith) ∙ below (lower % 8) (omega arith),
          ),
          small,
        )

  free_block-lowest :
      (left block free : ℕ)
      → 8 * block ≤ free
      → free / 8 < block + left
      → free < frame_count st
      → frame_in_use st free ≡ false
      → (frame : ℕ) × (free_block st left block ≡ some (Status.success, frame * st.frame_size))
        × IsLowestFree block frame
  unfolding free_block IsLowestFree
  free_block-lowest zero block free lo hi inside is_free = absurd (omega arith)
  free_block-lowest (suc left) block free lo hi inside is_free =
      elim (Option-cases (free_bit 8 0 (c block))) [
        | inl full ↦
            let past : free / 8 ≢ block = λ e. ground (arith, full_byte block full free e) in
            let (frame, result, lowest_free) =
              free_block-lowest left (block + 1) free (omega arith) (omega arith) inside is_free in
            let (fits, is_free', lowest) = lowest_free in
            (
              frame,
              rw (read, ◌>>=◌, full) result,
              (
                fits,
                is_free',
                λ lower lo' hi'. elim (dec_lt lower (8 * (block + 1))) [
                  | yes p ↦ full_byte block full lower (omega arith)
                  | no p ↦ lowest lower (omega arith) hi'
                ],
              ),
            )
        | inr (bit, found) ↦
            let (lowest, small) = found_in_byte block found (omega arith) in
            (
              8 * block + bit,
              rw (read, ◌>>=◌, found, location_lem block bit small lowest.0) refl,
              lowest,
            )
      ]
    where
      read : get_elem? st.bitmask_used_frames block ≡ some (c block)
      read = get_elem?-eq-get_or st.bitmask_used_frames block 0 (omega arith)

  -- `length ≤ max_paddr`, so the loop bound of the code reaches every byte.
  length-le-max_paddr : length st.bitmask_used_frames ≤ st.max_paddr
  length-le-max_paddr = rw v.one_bit_each (div-le_self st.max_paddr (8 * st.frame_size))

  -- On a well formed state, if the bitmap has a free frame, `MmLookupFreePhysFrame` succeeds with
  -- the address of the lowest free one.
  pub mm_lookup_free_phys_frame-lowest :
      (free : ℕ)
      → free < frame_count st
      → frame_in_use st free ≡ false
      → (frame : ℕ) × (mm_lookup_free_phys_frame st ≡ some (Status.success, frame * st.frame_size))
        × (frame < frame_count st)
        × (frame_in_use st frame ≡ false)
        × ((lower : ℕ) → lower < frame → frame_in_use st lower ≡ true)
  unfolding mm_lookup_free_phys_frame IsLowestFree
  mm_lookup_free_phys_frame-lowest free inside is_free =
      let (frame, result, lowest_free) =
        free_block-lowest st.max_paddr 0 free (omega arith) (omega (arith, length-le-max_paddr))
          inside is_free in
      let (fits, is_free', lowest) = lowest_free in
      (frame, result, fits, is_free', λ lower hi. lowest lower (omega arith) hi)

  free_block-full :
      (left block : ℕ)
      → ((frame : ℕ) → frame < frame_count st → frame_in_use st frame ≡ true)
      → block ≤ length st.bitmask_used_frames
      → length st.bitmask_used_frames < block + left
      → free_block st left block ≡ none
  unfolding free_block IsLowestFree
  free_block-full zero block all lo hi = absurd (omega arith)
  free_block-full (suc left) block all lo hi = elim (dec_lt block (length st.bitmask_used_frames)) [
    | yes inside ↦ elim (Option-cases (free_bit 8 0 (c block))) [
      | inl full ↦
          rw (get_elem?-eq-get_or st.bitmask_used_frames block 0 inside, ◌>>=◌, full)
            (free_block-full left (block + 1) all (omega arith) (omega arith))
      | inr (bit, found) ↦
          let (lowest, small) = found_in_byte block found (omega arith) in
          let in_use : frame_in_use st (8 * block + bit) ≡ true = all (8 * block + bit) lowest.0 in
          absurd (false≢true (sym lowest.1 ∙ in_use))
    ]
    | no past ↦ rw (get_elem?-ge st.bitmask_used_frames block (omega arith))
  ]

  -- On a well formed state with a highest address above zero, if every frame of the bitmap is in
  -- use, `MmLookupFreePhysFrame` reads behind the bitmap and does not report
  -- `STATUS_MEMORY_PAGE_FAILURE`.
  pub mm_lookup_free_phys_frame-full :
      0 < st.max_paddr
      → ((frame : ℕ) → frame < frame_count st → frame_in_use st frame ≡ true)
      → mm_lookup_free_phys_frame st ≡ none
  unfolding mm_lookup_free_phys_frame
  mm_lookup_free_phys_frame-full pos all = free_block-full st.max_paddr 0 all (omega arith) shorter
    where
      shorter : length st.bitmask_used_frames < 0 + st.max_paddr
      shorter =
          rw v.one_bit_each (
            omega
              (arith, div-lt_self {k = 8 * st.frame_size} pos (omega (arith, v.frame_size_pos))))
