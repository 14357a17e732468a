-- ===== src/Pmm/Bounds.antt =====
-- Which locations the guard of the two functions lets through, and where they leave the bitmap.
use native.Mathlib.Nat.{le_refl}
use feral.Base.{
  ℕ, ◌*◌, ◌/◌, ◌≤◌, ◌<◌, ◌≡◌, ◌↔◌, none, some, arith, length, get_elem?, get_elem?-ge,
  get_elem?-eq-get_or, ltb-false, Bool, u64,
}
use feral.Status.{Status}
use feral.Pmm.{MemoryManagementState, mm_lookup_phys_frame, mm_allocate_phys_frame, base_addr}
use feral.Pmm.Frames.{IsValid}

-- A location past the highest address is refused by both functions, and nothing changes.
pub guard_refuses :
    (st : MemoryManagementState) (location out : ℕ) (status : Bool)
    → st.max_paddr < location
    → (mm_lookup_phys_frame st location out ≡ some (Status.invalid_memory_location, out))
      × (mm_allocate_phys_frame st location status ≡ some (Status.invalid_memory_location, st))
unfolding mm_lookup_phys_frame mm_allocate_phys_frame
guard_refuses st location out status h = (ground arith, ground arith)

-- On a well formed state `MmLookupPhysFrame` reads outside of the bitmap exactly at the locations
-- that are at most the highest address and whose byte index is not below the length of the bitmap.
pub lookup_faults_iff :
    {st : MemoryManagementState}
    → IsValid st
    → (location out : ℕ)
    → (mm_lookup_phys_frame st location out ≡ none) ↔ (
        (location ≤ st.max_paddr)
        × (length st.bitmask_used_frames ≤ location / (8 * st.frame_size)))
unfolding mm_lookup_phys_frame
lookup_faults_iff {st} v location out = (to, from)
  where
    group : base_addr st location ≡ location / (8 * st.frame_size)
    group =
        let e : u64 (8 * st.frame_size) ≡ 8 * st.frame_size = omega (arith, v.group_fits) in rw e

    to :
        mm_lookup_phys_frame st location out ≡ none
        → (location ≤ st.max_paddr)
          × (length st.bitmask_used_frames ≤ location / (8 * st.frame_size))
    to h =
        ground (arith, group, get_elem?-eq-get_or st.bitmask_used_frames (base_addr st location) 0)

    from :
        ((location ≤ st.max_paddr)
          × (length st.bitmask_used_frames ≤ location / (8 * st.frame_size)))
        → mm_lookup_phys_frame st location out ≡ none
    from h = ground (arith, group, get_elem?-ge st.bitmask_used_frames (base_addr st location))

-- On a well formed state the highest address itself passes the guard of `MmLookupPhysFrame` and of
-- `MmAllocatePhysFrame`, and both then reach behind the bitmap.
pub max_paddr_faults :
    {st : MemoryManagementState}
    → IsValid st
    → (out : ℕ) (status : Bool)
    → (mm_lookup_phys_frame st st.max_paddr out ≡ none)
      × (mm_allocate_phys_frame st st.max_paddr status ≡ none)
unfolding mm_lookup_phys_frame mm_allocate_phys_frame
max_paddr_faults {st} v out status = (
  rw (ltb-false st.max_paddr st.max_paddr (le_refl _), past),
  rw (ltb-false st.max_paddr st.max_paddr (le_refl _), past),
)
  where
    past : get_elem? st.bitmask_used_frames (base_addr st st.max_paddr) ≡ none
    past =
        let e : u64 (8 * st.frame_size) ≡ 8 * st.frame_size = omega (arith, v.group_fits) in
        rw e (get_elem?-ge st.bitmask_used_frames _ (omega (arith, v.one_bit_each)))
