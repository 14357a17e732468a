-- ===== src/Pmm.antt =====
-- The physical frame bitmap of kern/mm/mmsetup.c: `MmState` and the functions that look up,
-- take, give back and find frames. A read or write outside of the bitmap is `none`.
pub mod Bounds
pub mod Free
pub mod Frames
mod Tests
pub mod Allocate
use feral.Base.{
  ℕ, zero, suc, ◌+◌, ◌*◌, ◌/◌, ◌%◌, List, Bool, true, false, not, ◌&&◌, Option, none, some, ltb,
  ◌==◌, if◌then◌else◌, get_elem?, set, u8, u64, ◌<<<◌, bit_and,
}
use feral.Base.Fault.{◌>>=◌}
use feral.Base.Byte.{bit_of, with_bit, without_bit}
use feral.Status.{Status}

-- `BitmaskUsedFrames` is the bytes that the pointer owns, `frame_size` is `pAllocInfo->FrameSize`.
pub record MemoryManagementState : Type 0 where
  pub frame_size : ℕ
  pub bitmask_used_frames : List ℕ
  pub max_paddr : ℕ

-- `InteralGetValueOfBit`
pub internal_get_value_of_bit : ℕ → ℕ → Bool
internal_get_value_of_bit val bit_num = not (bit_and val (1 <<< bit_num) == 0)

-- The index of the byte that holds a location's frame, and the frame's bit in it.
abbrev pub base_addr : MemoryManagementState → ℕ → ℕ
base_addr st location = location / u64 (8 * st.frame_size)

abbrev pub bit_num : MemoryManagementState → ℕ → ℕ
bit_num st location = u8 (location / st.frame_size % 8)

-- The last argument is what `*Status` holds before the call.
unfoldable pub mm_lookup_phys_frame : MemoryManagementState → ℕ → ℕ → Option (Status × ℕ)
mm_lookup_phys_frame st location out =
    if ltb st.max_paddr location then some (Status.invalid_memory_location, out) else do
      containing_byte ← get_elem? st.bitmask_used_frames (base_addr st location)
      some (Status.success, bit_of containing_byte (bit_num st location))

-- `status` is true to take the frame and false to give it back.
pub mm_allocate_phys_frame :
    MemoryManagementState → ℕ → Bool → Option (Status × MemoryManagementState)
mm_allocate_phys_frame st location status =
    if ltb st.max_paddr location then some (Status.invalid_memory_location, st) else do
      let base = base_addr st location
      let bit = bit_num st location
      containing_byte ← get_elem? st.bitmask_used_frames base
      let in_use = not (bit_of containing_byte bit == 0)
      let store =
          λ (v : ℕ). record st { bitmask_used_frames = set st.bitmask_used_frames base (u8 v) }
      if in_use && not status
          then some (Status.success, store (without_bit containing_byte bit))
          else if not in_use && status
          then some (Status.success, store (with_bit containing_byte bit))
          else some (Status.memory_access_violation, st)

-- The inner loop of `MmLookupFreePhysFrame`, with `left` rounds to go at `bit`.
pub free_bit : ℕ → ℕ → ℕ → Option ℕ
free_bit zero bit byte = none
free_bit (suc left) bit byte =
    let rest = free_bit left (bit + 1) byte in
    if internal_get_value_of_bit byte bit then rest else some bit

-- The outer loop, with `left` rounds to go at `block`.
pub free_block : MemoryManagementState → ℕ → ℕ → Option (Status × ℕ)
free_block st zero block = some (Status.memory_page_failure, 0)
free_block st (suc left) block =
    let rest = free_block st left (block + 1) in
    do
      byte ← get_elem? st.bitmask_used_frames block
      elim (free_bit 8 0 byte) [
        | some bit ↦
            some (Status.success, u64 (u64 (st.frame_size * block * 8) + u64 (bit * st.frame_size)))
        | none ↦ rest
      ]

-- The status and what `*Location` is set to.
pub mm_lookup_free_phys_frame : MemoryManagementState → Option (Status × ℕ)
mm_lookup_free_phys_frame st = free_block st st.max_paddr 0
