-- ===== src/Pmm/Tests.antt =====
-- The frame bitmap at concrete states: sixteen frames of 4096 bytes.
use feral.Base.{
  ℕ, zero, suc, ◌*◌, ◌/◌, ◌≤◌, ◌<◌, ◌≡◌, ◌↔◌, [], ◌∷◌, true, false, none, some, arith, refl, get_or,
}
use feral.Base.Byte.{holds_below, holds_at}
use feral.Status.{Status}
use feral.Pmm.{
  MemoryManagementState, mm_lookup_phys_frame, mm_allocate_phys_frame, mm_lookup_free_phys_frame,
  free_block, free_bit, internal_get_value_of_bit,
}
use feral.Pmm.Frames.{IsValid, frame_in_use, frame_count}
use feral.Pmm.Allocate.{
  allocate_frame, mm_allocate_phys_frame_refines, mm_lookup_phys_frame_lem, free-allocate,
}
use feral.Pmm.Bounds.{lookup_faults_iff}
use feral.Pmm.Free.{mm_lookup_free_phys_frame-lowest}

-- Frames 0 to 3 and 5 are in use.
abbrev some_used : MemoryManagementState
some_used = record { frame_size = 4096; bitmask_used_frames = 0x2F ∷ 0 ∷ []; max_paddr = 65536 }

abbrev all_used : MemoryManagementState
all_used = record { frame_size = 4096; bitmask_used_frames = 0xFF ∷ 0xFF ∷ []; max_paddr = 65536 }

bytes_of_two : (a b : ℕ) → a < 256 → b < 256 → (i : ℕ) → get_or (a ∷ b ∷ []) i 0 < 256
bytes_of_two a b ha hb zero = ha
bytes_of_two a b ha hb (suc zero) = hb
bytes_of_two a b ha hb (suc (suc i)) = omega arith

some_used-IsValid : IsValid some_used
some_used-IsValid = record {
  frame_size_pos = omega arith;
  group_fits = omega arith;
  paddr_fits = omega arith;
  one_bit_each = refl;
  bytes = bytes_of_two 0x2F 0 (omega arith) (omega arith);
}

all_used-IsValid : IsValid all_used
all_used-IsValid = record {
  frame_size_pos = omega arith;
  group_fits = omega arith;
  paddr_fits = omega arith;
  one_bit_each = refl;
  bytes = bytes_of_two 0xFF 0xFF (omega arith) (omega arith);
}

all_used_table : holds_below 16 (λ frame. frame_in_use all_used frame) ≡ true
unfolding holds_below
all_used_table = refl

all_used-in_use : (frame : ℕ) → frame < frame_count all_used → frame_in_use all_used frame ≡ true
all_used-in_use frame h = holds_at 16 (λ frame. frame_in_use all_used frame) frame all_used_table h

finds_frame_four : mm_lookup_free_phys_frame some_used ≡ some (Status.success, 0x4000)
unfolding mm_lookup_free_phys_frame free_block free_bit internal_get_value_of_bit
finds_frame_four = refl

mm_allocate_phys_frame_refines_example :
    (st' : MemoryManagementState) × (mm_allocate_phys_frame some_used 0x4000 true
      ≡ some ((allocate_frame (frame_in_use some_used) 4 true).0, st'))
    × (frame_in_use st' ≡ (allocate_frame (frame_in_use some_used) 4 true).1)
    × IsValid st'
mm_allocate_phys_frame_refines_example =
    mm_allocate_phys_frame_refines some_used some_used-IsValid 0x4000 (omega arith) (omega arith)
      true

mm_lookup_phys_frame_lem_example :
    mm_lookup_phys_frame some_used 0x5123 7 ≡ some (Status.success, 1)
mm_lookup_phys_frame_lem_example =
    mm_lookup_phys_frame_lem some_used some_used-IsValid 0x5123 (omega arith) (omega arith) 7

free-allocate_example :
    (st' : MemoryManagementState) × (mm_allocate_phys_frame some_used 0x4000 true
      ≡ some (Status.success, st'))
    × (mm_allocate_phys_frame st' 0x4000 false ≡ some (Status.success, some_used))
free-allocate_example = free-allocate some_used-IsValid 0x4000 (omega arith) (omega arith) refl

lookup_faults_iff_example :
    (mm_lookup_phys_frame some_used 0x10000 0 ≡ none)
    ↔ ((0x10000 ≤ 65536) × (2 ≤ 0x10000 / (8 * 4096)))
lookup_faults_iff_example = lookup_faults_iff some_used-IsValid 0x10000 0

mm_lookup_free_phys_frame-lowest_example :
    (frame : ℕ) × (mm_lookup_free_phys_frame some_used ≡ some (Status.success, frame * 4096))
    × (frame < frame_count some_used)
    × (frame_in_use some_used frame ≡ false)
    × ((lower : ℕ) → lower < frame → frame_in_use some_used lower ≡ true)
mm_lookup_free_phys_frame-lowest_example =
    mm_lookup_free_phys_frame-lowest some_used-IsValid 9 (omega arith) refl
