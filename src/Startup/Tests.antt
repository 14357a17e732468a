-- ===== src/Startup/Tests.antt =====
-- The theorems about the start of the memory manager on a small machine.
use feral.Base.{ℕ, ◌*◌, ◌≡◌, some, List, [], ◌∷◌, length, arith}
use feral.Paging.{Words}
use feral.Pmm.{MemoryManagementState}
use feral.Pmm.Frames.{IsValid, frame_in_use}
use feral.Heap.{AllocatorState, mm_create_allocator_state}
use feral.Startup.{
  MmStructureType, MultibootMmapEntry, BootMemoryRange, MmMemoryRange, MmCreateInfo, Outcome,
  heap_size, handle_memory, convert_ranges, scan_ranges, ki_initialize_mem_mgr,
}
use feral.Startup.Ranges.{All, IsOrdered, handle_memory-scan}
use feral.Startup.Manager.{IsReady, taken_at_start, ki_initialize_mem_mgr_lem}

abbrev low : MmMemoryRange
low = record {
  s_type = MmStructureType.reserved_area_range;
  start = 0;
  end = 0xA0000;
  size = 0xA0000;
}

abbrev high : MmMemoryRange
high = record {
  s_type = MmStructureType.free_area_range;
  start = 0x100000;
  end = 0x20000000;
  size = 0x1FF00000;
}

abbrev machine : MmCreateInfo
machine = record { frame_size = 4096; ranges = low ∷ high ∷ []; safe_pmm_area = 0x200000 }

machine-IsReady : IsReady 0x100000 machine
unfolding scan_ranges
machine-IsReady = record {
  positive = omega arith;
  group = omega arith;
  word = omega arith;
  kernel_below = omega arith;
  bitmap_fits = omega arith;
  heap_fits = omega arith;
  no_wrap = omega arith;
  heap_no_wrap = omega arith;
}

abbrev no_heap : AllocatorState
no_heap = record { arenas = 0 }

abbrev zeros : Words
zeros = λ a. 0

ki_initialize_mem_mgr_lem_example :
    (st : MemoryManagementState) × (ki_initialize_mem_mgr 4096 0x100000 machine no_heap zeros
      ≡ some (
        Outcome.running st,
        (mm_create_allocator_state 1 0x205000 heap_size zeros).0,
        (mm_create_allocator_state 1 0x205000 heap_size zeros).1,
      ))
    × IsValid st
    × ((frame : ℕ) → frame_in_use st frame ≡ taken_at_start 0x100000 machine frame)
unfolding scan_ranges
ki_initialize_mem_mgr_lem_example =
    ki_initialize_mem_mgr_lem 0x100000 machine machine-IsReady 4096 no_heap zeros (omega arith)
      (omega arith)

abbrev memory_map : ℕ → MultibootMmapEntry
memory_map index = record { addr = 0x100000 * index; len = 0xA0000; type = index }

handle_memory-scan_example :
    (ranges : List BootMemoryRange) × (highest : ℕ) × (handle_memory 96 24 memory_map 0
      ≡ some (ranges, highest))
    × (length (convert_ranges ranges) ≡ 4)
    × ((scan_ranges (convert_ranges ranges) 0 0).1 ≡ highest)
    × All (IsOrdered highest) (convert_ranges ranges)
handle_memory-scan_example = handle_memory-scan 96 24 0 memory_map (omega arith)
