-- ===== src/Startup.antt =====
-- How the memory map becomes the state of the frame bitmap: `HandleMemory` of
-- kern/entry/mb2entry.c, the memory branch of `KiStartupSystem` of kern/kernel_main.c and
-- `KiInitializeMemMgr` of kern/mm/mmsetup.c. `none` is a trap, an access outside of the bitmap, or
-- a loop that ran out of fuel.
pub mod Ranges
pub mod Marking
pub mod Rounds
pub mod Manager
mod Tests
use feral.Base.{
  ℕ, zero, suc, ◌+◌, ◌-◌, ◌*◌, ◌/◌, ◌%◌, List, [], ◌∷◌, Bool, true, false, not, Option, none, some,
  ltb, ◌==◌, if◌then◌else◌, replicate, length, u64, sub64,
}
use feral.Base.Fault.{◌>>=◌}
use feral.Status.{Status, is}
use feral.Paging.{Words}
use feral.Pmm.{MemoryManagementState, mm_allocate_phys_frame}
use feral.Heap.{AllocatorState, mm_create_allocator_state}

pub data MmStructureType : Type 0 where
  management_create_info physical_allocation_info physical_frame_allocator physical_frame_block :
      MmStructureType
  virtual_allocation_info virtual_frame_allocator virtual_frame_block : MmStructureType
  heap_allocation_info heap_allocator : MmStructureType
  free_area_range used_area_range reserved_area_range other_area_range : MmStructureType

-- `multiboot_mmap_entry`
pub record MultibootMmapEntry : Type 0 where
  pub addr : ℕ
  pub len : ℕ
  pub type : ℕ

pub record BootMemoryRange : Type 0 where
  pub usage : MmStructureType
  pub start : ℕ
  pub end : ℕ

-- The `switch` over the type of an entry.
unfoldable pub usage_of : ℕ → MmStructureType
usage_of type =
    if type == 1
    then MmStructureType.free_area_range
    else if type == 2
    then MmStructureType.reserved_area_range
    else if type == 3
    then MmStructureType.reserved_area_range
    else if type == 4
    then MmStructureType.reserved_area_range
    else MmStructureType.other_area_range

-- The loop of `HandleMemory`: the ranges, and what `MaxAddress` is then.
unfoldable pub read_entries : (ℕ → MultibootMmapEntry) → ℕ → ℕ → ℕ → List BootMemoryRange × ℕ
unfolding usage_of
read_entries entries zero index max_address = ([], max_address)
read_entries entries (suc left) index max_address =
    let entry = entries index in
    let end = u64 (entry.addr + entry.len) in
    let range : BootMemoryRange = record {
      usage = usage_of entry.type;
      start = entry.addr;
      end = end;
    } in
    let (ranges, highest) =
      read_entries entries left (index + 1) (if ltb max_address end then end else max_address) in
    (range ∷ ranges, highest)

unfoldable pub handle_memory :
    ℕ → ℕ → (ℕ → MultibootMmapEntry) → ℕ → Option (List BootMemoryRange × ℕ)
unfolding read_entries
handle_memory size entry_size entries max_address =
    if entry_size == 0 then none else some (read_entries entries (size / entry_size) 0 max_address)

pub record MmMemoryRange : Type 0 where
  pub s_type : MmStructureType
  pub start : ℕ
  pub end : ℕ
  pub size : ℕ

-- One round of the loop of `KiStartupSystem`.
unfoldable pub convert_range : BootMemoryRange → MmMemoryRange
convert_range range = record {
  s_type =
      if ltb range.start (1024 * 1024) then MmStructureType.reserved_area_range else range.usage;
  start = range.start;
  end = range.end;
  size = sub64 range.end range.start;
}

unfoldable pub convert_ranges : List BootMemoryRange → List MmMemoryRange
unfolding convert_range
convert_ranges [] = []
convert_ranges (range ∷ ranges) = convert_range range ∷ convert_ranges ranges

-- `MmCreateInfo` with what its `pPhysicalAllocationInfo` points to.
pub record MmCreateInfo : Type 0 where
  pub frame_size : ℕ
  pub ranges : List MmMemoryRange
  pub safe_pmm_area : ℕ

-- `sizeof(BootMemoryRange)` is 24, `sizeof(MmMemoryRange)` is 40; `location` is where the ranges are.
unfoldable pub create_info : ℕ → List BootMemoryRange → MmCreateInfo
unfolding convert_ranges
create_info location ranges =
    let n = length ranges in
    let converted = u64 (location + 24 * (n + 1)) in
    record {
      frame_size = 4096;
      ranges = convert_ranges ranges;
      safe_pmm_area = u64 (converted + 40 * (n + 4096));
    }

-- The first loop of `KiInitializeMemMgr`: `TotalSystemMemory` and `MaximumPAddr`.
unfoldable pub scan_ranges : List MmMemoryRange → ℕ → ℕ → ℕ × ℕ
scan_ranges [] total highest = (total, highest)
scan_ranges (range ∷ ranges) total highest =
    scan_ranges ranges (u64 (total + range.size))
      (if ltb highest range.end then range.end else highest)

-- What a function comes to that can stop the machine by `KiStopError`.
pub data Outcome : Type 0 where
  running : MemoryManagementState → Outcome
  stopped : Status → Outcome

-- The loops that take frames. `VALIDATE_SUCCESS` evaluates the call once more before it stops.
unfoldable pub mark_frames : ℕ → MemoryManagementState → ℕ → ℕ → Option Outcome
mark_frames zero st limit index = none
mark_frames (suc fuel) st limit index =
    if not (ltb index limit) then some (Outcome.running st) else (do
      (status, st') ← mm_allocate_phys_frame st index true
      if is status Status.success
          then mark_frames fuel st' limit (u64 (index + st.frame_size))
          else (do
            (again, st'') ← mm_allocate_phys_frame st' index true
            some (Outcome.stopped again)))

abbrev pub heap_size : ℕ
heap_size = 1024 * 1024 * 8

-- The outcome, and the heap: `old` until it is set up between the two loops.
unfoldable pub ki_initialize_mem_mgr :
    ℕ → ℕ → MmCreateInfo → AllocatorState → Words → Option (Outcome × AllocatorState × Words)
unfolding scan_ranges
ki_initialize_mem_mgr fuel kernel_start info old w =
    let (total, highest) = scan_ranges info.ranges 0 0 in
    let group = u64 (8 * info.frame_size) in
    let buffer_size = highest / group in
    let st : MemoryManagementState = record {
      frame_size = info.frame_size;
      bitmask_used_frames = replicate buffer_size 0;
      max_paddr = highest;
    } in
    if group == 0 then none else (do
      marked ← mark_frames fuel st (u64 (info.safe_pmm_area + buffer_size)) kernel_start
      elim marked [
        | Outcome.stopped status ↦ some (Outcome.stopped status, old, w)
        | Outcome.running st' ↦
            let heap_addr = u64 (info.safe_pmm_area + buffer_size + info.frame_size) in
            let (heap, w') = mm_create_allocator_state 1 heap_addr heap_size w in
            (do outcome ← mark_frames fuel st' heap_size heap_addr; some (outcome, heap, w'))
      ])
