-- ===== src/Paging.antt =====
-- The four-level page tables of kern/arch/x86_64/mm/paging.c. An entry is the word at its address
-- in physical memory. A pointer reaches physical memory as the start-up page tables map it: the
-- addresses from `KERN_VIRT_OFFSET` on, and those below it, to physical memory from 0 on.
pub mod Levels
pub mod Mmu
pub mod Walk
pub mod Entries
pub mod Unmap
pub mod Validate
pub mod Pages
mod Tests
use feral.Base.{
  ℕ, zero, suc, ◌+◌, ◌-◌, ◌*◌, ◌/◌, ◌%◌, ◌^◌, Bool, true, false, ◌&&◌, not, Option, none, some, ltb,
  leb, ◌==◌, if◌then◌else◌, u16, u64, sub64, bit_and, bit_or, ◌>>>◌,
}
use feral.Base.Fault.{◌>>=◌}
use feral.Status.{Status, is}

-- The words of physical memory, by address: the raw page table entries, and what the heap keeps.
abbrev pub Words : Type 0
Words = ℕ → ℕ

-- What the mapping functions ask of the kernel heap: `MmKernelMalloc`, which works on the memory.
pub record Allocator : Type 1 where
  pub Heap : Type 0
  pub malloc : ℕ → Words → Heap → ℕ × Words × Heap

abbrev pub kern_virt_offset : ℕ
kern_virt_offset = 0xFFFFFF8000000000

abbrev pub kern_virt_to_phys : ℕ → ℕ
kern_virt_to_phys x = sub64 x kern_virt_offset

abbrev pub kern_phys_to_virt : ℕ → ℕ
kern_phys_to_virt x = u64 (x + kern_virt_offset)

unfoldable pub page_align : ℕ → ℕ
page_align x = bit_and x 0xFFFFFFFFFFFFF000

abbrev pub page_flag_present : ℕ
page_flag_present = 1

abbrev pub page_huge : ℕ
page_huge = 128

-- The physical address behind a pointer.
abbrev pub phys : ℕ → ℕ
phys p = if ltb p kern_virt_offset then p else p - kern_virt_offset

-- `table[index].Raw`
abbrev pub entry_at : ℕ → ℕ → ℕ
entry_at table index = phys table + 8 * index

abbrev pub raw : Words → ℕ → ℕ → ℕ
raw w table index = w (entry_at table index)

abbrev pub set_raw : Words → ℕ → ℕ → ℕ → Words
set_raw w table index v = λ a. if a == entry_at table index then v else w a

-- The bit fields `Present` and `Writable` of an entry.
abbrev pub is_present : ℕ → Bool
is_present r = r % 2 == 1

abbrev pub with_present : ℕ → ℕ
with_present r = r / 2 * 2 + 1

abbrev pub with_writable : ℕ → ℕ
with_writable r = r / 4 * 4 + 2 + r % 2

-- An entry with an address stored by `|=`, and then made present and writable.
abbrev pub entry_of : ℕ → ℕ → ℕ
entry_of old address = with_writable (with_present (bit_or old (page_align address)))

-- `KiSetMemoryBytes(table, 0, sizeof(PageMapEntry) * 512)`
abbrev pub clear_table : Words → ℕ → Words
clear_table w table = λ a. if leb (phys table) a && ltb a (phys table + 4096) then 0 else w a

-- `Levels[0]` to `Levels[3]`
pub record PageLevels : Type 0 where
  pub level0 : ℕ
  pub level1 : ℕ
  pub level2 : ℕ
  pub level3 : ℕ

unfoldable pub x86_find_page_levels : ℕ → PageLevels
x86_find_page_levels address = record {
  level0 = u16 (bit_and (address >>> 12) 0x1FF);
  level1 = u16 (bit_and (address >>> 21) 0x1FF);
  level2 = u16 (bit_and (address >>> 30) 0x1FF);
  level3 = u16 (bit_and (address >>> 39) 0x1FF);
}

-- The status, and what `*Result` holds then; `result` is what it held before.
unfoldable pub x86_validate_virtual_address : Words → ℕ → ℕ → Bool → Status × Bool
x86_validate_virtual_address w pml4 address result =
    let levels = x86_find_page_levels address in
    let pdp = page_align (raw w pml4 levels.level3) in
    let pd = page_align (raw w pdp levels.level2) in
    let pt = page_align (raw w pdp levels.level1) in
    if pml4 == 0
    then (Status.memory_page_failure, result)
    else if not (is_present (raw w pml4 levels.level3))
    then (Status.success, false)
    else if not (is_present (raw w pdp levels.level2))
    then (Status.success, false)
    else if not (is_present (raw w pd levels.level1))
    then (Status.success, false)
    else if is_present (raw w pt levels.level0)
    then (Status.success, true)
    else (Status.success, false)

-- What one level of `x86UnmapAddress` comes to: the function is done and leaves these words, the
-- entry is not in use, or it goes on with the next table.
pub data Unmapping : Type 0 where
  done : Words → Unmapping
  failed : Unmapping
  go_on : ℕ → Unmapping

unfoldable pub unmap_level : Words → ℕ → ℕ → Unmapping
unmap_level w table index =
    if not (bit_and (raw w table index) (bit_or page_flag_present page_huge) == 0)
    then done (set_raw w table index 0)
    else if not (bit_and (raw w table index) page_flag_present == 0)
    then go_on (kern_phys_to_virt (page_align (raw w table index)))
    else failed

abbrev pub next_level : Words → Unmapping → (ℕ → Status × Words) → Status × Words
next_level w (done w') k = (Status.success, w')
next_level w failed k = (Status.memory_page_failure, w)
next_level w (go_on table) k = k table

-- The last level clears the entry in its second branch too.
abbrev pub last_level : Words → ℕ → ℕ → Unmapping → Status × Words
last_level w table index (done w') = (Status.success, w')
last_level w table index failed = (Status.memory_page_failure, w)
last_level w table index (go_on next) = (Status.success, set_raw w table index 0)

unfoldable pub x86_unmap_address : Words → ℕ → ℕ → Status × Words
unfolding unmap_level
x86_unmap_address w pml4 virtual =
    let levels = x86_find_page_levels virtual in
    next_level w (unmap_level w pml4 levels.level3) λ pdp.
      next_level w (unmap_level w pdp levels.level2) λ pd.
        next_level w (unmap_level w pd levels.level1)
          λ pt. last_level w pt levels.level0 (unmap_level w pt levels.level0)

module _ (allocator : Allocator) where
  open allocator use {Heap, malloc}

  -- One level of `x86MapAddress`: the next table, which is made if the entry is not present.
  unfoldable pub next_table : Words → Heap → ℕ → ℕ → ℕ × Words × Heap
  next_table w heap table index =
      let (fresh, allocated, heap') = malloc (8 * 512) w heap in
      let cleared = clear_table allocated fresh in
      let made =
        set_raw cleared table index
          (entry_of (raw cleared table index) (kern_virt_to_phys fresh)) in
      if is_present (raw w table index)
      then (page_align (raw w table index), w, heap)
      else (fresh, made, heap')

  unfoldable pub x86_map_address : Words → Heap → ℕ → ℕ → ℕ → Status × Words × Heap
  unfolding next_table
  x86_map_address w heap pml4 physical virtual =
      let levels = x86_find_page_levels virtual in
      let (pdp, w₁, heap₁) = next_table w heap pml4 levels.level3 in
      let (pd, w₂, heap₂) = next_table w₁ heap₁ pdp levels.level2 in
      let (pt, w₃, heap₃) = next_table w₂ heap₂ pd levels.level1 in
      if is_present (raw w₃ pt levels.level0) then (Status.memory_page_failure, w₃, heap₃) else (
        Status.success,
        set_raw w₃ pt levels.level0 (entry_of (raw w₃ pt levels.level0) physical),
        heap₃,
      )
