-- ===== src/Paging/Pages.antt =====
-- `MmKernelAllocPages` and `MmKernelDeallocPages` of kern/arch/x86_64/mm/paging.c.
use feral.Base.{
  ℕ, zero, suc, ◌+◌, ◌*◌, ◌/◌, ◌%◌, ◌^◌, ◌<◌, ◌≡◌, ◌≢◌, Bool, true, false, not, Option, none, some,
  refl, ◌==◌, if◌then◌else◌, u64, ne→==,
}
use feral.Base.Fault.{◌>>=◌}
use feral.Status.{Status, is, code}
use feral.Pmm.{MemoryManagementState, mm_lookup_phys_frame}
use feral.Paging.{
  Allocator, Words, phys, entry_at, kern_phys_to_virt, raw, x86_validate_virtual_address,
  x86_map_address,
}
use feral.Paging.Mmu.{translate, is_canonical}
use feral.Paging.Walk.{HasTables, IsApart, l₀, pt_of, x86_map_address-translate}

-- It does nothing yet.
unfoldable pub mm_kernel_dealloc_pages : ℕ → ℕ → Status
mm_kernel_dealloc_pages pages address = Status.success

-- The first loop, with `left` rounds to go: whether no frame is in use.
unfoldable pub frames_free : MemoryManagementState → ℕ → ℕ → ℕ → Option Bool
frames_free st paddr zero page_index = some true
frames_free st paddr (suc left) page_index =
    let rest = frames_free st paddr left (page_index + 1) in
    do
      (status, page_status) ← mm_lookup_phys_frame st (u64 (paddr + 4096 * page_index)) 0
      if not (page_status == 0)
          then some false
          else if not (is status Status.success)
          then some false
          else rest

-- The second loop: whether no page is mapped. The status is not looked at.
unfoldable pub pages_free : Words → ℕ → ℕ → ℕ → ℕ → Bool
pages_free w pml4 vaddr zero page_index = true
pages_free w pml4 vaddr (suc left) page_index =
    let rest = pages_free w pml4 vaddr left (page_index + 1) in
    let (status, unavailable) =
      x86_validate_virtual_address w pml4 (u64 (vaddr + 4096 * page_index)) false in
    if unavailable then false else rest

module _ (allocator : Allocator) where
  open allocator use {Heap}

  -- The third loop.
  unfoldable pub map_pages : Words → Heap → ℕ → ℕ → ℕ → ℕ → Status × Words × Heap
  map_pages w heap pml4 paddr vaddr zero = (Status.success, w, heap)
  map_pages w heap pml4 paddr vaddr (suc left) =
      let (status, w', heap') = x86_map_address allocator w heap pml4 paddr vaddr in
      let rest = map_pages w' heap' pml4 paddr vaddr left in
      if is status Status.success then rest else (status, w', heap')

  -- A pointer that is not given is 0. The status, what is stored in `*Result`, the tables and the heap.
  unfoldable pub mm_kernel_alloc_pages :
      MemoryManagementState
      → Words
      → Heap
      → ℕ
      → ℕ
      → ℕ
      → ℕ
      → Option (Status × Option ℕ × Words × Heap)
  mm_kernel_alloc_pages st w heap pages pml4 base_addr base_vaddr =
      let vaddr = if base_vaddr == 0 then kern_phys_to_virt base_addr else base_vaddr in
      let (status, w', heap') = map_pages w heap pml4 base_addr vaddr pages in
      do
        physical ← frames_free st base_addr pages 0
        if not physical
            then some (Status.memory_page_conflict, none, w, heap)
            else if not (pages_free w pml4 vaddr pages 0)
            then some (Status.memory_page_conflict, none, w, heap)
            else if is status Status.success
            then some (Status.success, some vaddr, w', heap')
            else some (status, none, w', heap')

  module _ (st : MemoryManagementState) (w : Words) (heap : Heap) (pml4 paddr vaddr : ℕ)
      (tables : HasTables w pml4 vaddr) (apart : IsApart w pml4 vaddr) (fits : paddr < 2 ^ 52)
      (canonical : is_canonical vaddr ≡ true)
      (clear : raw w (pt_of w pml4 vaddr) (l₀ w pml4 vaddr) ≡ 0) (given : vaddr ≢ 0) where
    -- For two pages or more at a given canonical virtual address whose upper entries name tables
    -- below 2 ^ 52 and not large pages and whose clear page entry is none of the entries above it,
    -- and a physical address of 52 bits, with the frames and the pages found free,
    -- `MmKernelAllocPages` fails with a memory page failure with the first page mapped, as the
    -- processor walks the tables, and no word but its entry changed: no further page is mapped,
    -- and the first one is not taken back.
    pub mm_kernel_alloc_pages-repeats :
        (more : ℕ)
        → frames_free st paddr (suc (suc more)) 0 ≡ some true
        → pages_free w pml4 vaddr (suc (suc more)) 0 ≡ true
        → (w' : Words) × (mm_kernel_alloc_pages st w heap (suc (suc more)) pml4 paddr vaddr
            ≡ some (Status.memory_page_failure, none, w', heap))
          × (translate w' (phys pml4) vaddr ≡ some (paddr / 4096 * 4096 + vaddr % 4096))
          × ((a : ℕ) → a ≢ entry_at (pt_of w pml4 vaddr) (l₀ w pml4 vaddr) → w' a ≡ w a)
    unfolding mm_kernel_alloc_pages map_pages is code
    mm_kernel_alloc_pages-repeats more frames pages =
        let (w', first, found, others, again) =
          x86_map_address-translate allocator w heap pml4 paddr vaddr tables apart fits canonical
            clear in
        (w', rw (frames, ◌>>=◌, ne→== vaddr 0 given, pages, first, again paddr) refl, found, others)
