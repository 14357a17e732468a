-- ===== src/Paging/Tests.antt =====
-- The theorems about page tables on small ones, with an allocator that gives one address after another.
use feral.Base.{
  Bool, ◌≢◌, ◌⊎◌, ℕ, ◌+◌, ◌≡◌, false, none, some, refl, arith, ◌==◌, if◌then◌else◌, replicate,
}
use feral.Status.{Status, is, code}
use feral.Base.Fault.{◌>>=◌}
use feral.Base.Byte.{bit_of}
use feral.Pmm.{MemoryManagementState, mm_lookup_phys_frame}
use feral.Paging.{
  Allocator, Words, x86_find_page_levels, page_align, raw, x86_map_address, x86_unmap_address,
  x86_validate_virtual_address,
}
use feral.Paging.Mmu.{translate}
use feral.Paging.Walk.{HasTables, IsApart, x86_map_address-translate}
use feral.Paging.Unmap.{used_bits, IsCleared, x86_unmap_address-clears}
use feral.Paging.Validate.{x86_validate_virtual_address-misses}
use feral.Paging.Pages.{
  frames_free, pages_free, mm_kernel_alloc_pages, mm_kernel_alloc_pages-repeats,
}

abbrev bump : Allocator
bump = record { Heap = ℕ; malloc = λ size w heap. (heap, w, heap + size) }

-- The tables on the way to address 0x403000: 0x1000, 0x2000, 0x3000 and 0x4000.
abbrev tables : Words
tables a =
    if a == 0x1000
    then 0x2003
    else if a == 0x2000
    then 0x3003
    else if a == 0x3010
    then 0x4003
    else 0

tables-HasTables : HasTables tables 0x1000 0x403000
unfolding x86_find_page_levels page_align
tables-HasTables = record {
  at_level3 = record { present = refl; small = refl; narrow = omega arith };
  at_level2 = record { present = refl; small = refl; narrow = omega arith };
  at_level1 = record { present = refl; small = refl; narrow = omega arith };
}

tables-IsApart : IsApart tables 0x1000 0x403000
unfolding x86_find_page_levels page_align
tables-IsApart = record {
  from_level3 = λ e. omega (arith, e);
  from_level2 = λ e. omega (arith, e);
  from_level1 = λ e. omega (arith, e);
}

clear_entry : raw tables 0x4000 3 ≡ 0
clear_entry = refl

x86_map_address-translate_example :
    (w' : Words) × (x86_map_address bump tables 0x10000 0x1000 0x7ABC 0x403000
      ≡ (Status.success, w', 0x10000))
    × (translate w' 0x1000 0x403000 ≡ some 0x7000)
    × ((a : ℕ) → a ≢ 0x4018 → w' a ≡ tables a)
    × ((other : ℕ)
        → x86_map_address bump w' 0x10000 0x1000 other 0x403000
          ≡ (Status.memory_page_failure, w', 0x10000))
unfolding x86_find_page_levels page_align
x86_map_address-translate_example =
    x86_map_address-translate bump tables 0x10000 0x1000 0x7ABC 0x403000 tables-HasTables
      tables-IsApart (omega arith) refl refl

x86_unmap_address-clears_example :
    ((used_bits (tables 0x1000) ≢ 0)
      × ((w' : Words) × (x86_unmap_address tables 0x1000 0x403000 ≡ (Status.success, w'))
          × IsCleared 0x1000 0x403000 tables w'))
    ⊎ ((used_bits (tables 0x1000) ≡ 0)
        × (x86_unmap_address tables 0x1000 0x403000 ≡ (Status.memory_page_failure, tables)))
x86_unmap_address-clears_example = x86_unmap_address-clears tables 0x1000 0x403000

x86_validate_virtual_address-misses_example :
    (w' : Words) × (x86_map_address bump tables 0x10000 0x1000 0x7ABC 0x403000
      ≡ (Status.success, w', 0x10000))
    × (translate w' 0x1000 0x403000 ≡ some 0x7000)
    × ((before : Bool)
        → x86_validate_virtual_address w' 0x1000 0x403000 before ≡ (Status.success, false))
unfolding x86_find_page_levels page_align
x86_validate_virtual_address-misses_example =
    x86_validate_virtual_address-misses bump tables 0x10000 0x1000 0x7ABC 0x403000 tables-HasTables
      tables-IsApart (omega arith) refl refl (λ e. omega (arith, e)) refl refl
      (λ e. omega (arith, e)) (λ e. omega (arith, e))

abbrev frames : MemoryManagementState
frames = record { frame_size = 4096; bitmask_used_frames = replicate 4 0; max_paddr = 0x10000 }

mm_kernel_alloc_pages-repeats_example :
    (w' : Words) × (mm_kernel_alloc_pages bump frames tables 0x10000 2 0x1000 0x7000 0x403000
      ≡ some (Status.memory_page_failure, none, w', 0x10000))
    × (translate w' 0x1000 0x403000 ≡ some 0x7000)
    × ((a : ℕ) → a ≢ 0x4018 → w' a ≡ tables a)
unfolding x86_find_page_levels page_align frames_free pages_free mm_lookup_phys_frame
    x86_validate_virtual_address is code ◌>>=◌ bit_of
mm_kernel_alloc_pages-repeats_example =
    mm_kernel_alloc_pages-repeats bump frames tables 0x10000 0x1000 0x7000 0x403000 tables-HasTables
      tables-IsApart (omega arith) refl refl (λ e. omega (arith, e)) 0 refl refl
