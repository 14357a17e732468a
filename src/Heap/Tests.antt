-- ===== src/Heap/Tests.antt =====
-- The theorem about the heap on the one that the kernel makes.
use feral.Base.{ℕ, ◌≢◌, ◌≡◌, some, [], ◌∷◌, arith, refl, ◌%◌}
use feral.Paging.{Words, page_align, raw, kern_virt_to_phys, next_table}
use feral.Heap.{mm_create_allocator_state, create_arenas, create_arena, internal_initialize_node}
use feral.Heap.Malloc.{addresses, addresses-same}
use feral.Heap.Tables.{heap_allocator, next_table-same}

addresses-same_example :
    (addresses 8
        (mm_create_allocator_state 1 0x400000 0x800000 (λ a. 0)).0
        (24 ∷ 4096 ∷ 128 ∷ [])
        (mm_create_allocator_state 1 0x400000 0x800000 (λ a. 0)).1
      ≡ some (0xFFFFFF8000555579 ∷ 0xFFFFFF8000555579 ∷ 0xFFFFFF8000555579 ∷ []))
    × (0xFFFFFF8000555579 % 8 ≡ 1)
addresses-same_example =
    addresses-same 0x400000 0x800000 (λ a. 0) (omega arith) 8 (24 ∷ 4096 ∷ 128 ∷ []) refl

next_table-same_example :
    (fresh : ℕ) × (w' : Words) × (w'' : Words) × (next_table
        (heap_allocator 8)
        (mm_create_allocator_state 1 0x400000 0x800000 (λ a. 0)).1
        (mm_create_allocator_state 1 0x400000 0x800000 (λ a. 0)).0
        0x1000
        3
      ≡ (fresh, w', (mm_create_allocator_state 1 0x400000 0x800000 (λ a. 0)).0))
    × (page_align (raw w' 0x1000 3) ≢ kern_virt_to_phys fresh)
    × (next_table
          (heap_allocator 8)
          w'
          (mm_create_allocator_state 1 0x400000 0x800000 (λ a. 0)).0
          fresh
          5
        ≡ (fresh, w'', (mm_create_allocator_state 1 0x400000 0x800000 (λ a. 0)).0))
unfolding mm_create_allocator_state create_arenas create_arena internal_initialize_node
next_table-same_example =
    next_table-same 0x400000 0x800000 (λ a. 0) (omega arith) (omega arith) 8 0x1000 3 5 refl
      (omega arith) refl (omega arith)
