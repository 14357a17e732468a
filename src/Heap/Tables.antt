-- ===== src/Heap/Tables.antt =====
-- Page tables of kern/arch/x86_64/mm/paging.c in the memory that kern/mm/heap.c gives for them.
use mathlib.Core.Path.{subst}
use feral.Base.{
  ℕ, ◌+◌, ◌*◌, ◌/◌, ◌%◌, ◌^◌, ◌≤◌, ◌<◌, ◌≡◌, ◌≢◌, Option, none, some, refl, ap, sym, ◌∙◌, arith,
  u64,
}
use feral.Paging.{
  Words, Allocator, phys, kern_virt_offset, kern_virt_to_phys, page_align, entry_at, raw, set_raw,
  entry_of, clear_table, next_table,
}
use feral.Paging.Entries.{phys_high, written-other, written-inside, cleared-other, this_word}
use feral.Paging.Levels.{page_align-entry_of}
use feral.Heap.{AllocatorState, mm_kernel_malloc, mm_create_allocator_state}
use feral.Heap.Nodes.{Apart}
use feral.Heap.Malloc.{IsReady, mm_kernel_malloc-IsReady, made, made-IsReady, start, first_area}

-- `MmKernelMalloc` as what the page tables ask for; a search that runs out of fuel gives null.
abbrev taken : AllocatorState → Words → Option (ℕ × Words) → ℕ × Words × AllocatorState
taken state w none = (0, w, state)
taken state w (some (p, w')) = (p, w', state)

abbrev pub heap_allocator : ℕ → Allocator
heap_allocator fuel = record {
  Heap = AllocatorState;
  malloc = λ size w state. taken state w (mm_kernel_malloc fuel state size w);
}

module _ (allocator : Allocator) where
  open allocator use {Heap, malloc}

  -- Where the entry is clear, a table is made.
  next_table-absent :
      (w w₁ : Words) (heap heap₁ : Heap) (table index fresh : ℕ)
      → malloc 4096 w heap ≡ (fresh, w₁, heap₁)
      → raw w table index ≡ 0
      → next_table allocator w heap table index ≡ (
        fresh,
        set_raw
            (clear_table w₁ fresh)
            table
            index
            (entry_of (raw (clear_table w₁ fresh) table index) (kern_virt_to_phys fresh)),
        heap₁,
      )
  unfolding next_table
  next_table-absent w w₁ heap heap₁ table index fresh gives free = rw (gives, free) refl

-- An address that is one above a multiple of 8 is not what its entry holds.
misaligned : (x : ℕ) → x < 2 ^ 64 → x % 8 ≡ 1 → page_align (entry_of 0 x) ≢ x
misaligned x small odd e =
    let same : x / 4096 * 4096 ≡ x = sym (page_align-entry_of x small) ∙ e in omega arith

-- A memory with the words that a heap is read from.
IsReady-kept :
    (state : AllocatorState) (node prev at : ℕ) (w w' : Words)
    → IsReady state node prev at w
    → w' (phys state.arenas + 24) ≡ w (phys state.arenas + 24)
    → w' (phys node + 24) ≡ w (phys node + 24)
    → w' (phys node + 32) ≡ w (phys node + 32)
    → w' (phys node + 0) ≡ w (phys node + 0)
    → w' (phys prev + 8) ≡ w (phys prev + 8)
    → IsReady state node prev at w'
IsReady-kept state node prev at w w' ready e₁ e₂ e₃ e₄ e₅ = record {
  nodes_apart = ready.nodes_apart;
  arena_apart = ready.arena_apart;
  arena_apart_prev = ready.arena_apart_prev;
  node_given = ready.node_given;
  prev_given = ready.prev_given;
  handed_out = e₁ ∙ ready.handed_out;
  behind = e₂ ∙ ready.behind;
  alone = e₃ ∙ ready.alone;
  not_last = ap (λ v. v / 2 ^ 32) e₄ ∙ ready.not_last;
  at_prev = e₅ ∙ ready.at_prev;
}

module _ (fuel : ℕ) (state : AllocatorState) (node prev at : ℕ) where
  -- The address that is handed out.
  abbrev given : ℕ
  given = u64 (at + 1)

  -- What `next_table` leaves where the entry is not present.
  next_table-made :
      (w : Words) (table index : ℕ)
      → IsReady state node prev at w
      → raw w table index ≡ 0
      → (w₁ : Words) × (next_table (heap_allocator fuel) w state table index ≡ (
        given,
        set_raw
            (clear_table w₁ given)
            table
            index
            (entry_of (raw (clear_table w₁ given) table index) (kern_virt_to_phys given)),
        state,
      ))
        × ((a : ℕ) → Apart a 8 (phys node) 48 → Apart a 8 (phys prev + 32) 8 → w₁ a ≡ w a)
        × IsReady state node prev at w₁
  next_table-made w table index ready free =
      let (w₁, gives, ready', same) =
        mm_kernel_malloc-IsReady state node prev at w ready fuel 4096 in
      (
        w₁,
        next_table-absent (heap_allocator fuel) w w₁ state state table index given
            (ap (taken state w) gives) free,
        same,
        ready',
      )

  -- The entry of a table, and the memory for it, lie apart from each other and from the heap.
  pub record HasRoom (table index : ℕ) : Type 0 where
    pub entry_room : Apart (entry_at table index) 8 (phys given) 4096
    pub entry_node : Apart (entry_at table index) 8 (phys node) 48
    pub entry_prev : Apart (entry_at table index) 8 (phys prev) 48
    pub entry_arena : Apart (entry_at table index) 8 (phys state.arenas) 32
    pub room_node : Apart (phys given) 4096 (phys node) 48
    pub room_prev : Apart (phys given) 4096 (phys prev) 48
    pub room_arena : Apart (phys given) 4096 (phys state.arenas) 32

  made_tables-same :
      (w : Words) (table index next_index : ℕ)
      → IsReady state node prev at w
      → HasRoom table index
      → raw w table index ≡ 0
      → given % 8 ≡ 1
      → kern_virt_offset ≤ given
      → given < 2 ^ 64
      → next_index < 512
      → (w' : Words) × (w'' : Words) × (next_table (heap_allocator fuel) w state table index
          ≡ (given, w', state))
        × (page_align (raw w' table index) ≢ kern_virt_to_phys given)
        × (next_table (heap_allocator fuel) w' state given next_index ≡ (given, w'', state))
  made_tables-same w table index next_index ready room free odd high low below =
      let (w₁, makes, same, ready₁) = next_table-made w table index ready free in
      let clear = clear_table w₁ given in
      let cell = entry_at table index in
      let at_cell : raw clear table index ≡ 0 =
        cleared-other w₁ (phys given) cell (omega (arith, room.entry_room))
        ∙ same cell room.entry_node (omega (arith, room.entry_prev))
        ∙ free in
      let v = entry_of (raw clear table index) (kern_virt_to_phys given) in
      let w' = set_raw clear table index v in
      let kept : (a : ℕ) → Apart a 8 (phys given) 4096 → Apart cell 8 a 8 → w' a ≡ w₁ a =
        λ a out other.
          written-other w₁ (phys given) cell v a (omega (arith, other)) (omega (arith, out)) in
      let ready' : IsReady state node prev at w' =
        IsReady-kept state node prev at w₁ w' ready₁
          (kept _ (omega (arith, room.room_arena)) (omega (arith, room.entry_arena)))
          (kept _ (omega (arith, room.room_node)) (omega (arith, room.entry_node)))
          (kept _ (omega (arith, room.room_node)) (omega (arith, room.entry_node)))
          (kept _ (omega (arith, room.room_node)) (omega (arith, room.entry_node)))
          (kept _ (omega (arith, room.room_prev)) (omega (arith, room.entry_prev))) in
      let free' : raw w' given next_index ≡ 0 =
        written-inside w₁ (phys given) cell v (entry_at given next_index)
          (omega (arith, room.entry_room)) (omega arith) (omega arith) in
      let (w₂, makes', same', ready₂) = next_table-made w' given next_index ready' free' in
      (
        w',
        _,
        makes,
        subst (λ t. page_align t ≢ kern_virt_to_phys given)
            (sym (
              this_word cell v (clear cell)
              ∙ ap (λ x. entry_of x (kern_virt_to_phys given)) at_cell))
            (misaligned (kern_virt_to_phys given) (omega arith) (omega arith)),
        makes',
      )

module _ (heap_area heap_size : ℕ) (w : Words) (low : heap_area + heap_size < 2 ^ 39)
    (large : 8192 ≤ heap_size) where
  has_room :
      (fuel table index : ℕ)
      → Apart (entry_at table index) 8 heap_area heap_size
      → HasRoom fuel
          (made heap_area heap_size w (omega arith)).0
          (start heap_area heap_size w (omega arith) + 80)
          (start heap_area heap_size w (omega arith) + 32)
          (first_area heap_area heap_size w (omega arith))
          table
          index
  unfolding mm_create_allocator_state
  has_room fuel table index out =
      let s = start heap_area heap_size w (omega arith) in
      let at = first_area heap_area heap_size w (omega arith) in
      let room : phys (u64 (at + 1)) ≡ heap_area + 33 + 8 * (heap_size / 48 + 1) =
        phys_high (u64 (at + 1)) (omega arith) ∙ omega arith in
      let node : phys (s + 80) ≡ heap_area + 80 = phys_high (s + 80) (omega arith) ∙ omega arith in
      let prev : phys (s + 32) ≡ heap_area + 32 = phys_high (s + 32) (omega arith) ∙ omega arith in
      let arena : phys s ≡ heap_area = phys_high s (omega arith) ∙ omega arith in
      record {
        entry_room = omega (arith, out, room);
        entry_node = omega (arith, out, node);
        entry_prev = omega (arith, out, prev);
        entry_arena = omega (arith, out, arena);
        room_node = omega (arith, room, node);
        room_prev = omega (arith, room, prev);
        room_arena = omega (arith, room, arena);
      }

  pub next_table-same :
      (fuel table index next_index : ℕ)
      → heap_area % 8 ≡ 0
      → Apart (entry_at table index) 8 heap_area heap_size
      → raw (mm_create_allocator_state 1 heap_area heap_size w).1 table index ≡ 0
      → next_index < 512
      → (fresh : ℕ) × (w' : Words) × (w'' : Words) × (next_table
            (heap_allocator fuel)
            (mm_create_allocator_state 1 heap_area heap_size w).1
            (mm_create_allocator_state 1 heap_area heap_size w).0
            table
            index
          ≡ (fresh, w', (mm_create_allocator_state 1 heap_area heap_size w).0))
        × (page_align (raw w' table index) ≢ kern_virt_to_phys fresh)
        × (next_table
              (heap_allocator fuel)
              w'
              (mm_create_allocator_state 1 heap_area heap_size w).0
              fresh
              next_index
            ≡ (fresh, w'', (mm_create_allocator_state 1 heap_area heap_size w).0))
  next_table-same fuel table index next_index aligned out free below =
      let s = start heap_area heap_size w (omega arith) in
      let area = first_area heap_area heap_size w (omega arith) in
      let m = made heap_area heap_size w (omega arith) in
      let (w', w'', makes, other, makes') =
        made_tables-same fuel m.0 (s + 80) (s + 32) area m.1 table index next_index
          (made-IsReady heap_area heap_size w (omega arith)) (has_room fuel table index out) free
          (omega arith) (omega arith) (omega arith) below in
      (u64 (area + 1), w', w'', makes, other, makes')
