-- ===== src/Heap/Malloc.antt =====
-- What a heap that `MmCreateAllocatorState` made gives to a run of allocations.
use feral.Base.{
  ℕ, zero, suc, ◌+◌, ◌-◌, ◌*◌, ◌/◌, ◌%◌, ◌^◌, ◌≤◌, ◌<◌, ◌≡◌, ◌≢◌, inl, Option, some, List, [], ◌∷◌,
  arith, refl, ap, ◌∙◌, u64, ne→==, replicate, length,
}
use feral.Base.Fault.{◌>>=◌}
use feral.Paging.{Words, phys, kern_phys_to_virt, kern_virt_offset}
use feral.Heap.{
  AllocatorState, set_field, last, set_used, area, node_index, previous, next, next_to_allocate,
  clear_words, internal_initialize_node, mark_nodes, mm_kernel_malloc, mm_create_allocator_state,
  create_arenas, create_arena,
}
use feral.Heap.Nodes.{
  Apart, initialized-outside, previous-initialized, next-initialized, area-initialized,
  last-initialized,
}

-- The arena hands out node `node`, which is behind `prev`, and `prev` has area `at`.
pub record IsReady (state : AllocatorState) (node prev at : ℕ) (w : Words) : Type 0 where
  pub nodes_apart : Apart (phys node) 48 (phys prev) 48
  pub arena_apart : Apart (phys state.arenas) 32 (phys node) 48
  pub arena_apart_prev : Apart (phys state.arenas) 32 (phys prev) 48
  pub node_given : node ≢ 0
  pub prev_given : prev ≢ 0
  pub handed_out : next_to_allocate w state.arenas ≡ node
  pub behind : previous w node ≡ prev
  pub alone : next w node ≡ 0
  pub not_last : last w node ≡ 0
  pub at_prev : area w prev ≡ at

mark_nodes-null : (left : ℕ) (w : Words) → mark_nodes left 0 w ≡ w
unfolding mark_nodes
mark_nodes-null zero w = refl
mark_nodes-null (suc left) w = refl

-- Marking a last node changes its first word, and there the use of the node only.
module _ (node : ℕ) (w : Words) (given : node ≢ 0) (alone : next w node ≡ 0) where
  mark_nodes-alone : (left : ℕ) → mark_nodes (suc left) node w ≡ set_used node 1 w
  unfolding mark_nodes
  mark_nodes-alone left =
      let still : next (set_used node 1 w) node ≡ 0 = ground arith in
      rw (ne→== node 0 given, still) (mark_nodes-null left (set_used node 1 w))

  mark_nodes-outside : (left a : ℕ) → a ≢ phys node → mark_nodes left node w a ≡ w a
  unfolding mark_nodes
  mark_nodes-outside zero a h = refl
  mark_nodes-outside (suc left) a h = rw (mark_nodes-alone left) (ground arith)

  mark_nodes-last : (left : ℕ) → last (mark_nodes left node w) node ≡ last w node
  unfolding mark_nodes
  mark_nodes-last zero = refl
  mark_nodes-last (suc left) = rw (mark_nodes-alone left) (ground arith)

module _ (state : AllocatorState) (node prev at : ℕ) (w : Words)
    (ready : IsReady state node prev at w) (left : ℕ) where
  -- The memory when `MmKernelMalloc` has marked the node and stored its chunk.
  abbrev counted : Words
  counted = set_field node 40 (left + 1) (mark_nodes left node w)

  counted-outside : (a : ℕ) → a ≢ phys node → a ≢ phys node + 40 → counted a ≡ w a
  counted-outside a h h' =
      rw (ne→== a (phys node + 40) h')
        (mark_nodes-outside node w ready.node_given ready.alone left a h)

  counted-last : last counted node ≡ 0
  counted-last =
      rw (ne→== (phys node + 0) (phys node + 40) (omega arith))
        (mark_nodes-last node w ready.node_given ready.alone left ∙ ready.not_last)

  abbrev index : ℕ
  index = u64 (node_index counted prev + 1)

  abbrev after : Words
  after = internal_initialize_node node prev 0 index counted

  after-outside : (a : ℕ) → Apart a 8 (phys node) 48 → Apart a 8 (phys prev + 32) 8 → after a ≡ w a
  after-outside a n p =
      initialized-outside counted node prev index ready.prev_given ready.nodes_apart a n p
      ∙ counted-outside a (ground arith) (ground arith)

  after-area : area after node ≡ u64 (at + 1)
  after-area =
      area-initialized counted node prev index ready.prev_given ready.nodes_apart
      ∙ ap (λ t. u64 (t + 1))
          (counted-outside (phys prev + 8) (ground (arith, ready.nodes_apart))
              (ground (arith, ready.nodes_apart))
            ∙ ready.at_prev)

  after-IsReady : IsReady state node prev at after
  after-IsReady = record {
    nodes_apart = ready.nodes_apart;
    arena_apart = ready.arena_apart;
    arena_apart_prev = ready.arena_apart_prev;
    node_given = ready.node_given;
    prev_given = ready.prev_given;
    handed_out =
        after-outside (phys state.arenas + 24) (ground (arith, ready.arena_apart))
          (ground (arith, ready.arena_apart_prev))
        ∙ ready.handed_out;
    behind = previous-initialized counted node prev index ready.prev_given ready.nodes_apart;
    alone = next-initialized counted node prev index ready.prev_given ready.nodes_apart;
    not_last =
        last-initialized counted node prev index ready.prev_given ready.nodes_apart ∙ counted-last;
    at_prev =
        after-outside (phys prev + 8) (ground (arith, ready.nodes_apart)) (inl (omega arith))
        ∙ ready.at_prev;
  }

module _ (state : AllocatorState) (node prev at : ℕ) (w : Words)
    (ready : IsReady state node prev at w) where
  pub mm_kernel_malloc-IsReady :
      (fuel size : ℕ)
      → (w' : Words) × (mm_kernel_malloc fuel state size w ≡ some (u64 (at + 1), w'))
        × IsReady state node prev at w'
        × ((a : ℕ) → Apart a 8 (phys node) 48 → Apart a 8 (phys prev + 32) 8 → w' a ≡ w a)
  unfolding mm_kernel_malloc
  mm_kernel_malloc-IsReady fuel size =
      let rounds : size % 128 + 1 - 1 ≡ size % 128 = omega arith in
      (
        after state node prev at w ready (size % 128),
        rw
            (
              ready.handed_out,
              rounds,
              counted-outside state node prev at w ready (size % 128) (phys node + 24) (omega arith)
                  (omega arith),
              ready.behind,
              counted-outside state node prev at w ready (size % 128) (phys node + 32) (omega arith)
                  (omega arith),
              ready.alone,
              ready.not_last,
              after-area state node prev at w ready (size % 128),
              ne→== node 0 ready.node_given,
            )
            refl,
        after-IsReady state node prev at w ready (size % 128),
        after-outside state node prev at w ready (size % 128),
      )

-- The addresses that a run of allocations gets.
abbrev pub addresses : ℕ → AllocatorState → List ℕ → Words → Option (List ℕ)
addresses fuel state [] w = some []
addresses fuel state (size ∷ sizes) w = do
  (p, w') ← mm_kernel_malloc fuel state size w
  rest ← addresses fuel state sizes w'
  some (p ∷ rest)

addresses-IsReady :
    (fuel : ℕ) (state : AllocatorState) (node prev at : ℕ) (sizes : List ℕ) (w : Words)
    → IsReady state node prev at w
    → addresses fuel state sizes w ≡ some (replicate (length sizes) (u64 (at + 1)))
addresses-IsReady fuel state node prev at [] w ready = refl
addresses-IsReady fuel state node prev at (size ∷ sizes) w ready =
    let (w', given, ready', same) = mm_kernel_malloc-IsReady state node prev at w ready fuel size in
    rw (given, ◌>>=◌, addresses-IsReady fuel state node prev at sizes w' ready', ◌>>=◌) refl

-- An arena in the upper part of the address space, where a pointer and its physical address keep
-- their distance.
module _ (start size skip : ℕ) (w : Words) (high : kern_virt_offset ≤ start)
    (fits : start + 128 < 2 ^ 64) where
  abbrev one_arena : Words
  one_arena = create_arena start 1 size skip 0 w

  create_arena-IsReady :
      IsReady
        (record { arenas = start })
        (start + 80)
        (start + 32)
        (u64 (start + 32 + 8 * (skip + 1)))
        one_arena
  unfolding create_arena internal_initialize_node
  create_arena-IsReady =
      let at_start : u64 (start + 32 * 0) ≡ start = omega arith in
      let at_heap : u64 (start + 32 * 1) ≡ start + 32 = omega arith in
      let at_fresh : u64 (start + 32 + 48) ≡ start + 80 = omega arith in
      rw (at_start, at_heap, at_fresh)
        (record {
          nodes_apart = ground arith;
          arena_apart = ground arith;
          arena_apart_prev = ground arith;
          node_given = λ e. omega (arith, e);
          prev_given = λ e. omega (arith, e);
          handed_out = ground arith;
          behind = ground arith;
          alone = ground arith;
          not_last = ground arith;
          at_prev = ground arith;
        })

-- The heap as `KiInitializeMemMgr` makes it, with one arena.
module _ (heap_area heap_size : ℕ) (w : Words) (low : heap_area + 128 < 2 ^ 39) where
  abbrev pub made : AllocatorState × Words
  made = mm_create_allocator_state 1 heap_area heap_size w

  abbrev pub start : ℕ
  start = kern_phys_to_virt heap_area

  abbrev pub first_area : ℕ
  first_area = u64 (start + 32 + 8 * (heap_size / 48 + 1))

  pub made-IsReady : IsReady made.0 (start + 80) (start + 32) first_area made.1
  unfolding mm_create_allocator_state create_arenas
  made-IsReady =
      let whole : heap_size / 48 ≡ heap_size / 1 / 48 = omega arith in
      rw whole (
        create_arena-IsReady start (heap_size / 1 / 1) (heap_size / 1 / 48)
          (clear_words heap_area heap_size w) (omega arith) (omega arith))

  pub addresses-same :
      (fuel : ℕ) (sizes : List ℕ)
      → heap_area % 8 ≡ 0
      → (addresses fuel
            (mm_create_allocator_state 1 heap_area heap_size w).0
            sizes
            (mm_create_allocator_state 1 heap_area heap_size w).1
          ≡ some (replicate (length sizes) (u64 (first_area + 1))))
        × (u64 (first_area + 1) % 8 ≡ 1)
  addresses-same fuel sizes aligned = (
    addresses-IsReady fuel made.0 (start + 80) (start + 32) first_area sizes made.1 made-IsReady,
    omega arith,
  )
