-- ===== src/Heap.antt =====
-- The kernel heap of kern/mm/heap.c: nodes and arenas in physical memory, a word of 64 bits at each
-- of their fields. `Used` and `Last` share the first word of a node. A loop over nodes takes fuel.
pub mod Nodes
pub mod Malloc
pub mod Tables
mod Tests
use feral.Base.{
  ℕ, zero, suc, ◌+◌, ◌-◌, ◌*◌, ◌/◌, ◌%◌, ◌^◌, Bool, true, false, not, ◌&&◌, ◌||◌, Option, none,
  some, ltb, leb, ◌==◌, if◌then◌else◌, u64,
}
use feral.Base.Fault.{◌>>=◌}
use feral.Paging.{Words, phys, kern_phys_to_virt}

-- The fields of a `Node`, by their offsets; `sizeof(Node)` is 48.
abbrev pub node_size : ℕ
node_size = 48

abbrev pub field : Words → ℕ → ℕ → ℕ
field w node offset = w (phys node + offset)

abbrev pub set_field : ℕ → ℕ → ℕ → Words → Words
set_field node offset v w = λ a. if a == phys node + offset then v else w a

abbrev pub used : Words → ℕ → ℕ
used w node = field w node 0 % 2 ^ 32

abbrev pub last : Words → ℕ → ℕ
last w node = field w node 0 / 2 ^ 32

abbrev pub set_used : ℕ → ℕ → Words → Words
set_used node v w = set_field node 0 (last w node * 2 ^ 32 + v) w

-- `Last == TRUE`
abbrev pub is_last : Words → ℕ → Bool
is_last w node = last w node == 1

abbrev pub area : Words → ℕ → ℕ
area w node = field w node 8

abbrev pub node_index : Words → ℕ → ℕ
node_index w node = field w node 16

abbrev pub previous : Words → ℕ → ℕ
previous w node = field w node 24

abbrev pub next : Words → ℕ → ℕ
next w node = field w node 32

-- The fields of an `Arena`; `sizeof(Arena)` is 32.
abbrev pub arena_size : ℕ
arena_size = 32

abbrev pub root : Words → ℕ → ℕ
root w arena = field w arena 16

abbrev pub next_to_allocate : Words → ℕ → ℕ
next_to_allocate w arena = field w arena 24

-- `CurrentState`, without its type tags; nothing sets `NumArenas`.
pub record AllocatorState : Type 0 where
  pub arenas : ℕ

abbrev pub alloc_block_size : ℕ
alloc_block_size = 128

unfoldable pub internal_initialize_node : ℕ → ℕ → ℕ → ℕ → Words → Words
internal_initialize_node current prev nxt index w₀ =
    let w₁ = set_field current 24 prev (set_used current 0 w₀) in
    let linked = set_field prev 32 current w₁ in
    let w₂ = if prev == 0 then w₁ else set_field current 8 (u64 (area linked prev + 1)) linked in
    let w₃ = set_field current 32 nxt w₂ in
    let w₄ = if nxt == 0 then w₃ else set_field nxt 24 current w₃ in set_field current 16 index w₄

-- `KiSetMemoryBytes(p, 0, amount)`, for words.
abbrev pub clear_words : ℕ → ℕ → Words → Words
clear_words p amount w = λ a. if leb (phys p) a && ltb a (phys p + amount) then 0 else w a

-- One round of the loop over the arenas.
unfoldable pub create_arena : ℕ → ℕ → ℕ → ℕ → ℕ → Words → Words
create_arena arena_start num_arenas size skip counter w =
    let arena = u64 (arena_start + arena_size * counter) in
    let heap = u64 (arena + arena_size * num_arenas) in
    let w₁ = internal_initialize_node heap 0 0 0 w in
    let w₂ = set_field heap 8 (u64 (heap + 8 * (skip + 1))) w₁ in
    let fresh = u64 (heap + node_size) in
    let w₃ = set_field fresh 24 heap (clear_words fresh node_size w₂) in
    set_field arena 24 fresh
      (set_field arena 16 heap (set_field arena 8 counter (set_field arena 0 size w₃)))

unfoldable pub create_arenas : ℕ → ℕ → ℕ → ℕ → ℕ → ℕ → Words → Words
create_arenas arena_start num_arenas size skip zero counter w = w
create_arenas arena_start num_arenas size skip (suc left) counter w =
    create_arenas arena_start num_arenas size skip left (counter + 1)
      (create_arena arena_start num_arenas size skip counter w)

-- `num_arenas` is not 0, which the source divides by.
unfoldable pub mm_create_allocator_state : ℕ → ℕ → ℕ → Words → AllocatorState × Words
mm_create_allocator_state num_arenas heap_area heap_size w =
    let heap_amount = heap_size / num_arenas in
    let start = kern_phys_to_virt heap_area in
    (
      record { arenas = start },
      create_arenas start num_arenas (heap_amount / num_arenas)
          (heap_amount / (num_arenas * node_size)) num_arenas 0 (clear_words heap_area heap_size w),
    )

-- The loop of `MmKernelMalloc` over the nodes, with `left` rounds to go.
unfoldable pub mark_nodes : ℕ → ℕ → Words → Words
mark_nodes zero indexer w = w
mark_nodes (suc left) indexer w =
    let w' = set_used indexer 1 w in
    let rest = mark_nodes left (next w' indexer) w' in if indexer == 0 then w else rest

-- `Subindexer` of the check: whether the nodes are free, and what `Count` is then.
unfoldable pub check_nodes : ℕ → ℕ → ℕ → Words → ℕ → Option (Bool × ℕ)
check_nodes zero required count w node = none
check_nodes (suc fuel) required count w node =
    let rest = check_nodes fuel required (count + 1) w (next w node) in
    if not (ltb count required)
    then some (true, count + 1)
    else if is_last w node
    then some (true, count + 1)
    else if not (used w node == 0)
    then some (false, count + 1)
    else rest

-- The loop that marks them as used, which goes on with the same `Count`.
unfoldable pub mark_checked : ℕ → ℕ → ℕ → Words → ℕ → Option Words
mark_checked zero required count w node = none
mark_checked (suc fuel) required count w node =
    let w' = set_used node 1 w in
    let rest = mark_checked fuel required (count + 1) w' (next w' node) in
    if not (ltb count required) then some w else if is_last w node then some w else rest

-- The outer loop, from node to node.
unfoldable pub search_nodes : ℕ → ℕ → ℕ → Words → Option (ℕ × Words)
search_nodes zero required indexer w = none
search_nodes (suc fuel) required indexer w =
    let rest = search_nodes fuel required (next w indexer) w in
    let prev = previous w indexer in
    let set_up =
      internal_initialize_node indexer prev (next w indexer) (u64 (node_index w prev + 1)) w in
    if is_last w indexer then some (0, w) else if not (used w indexer == 0) then rest else (do
      (okay, count) ← check_nodes fuel required 0 w indexer
      if okay
          then (do w' ← mark_checked fuel required count set_up indexer; some (area w' indexer, w'))
          else rest)

unfoldable pub internal_mm_worst_case_malloc : ℕ → ℕ → ℕ → Words → Option (ℕ × Words)
internal_mm_worst_case_malloc fuel arena size w =
    search_nodes fuel (u64 (size / alloc_block_size + 1)) (root w arena) w

unfoldable pub mm_kernel_malloc : ℕ → AllocatorState → ℕ → Words → Option (ℕ × Words)
mm_kernel_malloc fuel state size w =
    let attempt = next_to_allocate w state.arenas in
    let block_increment = size % alloc_block_size + 1 in
    let marked = mark_nodes (block_increment - 1) attempt w in
    let counted = set_field attempt 40 block_increment marked in
    let prev = previous counted attempt in
    let w' =
      internal_initialize_node attempt prev (next counted attempt)
        (u64 (node_index counted prev + 1)) counted in
    if not (attempt == 0) && not (last w attempt == 0)
    then internal_mm_worst_case_malloc fuel state.arenas size w
    else some (area w' attempt, w')
