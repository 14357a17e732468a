-- ===== src/Heap/Nodes.antt =====
-- What the writes of `InternalInitializeNode` and `MmKernelMalloc` leave in the fields of nodes.
use feral.Base.{ℕ, ◌+◌, ◌≤◌, ◌≡◌, ◌≢◌, ◌⊎◌, arith, refl, u64, ne→==, eq→==}
use feral.Paging.{Words, phys}
use feral.Heap.{set_field, last, area, previous, next, internal_initialize_node}

-- Two regions of memory that share no byte.
abbrev pub Apart : ℕ → ℕ → ℕ → ℕ → Type 0
Apart p m q n = (p + m ≤ q) ⊎ (q + n ≤ p)

pub set_field-other :
    (node offset v a : ℕ) (w : Words) → a ≢ phys node + offset → set_field node offset v w a ≡ w a
set_field-other node offset v a w h = rw (ne→== a (phys node + offset) h) refl

pub set_field-at :
    (node offset v : ℕ) (w : Words) → set_field node offset v w (phys node + offset) ≡ v
set_field-at node offset v w = rw (eq→== (phys node + offset) (phys node + offset) refl) refl

-- A node that follows another one and is the last of the list.
module _ (w : Words) (node prev index : ℕ) (given : prev ≢ 0)
    (apart : Apart (phys node) 48 (phys prev) 48) where
  abbrev pub initialized : Words
  initialized = internal_initialize_node node prev 0 index w

  pub initialized-outside :
      (a : ℕ) → Apart a 8 (phys node) 48 → Apart a 8 (phys prev + 32) 8 → initialized a ≡ w a
  unfolding internal_initialize_node
  initialized-outside a n p = rw (ne→== prev 0 given) (ground arith)

  pub previous-initialized : previous initialized node ≡ prev
  unfolding internal_initialize_node
  previous-initialized = rw (ne→== prev 0 given) (ground arith)

  pub next-initialized : next initialized node ≡ 0
  unfolding internal_initialize_node
  next-initialized = rw (ne→== prev 0 given) (ground arith)

  pub area-initialized : area initialized node ≡ u64 (area w prev + 1)
  unfolding internal_initialize_node
  area-initialized = rw (ne→== prev 0 given) (ground arith)

  pub last-initialized : last initialized node ≡ last w node
  unfolding internal_initialize_node
  last-initialized = rw (ne→== prev 0 given) (ground arith)
