-- ===== src/Memory/Tests.antt =====
-- The memory functions on a memory whose byte at address `a` is `a` plus ten.
use feral.Base.{ℕ, ◌+◌, ◌<◌, ◌≡◌, ◌↔◌, inl, Bool, true, false, Option, none, some, arith, refl, ◌^◌}
use feral.Status.{Status}
use feral.Memory.{Bytes, ki_copy_memory, ki_set_memory_bytes, ki_compare_memory}
use feral.Memory.Copy.{copied, ki_copy_memory_lem, ki_copy_memory-diverges}
use feral.Memory.Fill.{filled, ki_set_memory_bytes_lem}
use feral.Memory.Compare.{ki_compare_memory_lem}

abbrev counting : Bytes
counting a = a + 10

-- Three bytes asked for, four written.
abbrev byte_at : Option (Status × Bytes) → ℕ → Option ℕ
byte_at none a = none
byte_at (some (s, m)) a = some (m a)

set_three : byte_at (ki_set_memory_bytes 2 counting 100 7 3) 103 ≡ some 7
unfolding ki_set_memory_bytes
set_three = refl

ki_copy_memory_lem_example :
    ki_copy_memory 3 counting 100 200 6 ≡ some (Status.success, copied 100 200 8 counting)
ki_copy_memory_lem_example =
    ki_copy_memory_lem counting 100 200 6 (inl (omega arith)) (omega arith) 3 (omega arith)
      (omega arith) (omega arith)

ki_copy_memory-diverges_example : ki_copy_memory 9 counting 100 200 (2 ^ 32) ≡ none
ki_copy_memory-diverges_example =
    ki_copy_memory-diverges 9 counting 100 200 (2 ^ 32) (omega arith) (omega arith) (omega arith)

ki_set_memory_bytes_lem_example :
    ki_set_memory_bytes 2 counting 100 7 3 ≡ some (Status.success, filled 100 7 4 counting)
ki_set_memory_bytes_lem_example =
    ki_set_memory_bytes_lem counting 100 7 3 (omega arith) 2 (omega arith)

ki_compare_memory_lem_example :
    (answer : Bool) × (ki_compare_memory 2 counting 200 100 3 false ≡ some (Status.success, answer))
    × ((answer ≡ true) ↔ ((j : ℕ) → j < 4 → counting (100 + j) ≡ counting (200 + j)))
ki_compare_memory_lem_example =
    ki_compare_memory_lem counting 200 100 3 (omega arith) 2 false (omega arith) (omega arith)
      (omega arith)
