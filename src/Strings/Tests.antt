-- ===== src/Strings/Tests.antt =====
-- The string functions on a memory that holds "ab" at address 100.
use feral.Base.{◌≡◌, some, arith, refl, ◌==◌, if◌then◌else◌}
use feral.Memory.{Bytes}
use feral.Status.{Status}
use feral.Strings.{char_at, wide_char_at, IsLength, ki_get_string_length, ki_get_string_length_lem}

abbrev holds_ab : Bytes
holds_ab a = if a == 100 then b'a' else if a == 101 then b'b' else 0

holds_ab-IsLength : IsLength (char_at holds_ab 100) 2
holds_ab-IsLength = record { ends = refl; before = λ i h. ground arith }

-- As wide characters it is one character long.
wide-IsLength : IsLength (wide_char_at holds_ab 100) 1
wide-IsLength = record { ends = refl; before = λ i h. ground arith }

length_null : ki_get_string_length 3 holds_ab 0 9 ≡ some (Status.invalid_memory_location, 9)
unfolding ki_get_string_length
length_null = refl

ki_get_string_length_lem_example : ki_get_string_length 3 holds_ab 100 9 ≡ some (Status.success, 2)
ki_get_string_length_lem_example =
    ki_get_string_length_lem holds_ab 100 2 9 3 (omega arith) holds_ab-IsLength (omega arith)
      (omega arith)
