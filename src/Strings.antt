-- ===== src/Strings.antt =====
-- kern/lib/kernel_stringfuncs.c: the lengths of zero-ended strings in a flat memory. The loop takes
-- fuel; `none` says that it ran out.
mod Tests
use feral.Base.{
  ℕ, zero, suc, ◌+◌, ◌*◌, ◌≤◌, ◌<◌, ◌≡◌, ◌≢◌, Option, none, some, arith, ◌==◌, if◌then◌else◌, u64,
  ◌^◌, refl, ne→==,
}
use feral.Base.Fault.{◌>>=◌}
use feral.Memory.{Bytes}
use feral.Status.{Status}
use native.Mathlib.Decide.{ℕ_discrete}

-- `while (String[Len]) Len++`, over the elements of the array.
string_end : ℕ → (ℕ → ℕ) → ℕ → Option ℕ
string_end zero at len = none
string_end (suc fuel) at len =
    let rest = string_end fuel at (u64 (len + 1)) in if at len == 0 then some len else rest

-- A `CHAR` takes one byte of memory.
abbrev pub char_at : Bytes → ℕ → ℕ → ℕ
char_at m string i = m (string + i)

-- A `WCHAR` takes four bytes, the lowest first.
abbrev pub wide_char_at : Bytes → ℕ → ℕ → ℕ
wide_char_at m string i =
    m (string + 4 * i)
    + 0x100
      * (m (string + 4 * i + 1) + 0x100 * (m (string + 4 * i + 2) + 0x100 * m (string + 4 * i + 3)))

-- The status and what `*Length` holds then; `length` is what it held before.
unfoldable pub ki_get_string_length : ℕ → Bytes → ℕ → ℕ → Option (Status × ℕ)
unfolding string_end
ki_get_string_length fuel m string length =
    if string == 0
    then some (Status.invalid_memory_location, length)
    else do len ← string_end fuel (char_at m string) 0; some (Status.success, len)

unfoldable pub ki_get_wide_string_length : ℕ → Bytes → ℕ → ℕ → Option (Status × ℕ)
unfolding string_end
ki_get_wide_string_length fuel m string length =
    if string == 0
    then some (Status.invalid_memory_location, length)
    else do len ← string_end fuel (wide_char_at m string) 0; some (Status.success, len)

-- `n` is the index of the first zero.
pub record IsLength (at : ℕ → ℕ) (n : ℕ) : Type 0 where
  pub ends : at n ≡ 0
  pub before : (i : ℕ) → i < n → at i ≢ 0

string_end_lem :
    (fuel : ℕ) (at : ℕ → ℕ) (len n : ℕ)
    → IsLength at n
    → n < 2 ^ 64
    → len ≤ n
    → n < len + fuel
    → string_end fuel at len ≡ some n
unfolding string_end
string_end_lem zero at len n is small lo hi = absurd (omega arith)
string_end_lem (suc fuel) at len n is small lo hi = elim (ℕ_discrete len n) [
  | yes e ↦ ground (arith, is.ends)
  | no ne ↦
      rw (ne→== (at len) 0 (is.before len (omega arith)), wrap ne)
        (string_end_lem fuel at (len + 1) n is small (omega arith) (omega arith))
]
  where
    wrap : len ≢ n → u64 (len + 1) ≡ len + 1
    wrap ne = omega arith

-- For a pointer that is not null to a string shorter than 2 ^ 64, `KiGetStringLength` ends with
-- the index of the first zero, in as many rounds as the string has characters and one more.
pub ki_get_string_length_lem :
    (m : Bytes) (string n length fuel : ℕ)
    → string ≢ 0
    → IsLength (char_at m string) n
    → n < 2 ^ 64
    → n < fuel
    → ki_get_string_length fuel m string length ≡ some (Status.success, n)
unfolding ki_get_string_length
ki_get_string_length_lem m string n length fuel s is small enough =
    rw
      (
        ne→== string 0 s,
        string_end_lem fuel (char_at m string) 0 n is small (omega arith) (omega arith),
      )
      refl

-- For a pointer that is not null to a string shorter than 2 ^ 64, `KiGetWideStringLength` ends
-- with the index of the first zero character, in as many rounds as the string has characters and
-- one more.
pub ki_get_wide_string_length_lem :
    (m : Bytes) (string n length fuel : ℕ)
    → string ≢ 0
    → IsLength (wide_char_at m string) n
    → n < 2 ^ 64
    → n < fuel
    → ki_get_wide_string_length fuel m string length ≡ some (Status.success, n)
unfolding ki_get_wide_string_length
ki_get_wide_string_length_lem m string n length fuel s is small enough =
    rw
      (
        ne→== string 0 s,
        string_end_lem fuel (wide_char_at m string) 0 n is small (omega arith) (omega arith),
      )
      refl
