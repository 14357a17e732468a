-- ===== src/Numbers.antt =====
-- kern/lib/kernel_binfuncs.c: base-2 logarithms and the printing of numbers. A loop takes fuel;
-- `none` says that it ran out, or that the processor trapped on a division by zero.
pub mod Log2
pub mod Itoa
pub mod Signed
mod Tests
use feral.Base.{
  ℕ, zero, suc, ◌+◌, ◌-◌, ◌*◌, ◌/◌, ◌%◌, ◌^◌, ◌<◌, Bool, true, false, ◌&&◌, ◌||◌, Option, none,
  some, ltb, leb, ◌==◌, if◌then◌else◌, u8, u64, sub64,
}
use feral.Base.Fault.{◌>>=◌}
use feral.Memory.{Bytes, write}
use feral.Status.{Status}

-- `while (Copy >= 2) { Res++; Copy /= 2; }`
unfoldable pub log2_loop : ℕ → ℕ → ℕ → Option ℕ
log2_loop zero copy res = none
log2_loop (suc fuel) copy res =
    let rest = log2_loop fuel (copy / 2) (res + 1) in if leb 2 copy then rest else some res

unfoldable pub ki_log2_uint : ℕ → ℕ → Option (Status × ℕ)
ki_log2_uint fuel input = do res ← log2_loop fuel input 0; some (Status.success, res)

-- An `INT64` is its bit pattern; it is above zero if the pattern is, and the sign bit is clear.
abbrev pub is_positive : ℕ → Bool
is_positive w = ltb 0 w && ltb w (2 ^ 63)

-- `ResultOne` is written by both calls, `ResultTwo` by none.
unfoldable pub ki_log2_int : ℕ → ℕ → Option (Status × ℕ)
ki_log2_int fuel input = do
  (s₁, result_one) ← ki_log2_uint fuel input
  (s₂, result_one) ← ki_log2_uint fuel (sub64 0 input)
  let result_two : ℕ = 0
  let positive : ℕ = if is_positive input then 1 else 0
  some (Status.success, (1 - positive) * result_two + positive * result_one)

-- The character of a remainder; a `CHAR` of 128 and above is negative, so it is below 35.
unfoldable pub digit_char : ℕ → ℕ
digit_char rem =
    if leb rem 9
    then rem + b'0'
    else if ltb rem 35 || leb 128 rem
    then u8 (rem + b'a' + 256 - 10)
    else u8 (rem + b'A' + 256 - 36)

-- The first loop of `internalItoaBaseChange`: the digits, the last one first.
module _ (radix : ℕ) where
  unfoldable pub emit : ℕ → ℕ → ℕ → Bytes → Option (ℕ × Bytes)
  emit zero val_copy len buf = none
  emit (suc fuel) val_copy len buf =
      let rest =
        emit fuel (val_copy / radix) (len + 1)
          (write buf len (digit_char (u8 (val_copy % radix)))) in
      if val_copy == 0 then some (len, buf) else rest

-- `buf[i]` and `buf[len - i - 1]` change places.
abbrev pub swap : ℕ → ℕ → Bytes → Bytes
swap len i buf = write (write buf i (buf (len - i - 1))) (len - i - 1) (buf i)

-- The second loop, with `left` rounds to go at `i`.
unfoldable pub flip : ℕ → ℕ → ℕ → Bytes → Bytes
flip len zero i buf = buf
flip len (suc left) i buf = flip len left (i + 1) (swap len i buf)

-- `buf` is read and written by index from the pointer on.
unfoldable pub internal_itoa_base_change : ℕ → ℕ → Bytes → ℕ → Option Bytes
internal_itoa_base_change fuel val buf radix =
    if val == 0 then some (write (write buf 0 b'0') 1 0) else if radix == 0 then none else do
      (len, digits) ← emit radix fuel val 0 buf
      some (write (flip len (len / 2) 0 digits) len 0)

unfoldable pub internal_itoa : ℕ → ℕ → Bytes → Option Bytes
internal_itoa fuel val buf = internal_itoa_base_change fuel val buf 10

-- The first loop of `internalSignedItoa`; `overzero / base` is done in `UINT64`.
unfoldable pub emit_signed : ℕ → ℕ → ℕ → Bytes → Option (ℕ × Bytes)
emit_signed zero overzero len buf = none
emit_signed (suc fuel) overzero len buf =
    let rest =
      emit_signed fuel (overzero / 10) (len + 1) (write buf len (u8 (overzero % 10 + b'0'))) in
    if overzero == 0 then some (len, buf) else rest

-- `val` is the bit pattern of an `INT64`; it is not negative if the pattern is below 2 ^ 63. C leaves
-- `0 - val` undefined for the smallest number; it is taken to wrap.
unfoldable pub internal_signed_itoa : ℕ → ℕ → Bytes → Option Bytes
internal_signed_itoa fuel val buf = if ltb val (2 ^ 63) then internal_itoa fuel val buf else do
  (n, digits) ← emit_signed fuel (sub64 0 val) 0 buf
  let with_sign = write digits n b'-'
  let len = n + 1
  some (write (flip len (len / 2) 0 with_sign) len 0)

unfoldable pub ki_itoa : ℕ → ℕ → Bytes → Option (Status × Bytes)
ki_itoa fuel input result = do out ← internal_itoa fuel input result; some (Status.success, out)

unfoldable pub ki_itoa_signed : ℕ → ℕ → Bytes → Option (Status × Bytes)
ki_itoa_signed fuel input result = do
  out ← internal_signed_itoa fuel input result
  some (Status.success, out)

unfoldable pub ki_itoa_base : ℕ → ℕ → ℕ → Bytes → Option (Status × Bytes)
ki_itoa_base fuel input base result = do
  out ← internal_itoa_base_change fuel input result base
  some (Status.success, out)
