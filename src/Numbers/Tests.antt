-- ===== src/Numbers/Tests.antt =====
-- Logarithms and printed numbers at concrete inputs.
use feral.Base.{
  ℕ, ◌-◌, ◌≤◌, ◌<◌, ◌^◌, ◌≡◌, suc, ◌+◌, Option, none, some, arith, refl, List, [], ◌∷◌, zero,
}
use feral.Memory.{Bytes}
use feral.Strings.{IsLength}
use feral.Numbers.{
  internal_itoa_base_change, internal_signed_itoa, emit, emit_signed, flip, digit_char,
}
use feral.Numbers.Itoa.{read_digits, internal_itoa_base_change_lem}
use feral.Numbers.Signed.{internal_signed_itoa-negative}

abbrev blank : Bytes
blank a = 0xCC

-- The first `n` bytes.
abbrev first : ℕ → ℕ → Bytes → List ℕ
first zero i m = []
first (suc n) i m = m i ∷ first n (i + 1) m

abbrev shown : ℕ → Option Bytes → List ℕ
shown n none = []
shown n (some m) = first n 0 m

minus_forty_two :
    shown 4 (internal_signed_itoa 30 (2 ^ 64 - 42) blank) ≡ b'-' ∷ b'4' ∷ b'2' ∷ 0 ∷ []
unfolding internal_signed_itoa emit_signed flip
minus_forty_two = refl

hexadecimal :
    shown 5 (internal_itoa_base_change 30 0xBEEF blank 16) ≡ b'b' ∷ b'e' ∷ b'e' ∷ b'f' ∷ 0 ∷ []
unfolding internal_itoa_base_change emit flip digit_char
hexadecimal = refl

-- At radix 36 the digit 35 is written as an at sign.
thirty_five : shown 2 (internal_itoa_base_change 30 35 blank 36) ≡ b'@' ∷ 0 ∷ []
unfolding internal_itoa_base_change emit flip digit_char
thirty_five = refl

internal_itoa_base_change_lem_example :
    (len : ℕ) × (out : Bytes) × (internal_itoa_base_change 30 1234 blank 10 ≡ some out)
    × (len ≤ 20)
    × IsLength out len
    × (read_digits 10 out len 0 0 ≡ 1234)
internal_itoa_base_change_lem_example =
    internal_itoa_base_change_lem 10 (omega arith) (omega arith) 20 30 1234 blank (omega arith)
      (omega arith) (omega arith)

internal_signed_itoa-negative_example :
    (len : ℕ) × (out : Bytes) × (internal_signed_itoa 30 (2 ^ 63) blank ≡ some out)
    × (len < 20)
    × IsLength out (len + 1)
    × (out 0 ≡ b'-')
    × (read_digits 10 out len 1 0 ≡ 2 ^ 64 - 2 ^ 63)
internal_signed_itoa-negative_example =
    internal_signed_itoa-negative 30 (2 ^ 63) blank (omega arith) (omega arith) (omega arith)
