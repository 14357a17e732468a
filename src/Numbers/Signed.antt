-- ===== src/Numbers/Signed.antt =====
-- `internalSignedItoa` below zero: a minus sign and the digits of the magnitude.
use feral.Base.{
  ℕ, zero, suc, ◌+◌, ◌-◌, ◌/◌, ◌%◌, ◌^◌, ◌≤◌, ◌<◌, ◌≡◌, some, arith, refl, ◌∙◌, u8, sub64,
  ltb-false,
}
use feral.Base.Fault.{◌>>=◌}
use feral.Memory.{Bytes, write}
use feral.Strings.{IsLength}
use feral.Numbers.{digit_char, emit, emit_signed, internal_signed_itoa}
use feral.Numbers.Itoa.{
  read_digits, read_digits-reverse, reversed_value-write, text, text_at, text-IsLength, emit_lem,
  Emitted,
}

same_char : (v : ℕ) → u8 (v % 10 + b'0') ≡ digit_char (u8 (v % 10))
unfolding digit_char
same_char v = ground arith

-- The loop for negative numbers writes what the general loop writes at radix 10.
emit_signed-eq-emit :
    (fuel v len : ℕ) (buf : Bytes) → emit_signed fuel v len buf ≡ emit 10 fuel v len buf
unfolding emit_signed emit
emit_signed-eq-emit zero v len buf = refl
emit_signed-eq-emit (suc fuel) v len buf =
    rw (emit_signed-eq-emit fuel (v / 10) (len + 1), same_char v) refl

-- A negative `INT64` is written by `internalSignedItoa` as a minus sign and the digits of its
-- magnitude, in at most 20 characters, the smallest number included.
pub internal_signed_itoa-negative :
    (fuel val : ℕ) (buf : Bytes)
    → 2 ^ 63 ≤ val
    → val < 2 ^ 64
    → 19 < fuel
    → (len : ℕ) × (out : Bytes) × (internal_signed_itoa fuel val buf ≡ some out)
      × (len < 20)
      × IsLength out (len + 1)
      × (out 0 ≡ b'-')
      × (read_digits 10 out len 1 0 ≡ 2 ^ 64 - val)
unfolding internal_signed_itoa
internal_signed_itoa-negative fuel val buf negative h lt = (
  r.new_len,
  text (r.new_len + 1) signed,
  rw (ltb-false val (2 ^ 63) negative, emit_signed-eq-emit fuel magnitude 0 buf, r.returns, ◌>>=◌)
      refl,
  omega (arith, r.short),
  text-IsLength (r.new_len + 1) signed (λ i below. ground (arith, r.chars i)),
  text_at (r.new_len + 1) signed 0 (omega arith) ∙ ground arith,
  read_digits-reverse 10 (r.new_len + 1) _ signed (text_at (r.new_len + 1) signed) r.new_len 1 0
        refl
      ∙ omega (arith, reversed_value-write 10 r.digits r.new_len b'-' r.new_len, r.value),
)
  where
    magnitude : ℕ
    magnitude = sub64 0 val

    r : Emitted 10 (omega arith) (omega arith) magnitude 0 19 buf (emit 10 fuel magnitude 0 buf)
    r = emit_lem 10 (omega arith) (omega arith) 19 fuel magnitude 0 buf (omega arith) lt

    signed : Bytes
    signed = write r.digits r.new_len b'-'
