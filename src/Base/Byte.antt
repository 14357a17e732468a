-- ===== src/Base/Byte.antt =====
-- Single bits of a byte, checked over all 256 values.
use Prim.Native.Nat.{ℕ, zero, suc, ◌<◌, bit_and, bit_or, bit_xor}
use mathlib.Core.Path.{◌≡◌, refl}
use mathlib.Core.Bool.{Bool, true, ◌&&◌}
use native.Mathlib.Omega.{arith}
use feral.Base.Tests.{◌==◌, ==_iff, if◌then◌else◌, ltb}
use feral.Base.Word.{◌<<<◌, ◌>>>◌}

-- `p` holds of each number below `n`.
unfoldable pub holds_below : ℕ → (ℕ → Bool) → Bool
holds_below zero p = true
holds_below (suc n) p = p n && holds_below n p

pub holds_at : (n : ℕ) (p : ℕ → Bool) (x : ℕ) → holds_below n p ≡ true → x < n → p x ≡ true
unfolding holds_below
holds_at zero p x h lt = elim lt [ ]
holds_at (suc n) p x h lt = ground (arith, holds_at n p x)

-- Bit `n` of a byte, as the code reads it: `(c >> n) & 1`.
abbrev pub bit_of : ℕ → ℕ → ℕ
bit_of c n = bit_and (c >>> n) 1

abbrev pub with_bit : ℕ → ℕ → ℕ
with_bit c n = bit_or c (1 <<< n)

abbrev pub without_bit : ℕ → ℕ → ℕ
without_bit c n = bit_and c (bit_xor 255 (1 <<< n))

with_bit_table :
    holds_below 8 (λ n.
      holds_below 8
        (λ b. holds_below 256 (λ c. bit_of (with_bit c n) b == (if b == n then 1 else bit_of c b))))
    ≡ true
unfolding holds_below
with_bit_table = refl

without_bit_table :
    holds_below 8 (λ n. holds_below 8 (λ b.
      holds_below 256 (λ c. bit_of (without_bit c n) b == (if b == n then 0 else bit_of c b))))
    ≡ true
unfolding holds_below
without_bit_table = refl

byte_table :
    holds_below 8 (λ n.
      holds_below 256
        (λ c. ltb (with_bit c n) 256 && ltb (without_bit c n) 256 && ltb (bit_of c n) 2))
    ≡ true
unfolding holds_below
byte_table = refl

module _ (c n : ℕ) (hc : c < 256) (hn : n < 8) where
  pub bit_of-with_bit :
      (b : ℕ) → b < 8 → bit_of (with_bit c n) b ≡ (if b == n then 1 else bit_of c b)
  bit_of-with_bit b hb =
      (==_iff _ _).0 (holds_at 256 _ c (holds_at 8 _ b (holds_at 8 _ n with_bit_table hn) hb) hc)

  pub bit_of-without_bit :
      (b : ℕ) → b < 8 → bit_of (without_bit c n) b ≡ (if b == n then 0 else bit_of c b)
  bit_of-without_bit b hb =
      (==_iff _ _).0 (holds_at 256 _ c (holds_at 8 _ b (holds_at 8 _ n without_bit_table hn) hb) hc)

  byte_row : (ltb (with_bit c n) 256 && ltb (without_bit c n) 256 && ltb (bit_of c n) 2) ≡ true
  byte_row = holds_at 256 _ c (holds_at 8 _ n byte_table hn) hc

  pub with_bit-lt : with_bit c n < 256
  with_bit-lt = ground (arith, byte_row)

  pub without_bit-lt : without_bit c n < 256
  without_bit-lt = ground (arith, byte_row)

  pub bit_of-lt : bit_of c n < 2
  bit_of-lt = ground (arith, byte_row)

clear_table :
    holds_below 8 (λ n. holds_below 256 (λ c.
      if bit_of c n == 0
      then without_bit (with_bit c n) n == c
      else with_bit (without_bit c n) n == c))
    ≡ true
unfolding holds_below
clear_table = refl

-- Clearing a bit undoes setting it.
pub without_bit-with_bit :
    (c n : ℕ) → c < 256 → n < 8 → bit_of c n ≡ 0 → without_bit (with_bit c n) n ≡ c
without_bit-with_bit c n hc hn e =
    ground (arith, holds_at 256 _ c (holds_at 8 _ n clear_table hn) hc)
