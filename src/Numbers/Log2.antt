-- ===== src/Numbers/Log2.antt =====
-- What the two logarithms return.
use native.Mathlib.Nat.{pow-suc, one-le-pow}
use native.Mathlib.Decide.{dec_lt}
use feral.Base.{ℕ, zero, suc, ◌+◌, ◌/◌, ◌^◌, ◌≤◌, ◌<◌, ◌≡◌, some, arith, refl, sub64, lt→ltb}
use feral.Base.Fault.{◌>>=◌}
use feral.Status.{Status}
use feral.Numbers.{log2_loop, ki_log2_uint, ki_log2_int}

log2_loop_lem :
    (k fuel v res : ℕ)
    → 2 ^ k ≤ v
    → v < 2 ^ suc k
    → k < fuel
    → log2_loop fuel v res ≡ some (res + k)
unfolding log2_loop
log2_loop_lem k zero v res lo hi h = elim h [ ]
log2_loop_lem zero (suc fuel) v res lo hi h = ground (arith, pow-suc 2 0)
log2_loop_lem (suc k) (suc fuel) v res lo hi h =
    ground (
      arith,
      pow-suc 2 k,
      pow-suc 2 (suc k),
      one-le-pow k 2,
      log2_loop_lem k fuel (v / 2) (res + 1),
    )

-- Every word above zero has a base-2 logarithm below its width.
log2-exists : (w v : ℕ) → 0 < v → v < 2 ^ w → (k : ℕ) × (k < w) × (2 ^ k ≤ v) × (v < 2 ^ suc k)
log2-exists zero v pos h = absurd (omega arith)
log2-exists (suc w) v pos h = elim (dec_lt v (2 ^ w)) [
  | yes below ↦ let (k, lt, lo, hi) = log2-exists w v pos below in (k, omega arith, lo, hi)
  | no above ↦ (w, omega arith, omega arith, h)
]

ki_log2_uint-some :
    (k input : ℕ)
    → 2 ^ k ≤ input
    → input < 2 ^ suc k
    → k < 64
    → ki_log2_uint 64 input ≡ some (Status.success, k)
unfolding ki_log2_uint
ki_log2_uint-some k input lo hi lt = rw (log2_loop_lem k 64 input 0 lo hi lt) (ground arith)

-- For a positive input of 64 bits `KiLog2UInt` returns the base-2 logarithm, rounded down, in at
-- most 64 rounds.
pub ki_log2_uint_lem :
    (input : ℕ)
    → 0 < input
    → input < 2 ^ 64
    → (k : ℕ) × (ki_log2_uint 64 input ≡ some (Status.success, k))
      × (2 ^ k ≤ input)
      × (input < 2 ^ suc k)
ki_log2_uint_lem input pos h =
    let (k, lt, lo, hi) = log2-exists 64 input pos h in
    (k, ki_log2_uint-some k input lo hi lt, lo, hi)

-- `KiLog2Int` returns 63 for every input above zero: the logarithm that it reports is the one of
-- the negated bit pattern.
pub ki_log2_int-positive :
    (input : ℕ) → 0 < input → input < 2 ^ 63 → ki_log2_int 64 input ≡ some (Status.success, 63)
unfolding ki_log2_int
ki_log2_int-positive input pos h =
    let (k, first, lo, hi) = ki_log2_uint_lem input pos (omega arith) in
    rw
      (
        first,
        ◌>>=◌,
        ki_log2_uint-some 63 (sub64 0 input) (omega arith) (omega arith) (omega arith),
        ◌>>=◌,
        lt→ltb 0 input pos,
        lt→ltb input (2 ^ 63) h,
      )
      refl
