-- ===== src/Memory/Fill.antt =====
-- `KiSetMemoryBytes`: what it writes, and when it ends.
use native.Mathlib.Decide.{dec_lt}
use mathlib.Core.Path.{subst}
use feral.Base.{
  ℕ, zero, suc, ◌+◌, ◌-◌, ◌*◌, ◌%◌, ◌^◌, ◌≤◌, ◌<◌, ◌≡◌, ◌&&◌, some, arith, refl, fun_ext, ap, ◌∙◌,
  ltb, leb, if◌then◌else◌, u64, lt→ltb, ltb-false,
}
use feral.Base.Fault.{◌>>=◌}
use feral.Status.{Status}
use feral.Memory.{Bytes, write, fill_blocks, fill_tail, ki_set_memory_bytes}
use feral.Memory.Copy.{rounded}

-- The memory with `n` bytes from `dest` on set to `val`.
abbrev pub filled : ℕ → ℕ → ℕ → Bytes → Bytes
filled dest val n m = λ a. if leb dest a && ltb a (dest + n) then val else m a

module _ (m : Bytes) (dest val : ℕ) where
  filled-suc :
      (k i j : ℕ)
      → i ≡ k
      → j ≡ k + 1
      → write (filled dest val k m) (dest + i) val ≡ filled dest val j m
  filled-suc k i j e e' = fun_ext λ a. ground arith

  -- One round of the first loop.
  filled-block :
      (k : ℕ)
      → write
          (write
            (write (write (filled dest val k m) (dest + (k + 0)) val) (dest + (k + 1)) val)
            (dest + (k + 2))
            val)
          (dest + (k + 3))
          val
        ≡ filled dest val (k + 4) m
  filled-block k =
      ap (λ t. w 3 (w 2 (w 1 t))) (filled-suc k (k + 0) (k + 1) (omega arith) refl)
      ∙ ap (λ t. w 3 (w 2 t)) (filled-suc (k + 1) (k + 1) (k + 2) refl (omega arith))
      ∙ ap (λ t. w 3 t) (filled-suc (k + 2) (k + 2) (k + 3) refl (omega arith))
      ∙ filled-suc (k + 3) (k + 3) (k + 4) refl (omega arith)
    where
      w : ℕ → Bytes → Bytes
      w i t = write t (dest + (k + i)) val

  filled-zero : filled dest val 0 m ≡ m
  filled-zero = fun_ext λ a. ground arith

module _ (m : Bytes) (dest val amt : ℕ) (short : amt ≤ 2 ^ 64 - 4) where
  fill_blocks_lem :
      (fuel i : ℕ)
      → i % 4 ≡ 0
      → i ≤ rounded amt
      → rounded amt < i + 4 * fuel
      → fill_blocks dest val amt fuel i (filled dest val i m)
        ≡ some (rounded amt, filled dest val (rounded amt) m)
  unfolding fill_blocks
  fill_blocks_lem zero i e lo hi = absurd (omega arith)
  fill_blocks_lem (suc fuel) i e lo hi = elim (dec_lt i amt) [
    | yes more ↦
        rw (lt→ltb i amt more, filled-block m dest val i, wrap more)
          (fill_blocks_lem fuel (i + 4) (omega arith) (omega arith) (omega arith))
    | no done ↦
        let e' : i ≡ rounded amt = omega arith in
        rw (ltb-false i amt (omega arith)) (ap (λ (k : ℕ). some (k, filled dest val k m)) e')
  ]
    where
      wrap : i < amt → u64 (i + 4) ≡ i + 4
      wrap h = omega arith

  fill_tail_lem :
      (fuel index : ℕ) (m' : Bytes)
      → amt ≤ index
      → fill_tail dest val amt (suc fuel) index m' ≡ some m'
  unfolding fill_tail
  fill_tail_lem fuel index m' h = rw (ltb-false index amt h)

  -- If `Amt` is at most 2 ^ 64 - 4, `KiSetMemoryBytes` ends within `Amt / 4 + 2` rounds, sets
  -- `Amt` rounded up to a multiple of four bytes, and changes no byte outside of that region.
  pub ki_set_memory_bytes_lem :
      (fuel : ℕ)
      → rounded amt < 4 * fuel
      → ki_set_memory_bytes fuel m dest val amt
        ≡ some (Status.success, filled dest val (rounded amt) m)
  unfolding ki_set_memory_bytes
  ki_set_memory_bytes_lem zero enough = absurd (omega arith)
  ki_set_memory_bytes_lem (suc fuel) enough =
      rw (blocks, ◌>>=◌, fill_tail_lem fuel (rounded amt) _ (omega arith)) refl
    where
      blocks :
          fill_blocks dest val amt (suc fuel) 0 m
          ≡ some (rounded amt, filled dest val (rounded amt) m)
      blocks =
          subst
            (λ t.
              fill_blocks dest val amt (suc fuel) 0 t
              ≡ some (rounded amt, filled dest val (rounded amt) m))
            (filled-zero m dest val)
            (fill_blocks_lem (suc fuel) 0 (omega arith) (omega arith) (omega arith))
