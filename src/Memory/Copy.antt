-- ===== src/Memory/Copy.antt =====
-- `KiCopyMemory`: what it copies, and when it ends.
use feral.Base.{
  ℕ, zero, suc, ◌+◌, ◌-◌, ◌*◌, ◌/◌, ◌%◌, ◌^◌, ◌≤◌, ◌<◌, ◌≡◌, ◌≢◌, ◌⊎◌, ◌&&◌, none, some, arith,
  refl, fun_ext, ap, ◌∙◌, ltb, leb, if◌then◌else◌, u32, lt→ltb, ltb-false, ne→==,
}
use mathlib.Core.Path.{subst}
use native.Mathlib.Decide.{dec_lt}
use feral.Base.Fault.{◌>>=◌}
use feral.Status.{Status}
use feral.Memory.{Bytes, copy_byte, copy_blocks, copy_tail, ki_copy_memory}

-- `Amount` rounded up to the next multiple of four.
abbrev pub rounded : ℕ → ℕ
rounded amount = (amount + 3) / 4 * 4

-- The memory with `n` bytes from `source` copied to `dest`, all read before any is written.
abbrev pub copied : ℕ → ℕ → ℕ → Bytes → Bytes
copied dest source n m =
    λ a. if leb dest a && ltb a (dest + n) then m (source + (a - dest)) else m a

-- The regions do not overlap, or the copy moves bytes to lower addresses.
abbrev pub IsForward : ℕ → ℕ → ℕ → Type 0
IsForward dest source n = (dest ≤ source) ⊎ (source + n ≤ dest)

module _ (m : Bytes) (dest source n : ℕ) (forward : IsForward dest source n) where
  -- One more byte, its index written as the code writes it.
  copied-suc :
      (k i j : ℕ)
      → i ≡ k
      → j ≡ k + 1
      → k < n
      → copy_byte dest source i (copied dest source k m) ≡ copied dest source j m
  copied-suc k i j e e' h = fun_ext λ a. ground arith

  -- One round of the first loop.
  copied-block :
      (k : ℕ)
      → k + 3 < n
      → copy_byte dest source (k + 3) (
          copy_byte dest source (k + 2) (
            copy_byte dest source (k + 1) (copy_byte dest source (k + 0) (copied dest source k m))))
        ≡ copied dest source (k + 4) m
  copied-block k h =
      ap (λ t. c 3 (c 2 (c 1 t))) (copied-suc k (k + 0) (k + 1) (omega arith) refl (omega arith))
      ∙ ap (λ t. c 3 (c 2 t)) (copied-suc (k + 1) (k + 1) (k + 2) refl (omega arith) (omega arith))
      ∙ ap (λ t. c 3 t) (copied-suc (k + 2) (k + 2) (k + 3) refl (omega arith) (omega arith))
      ∙ copied-suc (k + 3) (k + 3) (k + 4) refl (omega arith) h
    where
      c : ℕ → Bytes → Bytes
      c i = copy_byte dest source (k + i)

module _ (m : Bytes) (dest source amount : ℕ) (forward : IsForward dest source (rounded amount))
    (short : amount ≤ 2 ^ 32 - 4) where
  copy_blocks_lem :
      (fuel i : ℕ)
      → i % 4 ≡ 0
      → i ≤ rounded amount
      → rounded amount < i + 4 * fuel
      → copy_blocks dest source amount fuel i (copied dest source i m)
        ≡ some (rounded amount, copied dest source (rounded amount) m)
  unfolding copy_blocks
  copy_blocks_lem zero i e lo hi = absurd (omega arith)
  copy_blocks_lem (suc fuel) i e lo hi = elim (dec_lt i amount) [
    | yes more ↦
        rw
          (
            lt→ltb i amount more,
            copied-block m dest source (rounded amount) forward i (omega arith),
            wrap more,
          )
          (copy_blocks_lem fuel (i + 4) (omega arith) (omega arith) (omega arith))
    | no done ↦
        let e' : i ≡ rounded amount = omega arith in
        rw (ltb-false i amount (omega arith)) (ap (λ (k : ℕ). some (k, copied dest source k m)) e')
  ]
    where
      wrap : i < amount → u32 (i + 4) ≡ i + 4
      wrap h = omega arith

  copied-zero : copied dest source 0 m ≡ m
  copied-zero = fun_ext λ a. ground arith

  -- The second loop has nothing left to do.
  tail_lem :
      (fuel index : ℕ) (m' : Bytes)
      → amount ≤ index
      → copy_tail dest source amount (suc fuel) index m' ≡ some m'
  unfolding copy_tail
  tail_lem fuel index m' h = rw (ltb-false index amount h)

  -- If neither pointer is null, `Amount` is at most 2 ^ 32 - 4 and the regions do not overlap or
  -- the copy goes to lower addresses, `KiCopyMemory` ends within `Amount / 4 + 2` rounds, copies
  -- `Amount` rounded up to a multiple of four, and changes no byte outside of that region.
  pub ki_copy_memory_lem :
      (fuel : ℕ)
      → rounded amount < 4 * fuel
      → source ≢ 0
      → dest ≢ 0
      → ki_copy_memory fuel m dest source amount
        ≡ some (Status.success, copied dest source (rounded amount) m)
  unfolding ki_copy_memory
  ki_copy_memory_lem zero enough s d = absurd (omega arith)
  ki_copy_memory_lem (suc fuel) enough s d =
      rw
        (
          ne→== source 0 s,
          ne→== dest 0 d,
          blocks,
          ◌>>=◌,
          tail_lem fuel (rounded amount) _ (omega arith),
        )
        refl
    where
      blocks :
          copy_blocks dest source amount (suc fuel) 0 m
          ≡ some (rounded amount, copied dest source (rounded amount) m)
      blocks =
          subst
            (λ t.
              copy_blocks dest source amount (suc fuel) 0 t
              ≡ some (rounded amount, copied dest source (rounded amount) m))
            copied-zero (copy_blocks_lem (suc fuel) 0 (omega arith) (omega arith) (omega arith))

-- With a longer `Amount` the index wraps before it gets there: the function never returns.
copy_blocks-diverges :
    (dest source amount : ℕ)
    → 2 ^ 32 - 4 < amount
    → (fuel i : ℕ) (m : Bytes) → i % 4 ≡ 0
    → i < 2 ^ 32
    → copy_blocks dest source amount fuel i m ≡ none
unfolding copy_blocks
copy_blocks-diverges dest source amount long zero i m e h = refl
copy_blocks-diverges dest source amount long (suc fuel) i m e h =
    rw (lt→ltb i amount (omega arith)) (
      copy_blocks-diverges dest source amount long fuel (u32 (i + 4)) _ (omega arith) (omega arith))

-- If neither pointer is null and `Amount` is above 2 ^ 32 - 4, `KiCopyMemory` does not return,
-- whatever the number of rounds.
pub ki_copy_memory-diverges :
    (fuel : ℕ) (m : Bytes) (dest source amount : ℕ)
    → 2 ^ 32 - 4 < amount
    → source ≢ 0
    → dest ≢ 0
    → ki_copy_memory fuel m dest source amount ≡ none
unfolding ki_copy_memory
ki_copy_memory-diverges fuel m dest source amount long s d =
    rw
      (
        ne→== source 0 s,
        ne→== dest 0 d,
        copy_blocks-diverges dest source amount long fuel 0 m (omega arith) (omega arith),
      )
      refl
