-- ===== src/Memory.antt =====
-- kern/lib/kernel_memfuncs.c over a flat memory of bytes. A loop takes fuel, and `none` says that
-- it ran out: the loops whose `UINT32` index wraps below `Amount` never end.
pub mod Copy
pub mod Fill
pub mod Compare
mod Tests
use feral.Base.{
  ℕ, zero, suc, ◌+◌, ◌*◌, ◌<◌, Bool, true, false, ◌&&◌, ◌||◌, Option, none, some, ltb, ◌==◌,
  if◌then◌else◌, u8, u32, u64,
}
use feral.Base.Fault.{◌>>=◌}
use feral.Status.{Status}

-- The byte at each address.
abbrev pub Bytes : Type 0
Bytes = ℕ → ℕ

abbrev pub write : Bytes → ℕ → ℕ → Bytes
write m a v = λ x. if x == a then v else m x

-- `dstAsChar[Index] = srcAsChar[Index]`
abbrev pub copy_byte : ℕ → ℕ → ℕ → Bytes → Bytes
copy_byte dest source index m = write m (dest + index) (m (source + index))

module _ (dest source amount : ℕ) where
  unfoldable pub copy_blocks : ℕ → ℕ → Bytes → Option (ℕ × Bytes)
  copy_blocks zero index m = none
  copy_blocks (suc fuel) index m =
      let m₁ = copy_byte dest source (index + 0) m in
      let m₂ = copy_byte dest source (index + 1) m₁ in
      let m₃ = copy_byte dest source (index + 2) m₂ in
      let m₄ = copy_byte dest source (index + 3) m₃ in
      let rest = copy_blocks fuel (u32 (index + 4)) m₄ in
      if ltb index amount then rest else some (index, m)

  unfoldable pub copy_tail : ℕ → ℕ → Bytes → Option Bytes
  copy_tail zero index m = none
  copy_tail (suc fuel) index m =
      let rest = copy_tail fuel (u32 (index + 1)) (copy_byte dest source index m) in
      if ltb index amount then rest else some m

unfoldable pub ki_copy_memory : ℕ → Bytes → ℕ → ℕ → ℕ → Option (Status × Bytes)
unfolding copy_blocks copy_tail
ki_copy_memory fuel m dest source amount =
    if source == 0 || dest == 0 then some (Status.invalid_memory_location, m) else do
      (index, m') ← copy_blocks dest source amount fuel 0 m
      m'' ← copy_tail dest source amount fuel index m'
      some (Status.success, m'')

module _ (dest val amt : ℕ) where
  unfoldable pub fill_blocks : ℕ → ℕ → Bytes → Option (ℕ × Bytes)
  fill_blocks zero index m = none
  fill_blocks (suc fuel) index m =
      let m₁ = write m (dest + (index + 0)) val in
      let m₂ = write m₁ (dest + (index + 1)) val in
      let m₃ = write m₂ (dest + (index + 2)) val in
      let m₄ = write m₃ (dest + (index + 3)) val in
      let rest = fill_blocks fuel (u64 (index + 4)) m₄ in
      if ltb index amt then rest else some (index, m)

  unfoldable pub fill_tail : ℕ → ℕ → Bytes → Option Bytes
  fill_tail zero index m = none
  fill_tail (suc fuel) index m =
      let rest = fill_tail fuel (u64 (index + 1)) (write m (dest + (index + 0)) val) in
      if ltb index amt then rest else some m

unfoldable pub ki_set_memory_bytes : ℕ → Bytes → ℕ → ℕ → ℕ → Option (Status × Bytes)
unfolding fill_blocks fill_tail
ki_set_memory_bytes fuel m dest val amt = do
  (index, m') ← fill_blocks dest val amt fuel 0 m
  m'' ← fill_tail dest val amt fuel index m'
  some (Status.success, m'')

-- The eight bytes at an address, the lowest first.
abbrev pub load64 : Bytes → ℕ → ℕ
load64 m p =
    m p
    + 0x100
      * (m (p + 1)
          + 0x100
            * (m (p + 2)
                + 0x100
                  * (m (p + 3)
                      + 0x100
                        * (m (p + 4)
                            + 0x100 * (m (p + 5) + 0x100 * (m (p + 6) + 0x100 * m (p + 7)))))))

module _ (m : Bytes) (source dest amount : ℕ) where
  -- The first loop of `KiCompareMemory`, with `left` rounds to go: what it leaves in `*Val`.
  unfoldable pub compare_words : ℕ → ℕ → Bool → Bool
  compare_words zero i val = val
  compare_words (suc left) i val =
      let rest = compare_words left (i + 1) true in
      if load64 m (source + i) == load64 m (dest + i) then rest else false

  abbrev pub same_byte : ℕ → Bool
  same_byte index = m (dest + index) == m (source + index)

  unfoldable pub compare_blocks :
      ℕ → ℕ → Bool → Bool → Bool → Bool → Option (ℕ × Bool × Bool × Bool × Bool)
  compare_blocks zero index c₁ c₂ c₃ c₄ = none
  compare_blocks (suc fuel) index c₁ c₂ c₃ c₄ =
      let rest =
        compare_blocks fuel (u32 (index + 4)) (c₁ && same_byte (index + 0))
          (c₂ && same_byte (index + 1)) (c₃ && same_byte (index + 2))
          (c₄ && same_byte (index + 3)) in
      if ltb index amount then rest else some (index, c₁, c₂, c₃, c₄)

  unfoldable pub compare_tail : ℕ → ℕ → Bool → Option Bool
  compare_tail zero index c₁ = none
  compare_tail (suc fuel) index c₁ =
      let rest = compare_tail fuel (u32 (index + 1)) (c₁ && same_byte (index + 0)) in
      if ltb index amount then rest else some c₁

-- The status, and what `*Val` holds then; `val` is what it held before.
unfoldable pub ki_compare_memory : ℕ → Bytes → ℕ → ℕ → ℕ → Bool → Option (Status × Bool)
unfolding compare_words compare_blocks compare_tail
ki_compare_memory fuel m source dest amount val =
    if source == 0 || dest == 0 then some (Status.invalid_memory_location, val) else do
      let first = compare_words m source dest amount amount 0 val
      (index, c₁, c₂, c₃, c₄) ← compare_blocks m source dest amount fuel 0 true true true true
      c ← compare_tail m source dest amount fuel index c₁
      let last = λ (overwritten : Bool). c && c₂ && c₃ && c₄
      some (Status.success, last first)
