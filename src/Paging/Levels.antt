-- ===== src/Paging/Levels.antt =====
-- How `x86FindPageLevels` splits an address, and what `PAGE_ALIGN` and `|=` do to an entry.
use feral.Base.{ℕ, ◌+◌, ◌-◌, ◌*◌, ◌/◌, ◌%◌, ◌^◌, ◌<◌, ◌≡◌, arith, ◌∙◌}
use feral.Base.Bits.{bit_and-ones, bit_and-shifted, zero-bit_or}
use feral.Paging.{x86_find_page_levels, page_align, entry_of}

-- Each level that `x86FindPageLevels` stores is below 512, and the four levels with the offset in
-- the page make up the low 48 bits of the address.
pub x86_find_page_levels_lem :
    (address : ℕ)
    → let levels = x86_find_page_levels address in
      (levels.level0 < 512)
      × (levels.level1 < 512)
      × (levels.level2 < 512)
      × (levels.level3 < 512)
      × (levels.level3 * 2 ^ 39
            + levels.level2 * 2 ^ 30
            + levels.level1 * 2 ^ 21
            + levels.level0 * 2 ^ 12
            + address % 2 ^ 12
          ≡ address % 2 ^ 48)
unfolding x86_find_page_levels
x86_find_page_levels_lem address = omega (
  arith,
  bit_and-ones 9 (address / 2 ^ 12),
  bit_and-ones 9 (address / 2 ^ 21),
  bit_and-ones 9 (address / 2 ^ 30),
  bit_and-ones 9 (address / 2 ^ 39),
)

-- Each level is the nine bits of the address from where the level begins.
pub levels-bits :
    (address : ℕ)
    → let levels = x86_find_page_levels address in
      (levels.level0 ≡ address / 2 ^ 12 % 512)
      × (levels.level1 ≡ address / 2 ^ 21 % 512)
      × (levels.level2 ≡ address / 2 ^ 30 % 512)
      × (levels.level3 ≡ address / 2 ^ 39 % 512)
unfolding x86_find_page_levels
levels-bits address = (
  omega (arith, bit_and-ones 9 (address / 2 ^ 12)),
  omega (arith, bit_and-ones 9 (address / 2 ^ 21)),
  omega (arith, bit_and-ones 9 (address / 2 ^ 30)),
  omega (arith, bit_and-ones 9 (address / 2 ^ 39)),
)

-- `PAGE_ALIGN` clears the twelve low bits of a word.
pub page_align_lem : (x : ℕ) → x < 2 ^ 64 → page_align x ≡ x / 4096 * 4096
unfolding page_align
page_align_lem x h = bit_and-shifted 12 x (2 ^ 52 - 1) ∙ omega (arith, bit_and-ones 52 (x / 2 ^ 12))

-- An address stored into a clear entry is present, and can be read back.
pub entry_of-zero :
    (address : ℕ) → address < 2 ^ 64 → entry_of 0 address ≡ address / 4096 * 4096 + 3
entry_of-zero address h = rw (zero-bit_or, page_align_lem address h) (omega arith)

pub page_align-entry_of :
    (address : ℕ) → address < 2 ^ 64 → page_align (entry_of 0 address) ≡ address / 4096 * 4096
page_align-entry_of address h =
    rw (entry_of-zero address h, page_align_lem (address / 4096 * 4096 + 3) (omega arith))
      (omega arith)
