-- ===== src/EfiEntry/Glyphs.antt =====
-- What the kernel finds in the character map that kern/entry/efientry.c hands over: the type of the
-- map is a pointer to pointers, and what it points at are the rows of glyphs.
use feral.Base.{
  ℕ, ◌+◌, ◌*◌, ◌<◌, ◌≡◌, ◌≢◌, Bool, true, false, not, ◌&&◌, ◌||◌, List, [], ◌∷◌, refl, arith, ◌==◌,
  Option,
}
use feral.Base.Byte.{holds_below, holds_at}
use feral.Charmap.{
  default_char_map, numerals, lower_case_a_to_m, lower_case_n_to_z, upper_case_a_to_m,
  upper_case_n_to_z,
}
use feral.Paging.Mmu.{is_canonical}
use feral.EfiEntry.{KrnlCharMap, EfiBootInfo, kern_init, char_map_at, efi_char_map, glyph_at}

-- The rows of a glyph as one number, the top row in the lowest byte.
unfoldable pub rows_as_word : List ℕ → ℕ
rows_as_word [] = 0
rows_as_word (row ∷ rows) = row + 256 * rows_as_word rows

-- The letter w.
abbrev pub letter_w : ℕ
letter_w = 32

abbrev is_trap : ℕ → Bool
is_trap i =
    char_map_at efi_char_map i == rows_as_word (glyph_at default_char_map i)
    && (i == letter_w || not (is_canonical (char_map_at efi_char_map i)))

traps : holds_below 62 is_trap ≡ true
unfolding holds_below default_char_map numerals lower_case_a_to_m lower_case_n_to_z
    upper_case_a_to_m upper_case_n_to_z rows_as_word
traps = refl

parts :
    (x y i : ℕ) (b : Bool)
    → (x == y && (i == letter_w || not b)) ≡ true
    → (x ≡ y) × (i ≢ letter_w → b ≡ false)
parts x y i b h = (ground arith, λ other. ground arith)

abbrev pub handed : {S : Type 0} → (ℕ → S → Option S) → EfiBootInfo → KrnlCharMap
handed vga boot_info = (kern_init vga boot_info).env_block.char_map

abbrev pub counted : KrnlCharMap → ℕ
counted map = map.num_numerals + map.num_lower_case + map.num_upper_case

module _ (S : Type 0) (vga : ℕ → S → Option S) (boot_info : EfiBootInfo) where
  pub char_map_at-traps :
      (i : ℕ)
      → i < counted (handed vga boot_info)
      → (char_map_at (handed vga boot_info) i ≡ rows_as_word (glyph_at default_char_map i))
        × (i ≢ letter_w → is_canonical (char_map_at (handed vga boot_info) i) ≡ false)
  unfolding kern_init
  char_map_at-traps i below = parts _ _ i _ (holds_at 62 is_trap i traps below)
