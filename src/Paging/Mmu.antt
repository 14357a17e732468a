-- ===== src/Paging/Mmu.antt =====
-- How the processor translates an address with four levels of tables in memory, by its manual and
-- not by the code: where each level is in the address, where the address is in an entry, and the
-- large pages. Rights, the bits that only some models reserve, and what the TLB keeps are left out.
use feral.Base.{
  ℕ, ◌+◌, ◌*◌, ◌/◌, ◌%◌, ◌-◌, ◌^◌, ◌≡◌, Bool, true, false, not, ◌||◌, Option, none, some, refl,
  ◌==◌, ltb, leb, if◌then◌else◌,
}
use feral.Paging.{Words, is_present}

-- Bits 47 to 63 are the same.
abbrev pub is_canonical : ℕ → Bool
is_canonical address = ltb address (2 ^ 47) || leb (2 ^ 64 - 2 ^ 47) address

abbrev pub is_large : ℕ → Bool
is_large entry = entry / 2 ^ 7 % 2 == 1

-- The address in bits 12 to 51 of an entry.
abbrev pub frame_of : ℕ → ℕ
frame_of entry = entry / 2 ^ 12 % 2 ^ 40 * 2 ^ 12

-- The entry of an address in a table, by the lowest bit of the level.
abbrev pub entry_for : Words → ℕ → ℕ → ℕ → ℕ
entry_for w table shift address = w (table + 8 * (address / 2 ^ shift % 512))

-- A large page: bit 12 is no part of its address, and the bits from 13 up to its size are reserved.
unfoldable pub in_large_page : ℕ → ℕ → ℕ → Option ℕ
in_large_page shift entry address =
    if entry / 2 ^ 13 % 2 ^ (shift - 13) == 0
    then some (entry / 2 ^ shift % 2 ^ (52 - shift) * 2 ^ shift + address % 2 ^ shift)
    else none

unfoldable pub in_page_table : Words → ℕ → ℕ → Option ℕ
in_page_table w table address =
    let entry = entry_for w table 12 address in
    if is_present entry then some (frame_of entry + address % 2 ^ 12) else none

unfoldable pub in_directory : Words → ℕ → ℕ → Option ℕ
unfolding in_page_table in_large_page
in_directory w table address =
    let entry = entry_for w table 21 address in
    if not (is_present entry)
    then none
    else if is_large entry
    then in_large_page 21 entry address
    else in_page_table w (frame_of entry) address

unfoldable pub in_pointer_table : Words → ℕ → ℕ → Option ℕ
unfolding in_directory in_large_page
in_pointer_table w table address =
    let entry = entry_for w table 30 address in
    if not (is_present entry)
    then none
    else if is_large entry
    then in_large_page 30 entry address
    else in_directory w (frame_of entry) address

-- The physical address of a virtual one, where `cr3` is the address of the first table. A first
-- level has no large pages.
unfoldable pub translate : Words → ℕ → ℕ → Option ℕ
unfolding in_pointer_table
translate w cr3 address =
    let entry = entry_for w cr3 39 address in
    if not (is_canonical address)
    then none
    else if not (is_present entry)
    then none
    else if is_large entry
    then none
    else in_pointer_table w (frame_of entry) address

-- An entry that names a table.
pub record Names (entry table : ℕ) : Type 0 where
  pub present : is_present entry ≡ true
  pub small : is_large entry ≡ false
  pub frame : frame_of entry ≡ table

-- The walk over three tables.
pub translate-tables :
    (w : Words) (cr3 address p₁ p₂ p₃ : ℕ)
    → is_canonical address ≡ true
    → Names (entry_for w cr3 39 address) p₁
    → Names (entry_for w p₁ 30 address) p₂
    → Names (entry_for w p₂ 21 address) p₃
    → is_present (entry_for w p₃ 12 address) ≡ true
    → translate w cr3 address ≡ some (frame_of (entry_for w p₃ 12 address) + address % 2 ^ 12)
unfolding translate in_pointer_table in_directory in_page_table
translate-tables w cr3 address p₁ p₂ p₃ canonical first second third last =
    rw
      (
        canonical, first.present, first.small, first.frame, second.present, second.small,
        second.frame, third.present, third.small, third.frame, last,
      )
      refl
