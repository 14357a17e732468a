-- ===== src/Startup/Ranges.antt =====
-- What becomes of the memory map on its way to the frame bitmap.
use native.Mathlib.Nat.{le_refl}
use feral.Base.{
  ℕ, zero, suc, ◌+◌, ◌*◌, ◌≤◌, ◌≡◌, List, [], ◌∷◌, some, arith, refl, ap, ltb, if◌then◌else◌, u64,
  length, ne→==, ◌/◌, ◌≢◌,
}
use feral.Startup.{
  MmStructureType, MultibootMmapEntry, BootMemoryRange, MmMemoryRange, read_entries, handle_memory,
  convert_range, convert_ranges, scan_ranges,
}

abbrev pub All {ℓ κ} : {A : Type ℓ} → (A → Type κ) → List A → Type κ
All P [] = Unit
All P (x ∷ xs) = P x × All P xs

-- What `KiStartupSystem` hands on of one range, seen from the entry that it was.
abbrev pub IsOrdered : ℕ → MmMemoryRange → Type 0
IsOrdered highest range =
    (range.end ≤ highest)
    × ((range.s_type ≡ MmStructureType.free_area_range) → 1024 * 1024 ≤ range.start)

module _ (entries : ℕ → MultibootMmapEntry) where
  abbrev end_of : ℕ → ℕ
  end_of index = u64 ((entries index).addr + (entries index).len)

  abbrev raised : ℕ → ℕ → ℕ
  raised index highest = if ltb highest (end_of index) then end_of index else highest

  abbrev ranges_of : ℕ → ℕ → ℕ → List MmMemoryRange
  ranges_of left index highest = convert_ranges (read_entries entries left index highest).0

  scan-read :
      (left index total highest : ℕ)
      → (scan_ranges (ranges_of left index highest) total highest).1
        ≡ (read_entries entries left index highest).1
  unfolding read_entries scan_ranges convert_ranges
  scan-read zero index total highest = refl
  scan-read (suc left) index total highest = scan-read left (index + 1) _ _

  le-read : (left index highest : ℕ) → highest ≤ (read_entries entries left index highest).1
  unfolding read_entries
  le-read zero index highest = le_refl highest
  le-read (suc left) index highest =
      let rest = le-read left (index + 1) (raised index highest) in ground arith

  read-IsOrdered :
      (left index highest : ℕ)
      → All (IsOrdered (read_entries entries left index highest).1) (ranges_of left index highest)
  unfolding read_entries convert_ranges convert_range
  read-IsOrdered zero index highest = tt
  read-IsOrdered (suc left) index highest =
      let rest = le-read left (index + 1) (raised index highest) in
      let low : end_of index ≤ (read_entries entries left (index + 1) (raised index highest)).1 =
        ground arith in
      ((low, λ free. ground arith), read-IsOrdered left (index + 1) (raised index highest))

  read-length : (left index highest : ℕ) → length (ranges_of left index highest) ≡ left
  unfolding read_entries convert_ranges
  read-length zero index highest = refl
  read-length (suc left) index highest =
      ap suc (read-length left (index + 1) (raised index highest))

-- If the size of an entry is not 0, `HandleMemory` succeeds, what `KiStartupSystem` makes of its
-- ranges has as many, the highest address that `KiInitializeMemMgr` finds in those is the
-- `MaxAddress` of `HandleMemory`, no range ends above it, and a range that is marked free starts
-- at 1 MiB or above.
pub handle_memory-scan :
    (size entry_size total : ℕ) (entries : ℕ → MultibootMmapEntry)
    → entry_size ≢ 0
    → (ranges : List BootMemoryRange) × (highest : ℕ) × (handle_memory size entry_size entries 0
        ≡ some (ranges, highest))
      × (length (convert_ranges ranges) ≡ size / entry_size)
      × ((scan_ranges (convert_ranges ranges) total 0).1 ≡ highest)
      × All (IsOrdered highest) (convert_ranges ranges)
unfolding handle_memory
handle_memory-scan size entry_size total entries given = (
  (read_entries entries (size / entry_size) 0 0).0,
  (read_entries entries (size / entry_size) 0 0).1,
  rw (ne→== entry_size 0 given) refl,
  read-length entries (size / entry_size) 0 0,
  scan-read entries (size / entry_size) 0 total 0,
  read-IsOrdered entries (size / entry_size) 0 0,
)
