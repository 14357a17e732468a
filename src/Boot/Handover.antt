-- ===== src/Boot/Handover.antt =====
-- What the loop of `uefi_main` of bootloader/boot.c over the map of the firmware leaves in the kernel's
-- ranges of memory.
use native.Mathlib.Decide.{ℕ_discrete}
use mathlib.Core.Path.{subst}
use feral.Base.{
  ℕ, zero, suc, ◌+◌, ◌*◌, ◌≤◌, ◌<◌, ◌≡◌, ◌⊎◌, Option, some, refl, ◌∙◌, arith, u32, u64, leb, true,
  ◌&&◌, ◌==◌, ==_iff, if◌then◌else◌, ne→==, inl, inr,
}
use feral.Base.Fault.{◌>>=◌}
use feral.Memory.{Bytes, load64}
use feral.Startup.{MmStructureType, BootMemoryRange}
use feral.Base.Byte.{holds_below, holds_at}
use feral.Boot.{memory_range, get_efi_memory_map_to_free_or_not}
use feral.Boot.Elf.{load32, store64}
use feral.Boot.Cells.{
  load64-SameAt, load32-SameAt, load64-store64, load32-store32, outside64, outside32,
}
use feral.Boot.Firmware.{Firmware, store32}
use feral.Boot.Ranges.{memory_type, structure_number, read_descriptor, store_range, convert_ranges}
use feral.Boot.Numerals.{tell_range-Runs}

-- What a type of memory is for the kernel, by the numbers of the UEFI specification and of the
-- kernel's structures: conventional memory, 7, is a free area, 9; what the loader and the services
-- of the firmware use, 1 to 6, is a used area, 10; and all else is another area, 12.
abbrev pub kernel_usage : ℕ → ℕ
kernel_usage type = if type == 7 then 9 else if leb 1 type && leb type 6 then 10 else 12

-- The cells at `p` hold the range of the descriptor that lies at `d` in `m`: its usage, where it
-- starts, and where it ends after its pages of 4096 bytes, as 64 bits.
pub record IsRangeOf (m : Bytes) (d : ℕ) (m' : Bytes) (p : ℕ) : Type 0 where
  pub usage : load32 m' p ≡ kernel_usage (load32 m d)
  pub start : load64 m' (p + 8) ≡ u64 (load64 m (d + 8))
  pub end : load64 m' (p + 16) ≡ u64 (load64 m (d + 8) + 4096 * load64 m (d + 24))

known_types :
    holds_below 14
      (λ n. structure_number (get_efi_memory_map_to_free_or_not (memory_type n)) == kernel_usage n)
    ≡ true
unfolding holds_below structure_number get_efi_memory_map_to_free_or_not memory_type
known_types = refl

other_type :
    (n : ℕ)
    → 14 ≤ n
    → structure_number (get_efi_memory_map_to_free_or_not (memory_type n)) ≡ kernel_usage n
unfolding structure_number get_efi_memory_map_to_free_or_not memory_type
other_type n above =
    rw
      (
        ne→== n 0 (omega arith),
        ne→== n 1 (omega arith),
        ne→== n 2 (omega arith),
        ne→== n 3 (omega arith),
        ne→== n 4 (omega arith),
        ne→== n 5 (omega arith),
        ne→== n 6 (omega arith),
        ne→== n 7 (omega arith),
        ne→== n 8 (omega arith),
        ne→== n 9 (omega arith),
        ne→== n 10 (omega arith),
        ne→== n 11 (omega arith),
        ne→== n 12 (omega arith),
        ne→== n 13 (omega arith),
      )
      (ground arith)

usage_lem :
    (n : ℕ) → structure_number (get_efi_memory_map_to_free_or_not (memory_type n)) ≡ kernel_usage n
usage_lem n = elim (known_or_other n) [
  | inl known ↦ (==_iff _ _).0 (holds_at 14 _ n known_types known)
  | inr above ↦ other_type n above
]
  where
    known_or_other : (n : ℕ) → (n < 14) ⊎ (14 ≤ n)
    known_or_other n = omega arith

-- The cells of a range of the kernel.
abbrev IsStored : Bytes → ℕ → BootMemoryRange → Type 0
IsStored m p range =
    (load32 m p ≡ structure_number range.usage)
    × (load64 m (p + 8) ≡ u64 range.start)
    × (load64 m (p + 16) ≡ u64 range.end)

structure_number-fits : (t : MmStructureType) → u32 (structure_number t) ≡ structure_number t
unfolding structure_number
structure_number-fits MmStructureType.management_create_info = refl
structure_number-fits MmStructureType.physical_allocation_info = refl
structure_number-fits MmStructureType.physical_frame_allocator = refl
structure_number-fits MmStructureType.physical_frame_block = refl
structure_number-fits MmStructureType.virtual_allocation_info = refl
structure_number-fits MmStructureType.virtual_frame_allocator = refl
structure_number-fits MmStructureType.virtual_frame_block = refl
structure_number-fits MmStructureType.heap_allocation_info = refl
structure_number-fits MmStructureType.heap_allocator = refl
structure_number-fits MmStructureType.free_area_range = refl
structure_number-fits MmStructureType.used_area_range = refl
structure_number-fits MmStructureType.reserved_area_range = refl
structure_number-fits MmStructureType.other_area_range = refl

IsStored-SameAt :
    (m m' : Bytes) (p : ℕ) (range : BootMemoryRange)
    → ((a : ℕ) → p ≤ a → a < p + 24 → m' a ≡ m a)
    → IsStored m p range
    → IsStored m' p range
IsStored-SameAt m m' p range same (usage, start, end) = (
  load32-SameAt p m' m (λ a lo hi. same a (omega arith) (omega arith)) ∙ usage,
  load64-SameAt (p + 8) m' m (λ a lo hi. same a (omega arith) (omega arith)) ∙ start,
  load64-SameAt (p + 16) m' m (λ a lo hi. same a (omega arith) (omega arith)) ∙ end,
)

store_range-outside :
    (p a : ℕ) (range : BootMemoryRange) (m : Bytes)
    → (a < p) ⊎ (p + 24 ≤ a)
    → store_range p range m a ≡ m a
unfolding store_range
store_range-outside p a range m out =
    let m₁ = store32 p (structure_number range.usage) m in
    outside64 (p + 16) range.end a (store64 (p + 8) range.start m₁) (omega arith)
    ∙ outside64 (p + 8) range.start a m₁ (omega arith)
    ∙ outside32 p (structure_number range.usage) a m (omega arith)

store_range-IsStored :
    (p : ℕ) (range : BootMemoryRange) (m : Bytes) → IsStored (store_range p range m) p range
unfolding store_range
store_range-IsStored p range m =
    let m₁ = store32 p (structure_number range.usage) m in
    let m₂ = store64 (p + 8) range.start m₁ in
    let m₃ = store64 (p + 16) range.end m₂ in
    (
      load32-SameAt p m₃ m₁ (λ a lo hi.
            outside64 (p + 16) range.end a m₂ (omega arith)
            ∙ outside64 (p + 8) range.start a m₁ (omega arith))
          ∙ load32-store32 p (structure_number range.usage) m
          ∙ structure_number-fits range.usage,
      load64-SameAt (p + 8) m₃ m₂ (λ a lo hi. outside64 (p + 16) range.end a m₂ (omega arith))
          ∙ load64-store64 (p + 8) range.start m₁,
      load64-store64 (p + 16) range.end m₂,
    )

read_descriptor-SameAt :
    (m m' : Bytes) (p : ℕ)
    → ((a : ℕ) → p ≤ a → a < p + 40 → m a ≡ m' a)
    → read_descriptor m p ≡ read_descriptor m' p
unfolding read_descriptor
read_descriptor-SameAt m m' p same =
    rw
      (
        load32-SameAt p m m' (λ a lo hi. same a (omega arith) (omega arith)),
        load64-SameAt (p + 8) m m' (λ a lo hi. same a (omega arith) (omega arith)),
        load64-SameAt (p + 24) m m' (λ a lo hi. same a (omega arith) (omega arith)),
      )
      refl

module _ {ℓ} {F : Type ℓ} (fw : Firmware F) (fuel : ℕ) (enough : 20 < fuel)
    (memory_map memory_ranges : ℕ) where
  -- Where a descriptor lies, and where its range is put.
  abbrev pub descriptor_place : ℕ → ℕ
  descriptor_place iterator = memory_map + 40 * iterator

  abbrev pub range_place : ℕ → ℕ
  range_place iterator = memory_ranges + 24 * iterator

  -- What the loop makes of a descriptor.
  abbrev meant : Bytes → ℕ → BootMemoryRange
  meant m iterator = memory_range (read_descriptor m (descriptor_place iterator))

  meant-IsRangeOf :
      (m m' : Bytes) (i p : ℕ) → IsStored m' p (meant m i) → IsRangeOf m (descriptor_place i) m' p
  unfolding memory_range read_descriptor
  meant-IsRangeOf m m' i p (usage, start, end) = record {
    usage = usage ∙ usage_lem (load32 m (descriptor_place i));
    start = start;
    end = end ∙ omega arith;
  }

  -- The map and the ranges lie apart.
  abbrev pub AreApart : ℕ → Type 0
  AreApart count = (descriptor_place count ≤ memory_ranges) ⊎ (range_place count ≤ memory_map)

  abbrev ranges_from : ℕ → ℕ → (ℕ → ℕ) → Bytes → F → Option (Bytes × F)
  ranges_from left iterator = convert_ranges fw fuel left iterator memory_map memory_ranges

  ranges_lem :
      (left iterator : ℕ) (buf : ℕ → ℕ) (m : Bytes) (f : F)
      → AreApart (iterator + left)
      → (m' : Bytes) × (f' : F) × (ranges_from left iterator buf m f ≡ some (m', f'))
        × ((i : ℕ) → iterator ≤ i → i < iterator + left → IsStored m' (range_place i) (meant m i))
        × ((a : ℕ) → (a < range_place iterator) ⊎ (range_place (iterator + left) ≤ a) → m' a ≡ m a)
  unfolding convert_ranges
  ranges_lem zero iterator buf m f apart =
      (m, f, refl, (λ i lo hi. absurd (omega arith)), (λ a out. refl))
  ranges_lem (suc left) iterator buf m f apart =
      let range = meant m iterator in
      let m₁ = store_range (range_place iterator) range m in
      let ((buf', f₁), told) = tell_range-Runs fw fuel enough range buf f in
      let (m', f', runs, holds, same) =
        ranges_lem left (iterator + 1) buf' m₁ f₁ (subst AreApart (omega arith) apart) in
      (
        m',
        f',
        rw (told, ◌>>=◌) runs,
        (λ i lo hi. elim (ℕ_discrete iterator i) [
          | yes e ↦
              subst (λ j. IsStored m' (range_place j) (meant m j)) e
                (IsStored-SameAt m₁ m' (range_place iterator) range
                  (λ a from to. same a (omega arith))
                  (store_range-IsStored (range_place iterator) range m))
          | no ne ↦
              subst (λ d. IsStored m' (range_place i) (memory_range d))
                (read_descriptor-SameAt m₁ m (descriptor_place i)
                  (λ a from to. store_range-outside (range_place iterator) a range m (omega arith)))
                (holds i (omega arith) (omega arith))
        ]),
        (λ a out.
            same a (omega arith)
            ∙ store_range-outside (range_place iterator) a range m (omega arith)),
      )

  -- Where the memory map of the firmware and the ranges of the kernel lie apart, with more than 20
  -- rounds of fuel, the loop of `uefi_main` over the map ends: for each descriptor, in steps of 40
  -- bytes, the cells of its range hold the start, the start and 4096 bytes for each page as 64
  -- bits, and the usage 9 for conventional memory, 10 for the memory of the loader and of the
  -- firmware's services and 12 for every other type, and the memory outside of the ranges is as
  -- before.
  pub convert_ranges_lem :
      (count : ℕ) (buf : ℕ → ℕ) (m : Bytes) (f : F) (i a : ℕ)
      → AreApart count
      → i < count
      → (a < memory_ranges) ⊎ (range_place count ≤ a)
      → (m' : Bytes) × (f' : F) × (convert_ranges fw fuel count 0 memory_map memory_ranges buf m f
          ≡ some (m', f'))
        × IsRangeOf m (descriptor_place i) m' (range_place i)
        × (m' a ≡ m a)
  convert_ranges_lem count buf m f i a apart hi out =
      let (m', f', runs, holds, same) =
        ranges_lem count 0 buf m f (subst AreApart (omega arith) apart) in
      (
        m',
        f',
        runs,
        meant-IsRangeOf m m' i (range_place i) (holds i (omega arith) (omega arith)),
        same a (omega arith),
      )
