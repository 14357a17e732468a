-- ===== src/Boot/Ranges.antt =====
-- The loop of `uefi_main` of bootloader/boot.c that makes the kernel's ranges of memory from the map
-- of the firmware.
use feral.Base.{ℕ, zero, suc, ◌+◌, ◌*◌, Option, some, ◌==◌, if◌then◌else◌}
use feral.Base.Fault.{◌>>=◌}
use feral.Memory.{Bytes, load64}
use feral.Startup.{MmStructureType, BootMemoryRange}
use feral.Boot.{EfiMemoryType, EfiMemoryDescriptor, memory_range}
use feral.Boot.Elf.{Message, load32, store64}
use feral.Boot.Firmware.{Firmware, say, show_number, store32}

-- An enumeration keeps its order; what is behind it is no type.
unfoldable pub memory_type : ℕ → EfiMemoryType
memory_type n =
    if n == 0
    then EfiMemoryType.reserved
    else if n == 1
    then EfiMemoryType.loader_code
    else if n == 2
    then EfiMemoryType.loader_data
    else if n == 3
    then EfiMemoryType.boot_services_code
    else if n == 4
    then EfiMemoryType.boot_services_data
    else if n == 5
    then EfiMemoryType.runtime_services_code
    else if n == 6
    then EfiMemoryType.runtime_services_data
    else if n == 7
    then EfiMemoryType.conventional
    else if n == 8
    then EfiMemoryType.unusable
    else if n == 9
    then EfiMemoryType.acpi_reclaim
    else if n == 10
    then EfiMemoryType.acpi_nvs
    else if n == 11
    then EfiMemoryType.memory_mapped_io
    else if n == 12
    then EfiMemoryType.memory_mapped_io_port_space
    else if n == 13
    then EfiMemoryType.pal_code
    else EfiMemoryType.max_type

unfoldable pub structure_number : MmStructureType → ℕ
structure_number MmStructureType.management_create_info = 0
structure_number MmStructureType.physical_allocation_info = 1
structure_number MmStructureType.physical_frame_allocator = 2
structure_number MmStructureType.physical_frame_block = 3
structure_number MmStructureType.virtual_allocation_info = 4
structure_number MmStructureType.virtual_frame_allocator = 5
structure_number MmStructureType.virtual_frame_block = 6
structure_number MmStructureType.heap_allocation_info = 7
structure_number MmStructureType.heap_allocator = 8
structure_number MmStructureType.free_area_range = 9
structure_number MmStructureType.used_area_range = 10
structure_number MmStructureType.reserved_area_range = 11
structure_number MmStructureType.other_area_range = 12

abbrev pub descriptor_bytes : ℕ
descriptor_bytes = 40

abbrev pub range_bytes : ℕ
range_bytes = 24

-- The descriptor at an address: the type, four bytes of padding, the physical and the virtual start,
-- the pages and the attribute.
unfoldable pub read_descriptor : Bytes → ℕ → EfiMemoryDescriptor
read_descriptor m p = record {
  type = memory_type (load32 m p);
  physical_start = load64 m (p + 8);
  number_of_pages = load64 m (p + 24);
}

-- The usage, four bytes of padding, the start and the end.
unfoldable pub store_range : ℕ → BootMemoryRange → Bytes → Bytes
store_range p range m =
    store64 (p + 16) range.end
      (store64 (p + 8) range.start (store32 p (structure_number range.usage) m))

module _ {ℓ} {F : Type ℓ} (fw : Firmware F) (fuel : ℕ) where
  -- Only a range that is free is told.
  unfoldable pub tell_range : BootMemoryRange → (ℕ → ℕ) → F → Option ((ℕ → ℕ) × F)
  tell_range range itoa_buf f =
      if structure_number range.usage == 9
      then (do
        (buf₁, f₁) ← show_number fw fuel 16 range.start itoa_buf (say fw Message.mem_range f)
        (buf₂, f₂) ← show_number fw fuel 16 range.end buf₁ (say fw Message.space f₁)
        some (buf₂, say fw Message.newline f₂))
      else some (itoa_buf, f)

  -- The loop, with `left` descriptors to go; the map and the ranges do not wrap around the end of
  -- the memory.
  unfoldable pub convert_ranges : ℕ → ℕ → ℕ → ℕ → (ℕ → ℕ) → Bytes → F → Option (Bytes × F)
  convert_ranges zero iterator memory_map memory_ranges itoa_buf m f = some (m, f)
  convert_ranges (suc left) iterator memory_map memory_ranges itoa_buf m f =
      let current = read_descriptor m (memory_map + descriptor_bytes * iterator) in
      let range = memory_range current in
      let m' = store_range (memory_ranges + range_bytes * iterator) range m in
      do
        (buf, f') ← tell_range range itoa_buf f
        convert_ranges left (iterator + 1) memory_map memory_ranges buf m' f'
