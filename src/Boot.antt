-- ===== src/Boot.antt =====
-- The boot loader of bootloader/boot.c but for the kernel's file: pages, texts and the
-- memory map. `none` is a loop that ran out of fuel, or a trap.
pub mod Numbers
pub mod Elf
pub mod Loader
pub mod Segments
pub mod Cells
pub mod Firmware
pub mod Displays
pub mod Ranges
pub mod Main
pub mod Numerals
pub mod Resolutions
pub mod Handover
pub mod Endings
mod Tests
use feral.Base.{
  ℕ, zero, suc, ◌+◌, ◌-◌, ◌*◌, ◌/◌, ◌%◌, ◌^◌, Bool, true, false, not, ◌&&◌, ◌||◌, Option, none,
  some, List, [], ◌∷◌, ltb, leb, ◌==◌, if◌then◌else◌, u32, u64, sub64, get_or, length,
}
use feral.Base.Fault.{◌>>=◌}
use feral.Memory.{Bytes, write, load64}
use feral.Numbers.{flip}
use feral.Startup.{MmStructureType, BootMemoryRange}

abbrev pub efi_page_size : ℕ
efi_page_size = 4096

unfoldable pub bytes_to_efi_pages : ℕ → ℕ
bytes_to_efi_pages bytes =
    let ret_val = bytes / 2 ^ 12 in
    if not (ret_val % efi_page_size == 0) || ret_val == 0 then u64 (ret_val + 1) else ret_val

-- The digits of `InternalItoaBaseChange`, in a buffer of 16-bit characters.
abbrev pub efi_digit : ℕ → ℕ
efi_digit rem =
    if leb rem 9 then rem + b'0' else if ltb rem 35 then rem + b'a' - 10 else rem + b'A' - 36

module _ (radix : ℕ) where
  unfoldable pub efi_emit : ℕ → ℕ → ℕ → (ℕ → ℕ) → Option (ℕ × (ℕ → ℕ))
  efi_emit zero val_copy len buf = none
  efi_emit (suc fuel) val_copy len buf =
      let rest =
        efi_emit fuel (val_copy / radix) (len + 1) (write buf len (efi_digit (val_copy % radix))) in
      if val_copy == 0 then some (len, buf) else rest

unfoldable pub efi_itoa_base_change : ℕ → ℕ → (ℕ → ℕ) → ℕ → Option (ℕ → ℕ)
efi_itoa_base_change fuel val buf radix =
    if val == 0 then some (write (write buf 0 b'0') 1 0) else if radix == 0 then none else (do
      (len, digits) ← efi_emit radix fuel val 0 buf
      some (write (flip len (len / 2) 0 digits) len 0))

pub data EfiMemoryType : Type 0 where
  reserved loader_code loader_data boot_services_code boot_services_data : EfiMemoryType
  runtime_services_code runtime_services_data conventional unusable : EfiMemoryType
  acpi_reclaim acpi_nvs memory_mapped_io memory_mapped_io_port_space pal_code max_type :
      EfiMemoryType

unfoldable pub get_efi_memory_map_to_free_or_not : EfiMemoryType → MmStructureType
get_efi_memory_map_to_free_or_not EfiMemoryType.conventional = MmStructureType.free_area_range
get_efi_memory_map_to_free_or_not EfiMemoryType.loader_code = MmStructureType.used_area_range
get_efi_memory_map_to_free_or_not EfiMemoryType.loader_data = MmStructureType.used_area_range
get_efi_memory_map_to_free_or_not EfiMemoryType.boot_services_code = MmStructureType.used_area_range
get_efi_memory_map_to_free_or_not EfiMemoryType.boot_services_data = MmStructureType.used_area_range
get_efi_memory_map_to_free_or_not EfiMemoryType.runtime_services_code =
    MmStructureType.used_area_range
get_efi_memory_map_to_free_or_not EfiMemoryType.runtime_services_data =
    MmStructureType.used_area_range
get_efi_memory_map_to_free_or_not _ = MmStructureType.other_area_range

-- What the loader makes of one descriptor of the firmware's memory map.
pub record EfiMemoryDescriptor : Type 0 where
  pub type : EfiMemoryType
  pub physical_start : ℕ
  pub number_of_pages : ℕ

unfoldable pub memory_range : EfiMemoryDescriptor → BootMemoryRange
memory_range current =
    let size = u64 (efi_page_size * current.number_of_pages) in
    record {
      usage = get_efi_memory_map_to_free_or_not current.type;
      start = current.physical_start;
      end = u64 (current.physical_start + size);
    }
