-- ===== src/Boot/Tests.antt =====
-- The boot loader with a firmware that has one file.
use feral.Base.{
  Option, none, ◌+◌, ℕ, ◌≡◌, ◌≢◌, ◌⊎◌, some, List, [], ◌∷◌, refl, arith, replicate, ltb,
  if◌then◌else◌,
}
use feral.Memory.{Bytes}
use feral.Boot.Firmware.{Firmware}
use feral.Boot.Displays.{setup_efi_framebuffer_data}
use feral.Boot.Ranges.{convert_ranges}
use feral.Boot.Main.{Locals, Ending, open_image, uefi_main}
use feral.Boot.Numerals.{Runs}
use feral.Boot.Resolutions.{IsDisplay, setup_efi_framebuffer_data_lem}
use feral.Boot.Handover.{IsRangeOf, convert_ranges_lem}
use feral.Boot.Endings.{
  first_failure, image_statuses, load_file, IsEndingOf, prepared, located, uefi_main_lem,
}
use feral.Boot.Elf.{Services}
use feral.Boot.Loader.{elf_load_file}
use feral.Boot.Segments.{elf_load_file-keeps}

-- The header of a file for x86-64 with one program header at 62, and that header of a segment.
abbrev header : List ℕ
header =
    0x7F ∷ b'E' ∷ b'L' ∷ b'F' ∷ 2 ∷ 1 ∷ 1 ∷ 0 ∷ 0 ∷ 0 ∷ 0 ∷ 0 ∷ 0 ∷ 0 ∷ 0 ∷ 0 ∷ 2 ∷ 0 ∷ 0x3E ∷ 0 ∷ 1
    ∷ 0 ∷ 0 ∷ 0 ∷ 0 ∷ 0 ∷ 16 ∷ 0 ∷ 0 ∷ 0 ∷ 0 ∷ 0 ∷ 62 ∷ 0 ∷ 0 ∷ 0 ∷ 0 ∷ 0 ∷ 0 ∷ 0 ∷ 0 ∷ 0 ∷ 0 ∷ 0
    ∷ 0 ∷ 0 ∷ 0 ∷ 0 ∷ 0 ∷ 0 ∷ 0 ∷ 0 ∷ 62 ∷ 0 ∷ 56 ∷ 0 ∷ 1 ∷ 0 ∷ 0 ∷ 0 ∷ 0 ∷ 0 ∷ []

-- The state is the position; page allocations succeed.
abbrev one_file : Services ℕ
one_file = record {
  read = λ n at. if ltb at 1 then (0, header, 62) else (0, 1 ∷ replicate 55 0, at);
  set_position = λ at f. (0, at);
  allocate_pages = λ at_address kind pages cell f. (0, cell, f);
  allocate_pool = λ kind amt ptr f. (0, ptr, f);
  output_string = λ message f. f;
  stall = λ amt f. f;
}

abbrev blank : Bytes
blank a = 0

elf_load_file-keeps_example :
    (status : ℕ) × (entry' : ℕ) × (m' : Bytes) × (f' : ℕ) × (elf_load_file one_file 100 blank blank
        (λ i. 0)
        0
        blank
        0
      ≡ some (status, entry', m', f'))
    × ((m' ≡ blank) ⊎ (status ≢ 0))
elf_load_file-keeps_example =
    elf_load_file-keeps one_file 100 blank blank (λ i. 0) 0 blank 0 (λ kind pages cell f. refl)
      (omega arith) (omega arith) (omega arith) (omega arith)

-- A firmware with one display and a file of one header; the memory map has one descriptor.
abbrev same_file : Services ℕ
same_file = record {
  read = λ n f. (0, header, f);
  set_position = λ at f. (0, f);
  allocate_pages = λ at_address kind pages cell f. (0, cell, f);
  allocate_pool = λ kind amt ptr f. (0, ptr, f);
  output_string = λ message f. f;
  stall = λ amt f. f;
}

abbrev firmware : Firmware ℕ
firmware = record {
  services = same_file;
  set_watchdog_timer = λ f. f;
  locate_displays = λ f. (0, 1, (λ i. 0x300 + i), f);
  clear_screen = λ f. f;
  open_protocol = λ protocol handle f. (0, handle + 1, f);
  set_mode = λ gop f. (0, f);
  mode = λ gop f. (1024, 768, 0xE0000000);
  device_handle = λ image f. 0x400;
  open_volume = λ file_sys f. (0, 0x500, f);
  open_kernel = λ root f. (0, 0x600, f);
  close = λ kernel f. f;
  get_memory_map =
      λ buffer info f. (0, record { map_size = 48; map_key = 7; descriptor_size = 48 }, [], f);
  exit_boot_services = λ handle key f. f;
}

abbrev locals : Locals
locals = record {
  initial_header = blank;
  program_header = blank;
  elf_itoa_buf = λ i. 0;
  display_itoa_buf = λ i. 0;
  itoa_buf = λ i. 0;
}

file_loads : (m' : Bytes) (f' : ℕ) → Runs (load_file firmware 100 0x200 locals m' f')
file_loads m' f' =
    let (status, entry', m₁, f₁, runs, keeps) =
      elf_load_file-keeps same_file 100 blank blank (λ i. 0) 0 m' f' (λ kind pages cell f. refl)
        (omega arith) (omega arith) (omega arith) (omega arith) in
    ((status, entry', m₁, f₁), runs)

uefi_main_lem_example :
    (set_up : Option ℕ) × (m₁ : Bytes) × (f₁ : ℕ) × (ending : Ending ℕ) × (prepared firmware 100
        0x200 locals blank 0
      ≡ some (set_up, m₁, f₁))
    × (uefi_main firmware 100 0x200 locals blank 0 ≡ some ending)
    × IsEndingOf firmware 100 0x200 locals
        (first_failure
          (located firmware 100 0x200 locals 0 ∷ image_statuses firmware 100 0x200 locals f₁))
        m₁
        (open_image firmware 100 0x200 f₁).2
        ending
uefi_main_lem_example =
    uefi_main_lem firmware 100 0x200 locals (omega arith) blank 0 (λ buffer info f. omega arith)
      file_loads

setup_efi_framebuffer_data_lem_example :
    (m' : Bytes) × (f' : ℕ) × (setup_efi_framebuffer_data firmware 30
        (λ i. 0x300 + i)
        0x100000
        1
        (λ i. 0)
        blank
        0
      ≡ some (none, m', f'))
    × IsDisplay m' 0x100000 (1024, 768, 0xE0000000)
    × (m' 0 ≡ 0)
setup_efi_framebuffer_data_lem_example =
    setup_efi_framebuffer_data_lem firmware 30 (omega arith) (λ h. h + 1)
      (λ g. (1024, 768, 0xE0000000)) (λ i. 0x300 + i) 0x100000 1 (λ i. 0) blank 0
      (λ i below f. (refl, refl, refl, refl)) (omega arith) 0 0 (omega arith) (omega arith)

convert_ranges_lem_example :
    (m' : Bytes) × (f' : ℕ) × (convert_ranges firmware 30 1 0 0x1000 0x2000 (λ i. 0) blank 0
      ≡ some (m', f'))
    × IsRangeOf blank 0x1000 m' 0x2000
    × (m' 0 ≡ 0)
convert_ranges_lem_example =
    convert_ranges_lem firmware 30 (omega arith) 0x1000 0x2000 1 (λ i. 0) blank 0 0 0 (omega arith)
      (omega arith) (omega arith)
