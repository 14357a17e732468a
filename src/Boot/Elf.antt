-- ===== src/Boot/Elf.antt =====
-- What bootloader/boot.c asks of the firmware, and the headers of drivers/proc/elf/elf.h that it
-- checks. What the firmware does is a parameter, which acts on a state of its own.
use feral.Base.{
  ℕ, zero, suc, ◌+◌, ◌-◌, ◌*◌, ◌/◌, ◌%◌, ◌^◌, Bool, true, false, not, ◌&&◌, List, ltb, leb, ◌==◌,
  if◌then◌else◌, u64, sub64, get_or, length,
}
use feral.Memory.{Bytes, write, load64}
use feral.Boot.{EfiMemoryType, bytes_to_efi_pages}

-- The fields of an `ElfHeader64` of 62 bytes and of an `ElfProgramHeader64` of 56, both packed.
abbrev pub load16 : Bytes → ℕ → ℕ
load16 m p = m p + 0x100 * m (p + 1)

abbrev pub load32 : Bytes → ℕ → ℕ
load32 m p = load16 m p + 0x10000 * load16 m (p + 2)

abbrev pub elf_header_size : ℕ
elf_header_size = 62

abbrev pub e_machine : Bytes → ℕ
e_machine h = load16 h 18

abbrev pub e_entry : Bytes → ℕ
e_entry h = load64 h 24

abbrev pub e_phoff : Bytes → ℕ
e_phoff h = load64 h 32

abbrev pub e_phentsize : Bytes → ℕ
e_phentsize h = load16 h 54

abbrev pub e_phnum : Bytes → ℕ
e_phnum h = load16 h 56

abbrev pub program_header_size : ℕ
program_header_size = 56

abbrev pub p_type : Bytes → ℕ
p_type h = load32 h 0

abbrev pub p_flags : Bytes → ℕ
p_flags h = load32 h 4

abbrev pub p_offset : Bytes → ℕ
p_offset h = load64 h 8

abbrev pub p_vaddr : Bytes → ℕ
p_vaddr h = load64 h 16

abbrev pub p_filesz : Bytes → ℕ
p_filesz h = load64 h 32

abbrev pub p_memsz : Bytes → ℕ
p_memsz h = load64 h 40

-- What the firmware is told to show: the texts of the source, by name.
pub data Message : Type 0 where
  not_executable alloc_failed load_failed entry_is_at newline : Message
  starting query_failed not_rgb display_width display_height framebuffer_at : Message
  loaded_image_error simple_fs_error kernel_error got_entry out_of_memory : Message
  env_block mem_range space terminating : Message
  status_text : ℕ → Message
  buffer : (ℕ → ℕ) → Message

abbrev pub efi_success : ℕ
efi_success = 0

abbrev pub efi_load_error : ℕ
efi_load_error = 0x8000000000000001

-- The services that the loader calls, on the state of the firmware. `read` returns the status and
-- the bytes; `allocate_pages` reads and writes the cell with the address.
pub record Services {ℓ} (F : Type ℓ) : Type ℓ where
  pub read : ℕ → F → ℕ × List ℕ × F
  pub set_position : ℕ → F → ℕ × F
  -- whether the address is given or a maximum, the type, the pages, the cell
  pub allocate_pages : Bool → EfiMemoryType → ℕ → ℕ → F → ℕ × ℕ × F
  pub allocate_pool : EfiMemoryType → ℕ → ℕ → F → ℕ × ℕ × F
  pub output_string : Message → F → F
  pub stall : ℕ → F → F

-- What is read lies at `p`; the rest of the memory is as before.
abbrev pub overlay : ℕ → List ℕ → Bytes → Bytes
overlay p bytes m = λ a. if leb p a && ltb a (p + length bytes) then get_or bytes (a - p) 0 else m a

-- The eight bytes of a cell.
abbrev pub store64 : ℕ → ℕ → Bytes → Bytes
store64 p v m = λ a. if leb p a && ltb a (p + 8) then v / 2 ^ (8 * (a - p)) % 2 ^ 8 else m a

abbrev pub feral_virt_offset : ℕ
feral_virt_offset = 0xFFFFFFFFC0000000

-- `p_vaddr` and `e_entry` as physical addresses.
abbrev pub to_physical : ℕ → ℕ
to_physical a = if ltb feral_virt_offset a then a - feral_virt_offset else a

-- The loop that copies from `EfiMem`, which is null, to `p`.
unfoldable pub copy_up : ℕ → ℕ → ℕ → Bytes → Bytes
copy_up zero index p m = m
copy_up (suc left) index p m = copy_up left (index + 1) p (write m (u64 (p + index)) (m index))

module _ {ℓ} {F : Type ℓ} (services : Services F) where
  unfoldable pub write_message : Message → F → F
  write_message message f = services.output_string message f

  -- The pointer is set by the firmware.
  unfoldable pub efi_malloc : ℕ → ℕ → F → Bool × ℕ × F
  efi_malloc amt ptr f =
      let (status, ptr', f') =
        services.allocate_pool EfiMemoryType.runtime_services_data amt ptr f in
      (status == efi_success, ptr', f')

  -- `ptr` is the address of the cell that holds the address that is wanted.
  unfoldable pub efi_alloc_addr : ℕ → ℕ → Bool → Bytes → F → Bool × Bytes × F
  efi_alloc_addr amt ptr code m f =
      let mem_type =
        if code then EfiMemoryType.runtime_services_code else EfiMemoryType.runtime_services_data in
      let (status, cell, f') =
        services.allocate_pages true mem_type (bytes_to_efi_pages amt) (load64 m ptr) f in
      (status == efi_success, store64 ptr cell m, f')

  unfoldable pub efi_alloc_max_addr : ℕ → ℕ → Bool → F → Bool × ℕ × F
  efi_alloc_max_addr amt max_address code f =
      let mem_type =
        if code then EfiMemoryType.runtime_services_code else EfiMemoryType.runtime_services_data in
      let addr = sub64 max_address amt in
      let (status, addr', f') =
        services.allocate_pages false mem_type (bytes_to_efi_pages amt) addr f in
      (status == efi_success, addr', f')

  -- The machine that the loader is built for is x86-64.
  unfoldable pub validate_elf_header : Bytes → F → ℕ × F
  validate_elf_header h f =
      let is_elf = h 0 == 0x7F && (h 1 == b'E' && (h 2 == b'L' && h 3 == b'F')) in
      if not is_elf
      then (efi_load_error, f)
      else if not (e_machine h == 0) && not (e_machine h == 0x3E)
      then (efi_load_error, f)
      else if e_phnum h == 0
      then (efi_load_error, services.output_string Message.not_executable f)
      else (efi_success, f)
