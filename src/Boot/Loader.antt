-- ===== src/Boot/Loader.antt =====
-- `ElfLoadFile` of bootloader/boot.c. `none` is a loop that ran out of fuel.
use feral.Base.{
  ℕ, zero, suc, ◌+◌, ◌*◌, ◌%◌, not, Option, none, some, ltb, ◌==◌, if◌then◌else◌, u32, u64, length,
}
use feral.Base.Fault.{◌>>=◌}
use feral.Memory.{Bytes}
use feral.Boot.{efi_itoa_base_change}
use feral.Boot.Elf.{
  elf_header_size, e_entry, e_phoff, e_phentsize, program_header_size, p_type, p_flags, p_offset,
  p_vaddr, p_filesz, p_memsz, efi_success, overlay, to_physical, copy_up, efi_alloc_addr,
  validate_elf_header, Message, Services,
}

-- What the loader holds while it reads program headers: the last one, the size that the last read
-- left, the memory and the firmware.
pub record Loading {ℓ} (F : Type ℓ) : Type ℓ where
  pub program : Bytes
  pub program_size : ℕ
  pub memory : Bytes
  pub firmware : F

-- How a round ends: the loop goes on, or the function returns a status.
pub data Round {ℓ} (F : Type ℓ) : Type ℓ where
  goes_on : Loading F → Round F
  returns : ℕ → Loading F → Round F

module _ {ℓ} {F : Type ℓ} where
  abbrev pub with_memory : Bytes → F → Loading F → Loading F
  with_memory m f l = record {
    program = l.program;
    program_size = l.program_size;
    memory = m;
    firmware = f;
  }

module _ {ℓ} {F : Type ℓ} (services : Services F) where
  -- The segment of the program header; the answer of `EfiAllocAddr` is taken for a status.
  unfoldable pub load_segment : Loading F → Round F
  load_segment l =
      let paddr = to_physical (p_vaddr l.program) in
      let executable = p_flags l.program % 2 == 1 in
      let (allocated, m, f) =
        efi_alloc_addr services (p_memsz l.program) paddr executable l.memory l.firmware in
      let status : ℕ = if allocated then 1 else 0 in
      let told =
        services.output_string (Message.status_text status)
          (services.output_string Message.alloc_failed f) in
      let (positioned, f₁) = services.set_position (p_offset l.program) f in
      let (got, bytes, f₂) = services.read (p_filesz l.program) f₁ in
      let f₃ =
        if got == efi_success
        then f₂
        else services.stall 10000 (
            services.output_string Message.load_failed
              (services.output_string (Message.status_text got) f₂)) in
      if not (status == efi_success)
      then Round.returns status (with_memory m (services.stall 12500000 told) l)
      else if not (positioned == efi_success)
      then Round.returns positioned (with_memory m f₁ l)
      else Round.goes_on
          (with_memory (copy_up (p_filesz l.program) 0 paddr (overlay 0 bytes m)) f₃ l)

  -- One round; `e_phentsize * Index` is done in 32 bits.
  unfoldable pub load_round : Bytes → ℕ → Loading F → Round F
  load_round h index l =
      let (positioned, f₁) =
        services.set_position (u64 (e_phoff h + u32 (e_phentsize h * index))) l.firmware in
      let (got, bytes, f₂) = services.read l.program_size f₁ in
      let l' : Loading F = record {
        program = overlay 0 bytes l.program;
        program_size = length bytes;
        memory = l.memory;
        firmware = f₂;
      } in
      if p_type l'.program == 1 then load_segment l' else Round.goes_on l'

  -- The loop runs to `e_phoff`.
  unfoldable pub load_rounds : ℕ → Bytes → ℕ → Loading F → Option (Round F)
  load_rounds zero h index l = none
  load_rounds (suc fuel) h index l =
      if not (ltb index (e_phoff h)) then some (Round.goes_on l) else elim (load_round h index l) [
        | Round.goes_on l' ↦ load_rounds fuel h (u32 (index + 1)) l'
        | Round.returns status l' ↦ some (Round.returns status l')
      ]

  -- The last messages, with the entry as text.
  unfoldable pub show_entry : ℕ → ℕ → (ℕ → ℕ) → F → Option F
  show_entry fuel entry itoa_buf f = do
    text ← efi_itoa_base_change fuel entry itoa_buf 16
    some (
        services.output_string Message.newline (
          services.output_string (Message.buffer text)
            (services.output_string Message.entry_is_at f)))

  -- The status, `*Entry` with `entry` from before, the memory and the firmware. The locals start as
  -- `h`, `program` and `itoa_buf`.
  unfoldable pub elf_load_file :
      ℕ → Bytes → Bytes → (ℕ → ℕ) → ℕ → Bytes → F → Option (ℕ × ℕ × Bytes × F)
  elf_load_file fuel h program itoa_buf entry m f =
      let (status, bytes, f₁) = services.read elf_header_size f in
      let header = overlay 0 bytes h in
      let (valid, f₂) = validate_elf_header services header f₁ in
      let start : Loading F = record {
        program = program;
        program_size = program_header_size;
        memory = m;
        firmware = f₂;
      } in
      if not (status == efi_success)
      then some (status, entry, m, f₁)
      else if not (valid == efi_success)
      then some (valid, entry, m, f₂)
      else (do
        round ← load_rounds fuel header 0 start
        elim round [
          | Round.returns failed l ↦ some (failed, entry, l.memory, l.firmware)
          | Round.goes_on l ↦ (do
            f₃ ← show_entry fuel (e_entry header) itoa_buf l.firmware
            some (efi_success, to_physical (e_entry header), l.memory, f₃))
        ])
