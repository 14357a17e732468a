-- ===== src/Processor.antt =====
-- How kern/arch/x86_64/archstart.c starts a processor: the segment descriptors of
-- kern/inc/arch/x86_64/cpuinfo.h, the interrupt table, and the low addresses. Installing the
-- tables is assembly; the address of the first page table is a parameter.
pub mod Start
mod Tests
use feral.Base.{
  ℕ, ◌+◌, ◌*◌, ◌-◌, Bool, true, false, List, [], ◌∷◌, ◌==◌, if◌then◌else◌, u16, get_or,
}
use feral.Ports.{Trace}
use feral.Status.{Status}
use feral.Paging.{Words, x86_unmap_address}
use feral.Interrupts.{Idt, Handlers, x86_initialize_idt}

-- `AsBits` of a `GDTEntry` with its limit and base.
pub record GdtEntry : Type 0 where
  pub limit : ℕ
  pub base : ℕ
  pub middle_base : ℕ
  pub accessed : ℕ
  pub read_writable : ℕ
  pub direction : ℕ
  pub executable : ℕ
  pub system : ℕ
  pub priv_level : ℕ
  pub present : ℕ
  pub limit_high : ℕ
  pub reserved : ℕ
  pub sixty_four_mode : ℕ
  pub size_bit : ℕ
  pub granularity : ℕ
  pub high_base : ℕ

-- `Base`, `High` and `Limit` are set to 0.
abbrev pub null_entry : GdtEntry
null_entry = record {
  limit = 0;
  base = 0;
  middle_base = 0;
  accessed = 0;
  read_writable = 0;
  direction = 0;
  executable = 0;
  system = 0;
  priv_level = 0;
  present = 0;
  limit_high = 0;
  reserved = 0;
  sixty_four_mode = 0;
  size_bit = 0;
  granularity = 0;
  high_base = 0;
}

-- The bytes of an entry as the processor reads them.
abbrev pub access_byte : GdtEntry → ℕ
access_byte e =
    e.accessed
    + 2 * e.read_writable
    + 4 * e.direction
    + 8 * e.executable
    + 16 * e.system
    + 32 * e.priv_level
    + 128 * e.present

abbrev pub flags_byte : GdtEntry → ℕ
flags_byte e =
    e.limit_high + 16 * e.reserved + 32 * e.sixty_four_mode + 64 * e.size_bit + 128 * e.granularity

abbrev pub kernel_code : GdtEntry
kernel_code = record null_entry {
  sixty_four_mode = 1;
  present = 1;
  system = 1;
  executable = 1;
  read_writable = 1;
  granularity = 1;
}

abbrev pub kernel_data : GdtEntry
kernel_data = record null_entry { sixty_four_mode = 1; present = 1; system = 1; read_writable = 1 }

abbrev pub user_code : GdtEntry
user_code = record null_entry {
  sixty_four_mode = 1;
  present = 1;
  system = 1;
  executable = 1;
  read_writable = 1;
  granularity = 1;
  priv_level = 3;
}

abbrev pub user_data : GdtEntry
user_data = record null_entry {
  sixty_four_mode = 1;
  present = 1;
  system = 1;
  read_writable = 1;
  priv_level = 3;
}

pub record GdtPointer : Type 0 where
  pub limit : ℕ
  pub base : ℕ

-- The entries and the pointer that is installed; `location` is the address of the entries.
unfoldable pub x86_initialize_gdt : ℕ → List GdtEntry × GdtPointer
x86_initialize_gdt location =
    let limit : ℕ = 5 in
    (
      null_entry ∷ kernel_code ∷ kernel_data ∷ user_code ∷ user_data ∷ [],
      record { limit = u16 (8 * limit - 1); base = location },
    )

-- What the start of a processor changes.
pub record Processor : Type 0 where
  pub gdt : List GdtEntry
  pub gdt_pointer : GdtPointer
  pub idt : Idt
  pub trace : Trace
  pub memory : Words
  pub interrupts : Bool

-- `pml4` is what `get_initial_p4_table` returns.
unfoldable pub ki_startup_processor_machine_dependent : ℕ → ℕ → Handlers → ℕ → Processor → Processor
ki_startup_processor_machine_dependent pml4 location handlers core p =
    let off = record p { interrupts = false } in
    let (gdt, pointer) = x86_initialize_gdt location in
    let (idt, trace) = x86_initialize_idt handlers p.trace in
    let (status, memory) = x86_unmap_address p.memory pml4 0 in
    let started : Processor = record {
      gdt = gdt;
      gdt_pointer = pointer;
      idt = idt;
      trace = trace;
      memory = memory;
      interrupts = true;
    } in
    if core == 0 then started else record off { interrupts = true }

unfoldable pub ki_startup_processor : ℕ → ℕ → Handlers → ℕ → Processor → Status × Processor
unfolding ki_startup_processor_machine_dependent
ki_startup_processor pml4 location handlers core p =
    (Status.success, ki_startup_processor_machine_dependent pml4 location handlers core p)
