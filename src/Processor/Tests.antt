-- ===== src/Processor/Tests.antt =====
-- The start of the first processor, with the first table at 0x1000 in use.
use feral.Base.{ℕ, ◌<◌, ◌^◌, ◌≢◌, ◌≡◌, true, [], ◌∷◌, none, arith, ◌==◌, if◌then◌else◌}
use feral.Status.{Status}
use feral.Paging.{Words}
use feral.Paging.Mmu.{translate}
use feral.Interrupts.{Handlers, empty_descriptor}
use feral.Interrupts.Gates.{handler_of, AreWords, intended}
use feral.Processor.{Processor, ki_startup_processor}
use feral.Processor.Start.{access_bytes, HasLost, ki_startup_processor_lem}

abbrev image : Handlers
image = record {
  generic_handler = 0xFFFFFF8000101000;
  generic_handler_pic2 = 0xFFFFFF8000102000;
  divide_by_zero = 0xFFFFFF8000103000;
  double_fault_handler = 0xFFFFFF8000104000;
  page_fault_handler = 0xFFFFFF8000105000;
  pit_handler = 0xFFFFFF8000106000;
  ps2_keyboard_handler = 0xFFFFFF8000107000;
}

image-AreWords : AreWords image
image-AreWords = record {
  generic = omega arith;
  pic2 = omega arith;
  divide = omega arith;
  double_fault = omega arith;
  page_fault = omega arith;
  pit = omega arith;
  keyboard = omega arith;
}

abbrev first_table : Words
first_table a = if a == 0x1000 then 0x2003 else 0

abbrev booted : Processor
booted = record {
  gdt = [];
  gdt_pointer = record { limit = 0; base = 0 };
  idt = λ n. empty_descriptor;
  trace = [];
  memory = first_table;
  interrupts = true;
}

ki_startup_processor_lem_example :
    (p' : Processor) × (ki_startup_processor 0x1000 0x105000 image 0 booted ≡ (Status.success, p'))
    × HasLost 0x1000 first_table p'.memory
    × ((address : ℕ) → address < 2 ^ 39 → translate p'.memory 0x1000 address ≡ none)
    × ((n : ℕ) → handler_of (p'.idt n) ≡ intended image 0 n)
    × (access_bytes p'.gdt ≡ 0 ∷ 0x9A ∷ 0x92 ∷ 0xFA ∷ 0xF2 ∷ [])
    × (p'.gdt_pointer.limit ≡ 39)
    × (p'.interrupts ≡ true)
    × ((core : ℕ)
        → core ≢ 0
        → ki_startup_processor 0x1000 0x105000 image core booted
          ≡ (Status.success, record booted { interrupts = true }))
ki_startup_processor_lem_example =
    ki_startup_processor_lem 0x1000 0x105000 image booted image-AreWords
