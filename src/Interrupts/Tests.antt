-- ===== src/Interrupts/Tests.antt =====
-- The theorems about the interrupt table on a concrete kernel image, and the timer on one second.
use feral.Base.{◌+◌, ◌*◌, ◌≡◌, arith, []}
use feral.Interrupts.{Handlers, x86_setup_idt_entries, empty_descriptor}
use feral.Interrupts.Gates.{
  handler_of, AreWords, ticks, x86_setup_idt_entries_lem, pit_handler-ticks,
}

abbrev image : Handlers
image = record {
  generic_handler = 0xFFFFFF8000101000;
  generic_handler_pic2 = 0xFFFFFF8000102000;
  divide_by_zero = 0xFFFFFF8000103000;
  double_fault_handler = 0xFFFFFF8000104000;
  page_fault_handler = 0xFFFFFF8000105000;
  pit_handler = 0xFFFFFF8000106000;
  ps2_keyboard_handler = 0xFFFFFF8000107000;
}

image-AreWords : AreWords image
image-AreWords = record {
  generic = omega arith;
  pic2 = omega arith;
  divide = omega arith;
  double_fault = omega arith;
  page_fault = omega arith;
  pit = omega arith;
  keyboard = omega arith;
}

x86_setup_idt_entries_lem_example :
    handler_of (x86_setup_idt_entries image (λ n. empty_descriptor) 0x2B) ≡ 0xFFFFFF8000102000
x86_setup_idt_entries_lem_example =
    x86_setup_idt_entries_lem image (λ n. empty_descriptor) 0x2B image-AreWords

pit_handler-ticks_example : 16 * (ticks 35 0 []).1 + (ticks 35 0 []).0 ≡ 35
pit_handler-ticks_example = pit_handler-ticks 35 0 [] (omega arith)
