-- ===== src/Interrupts.antt =====
-- The interrupt table and the interrupt controllers: kern/arch/x86_64/archstart.c and the entries
-- and the timer of kern/arch/x86_64/interrupts.c. The addresses of the handlers are parameters.
pub mod Gates
mod Tests
use feral.Base.{
  ℕ, zero, suc, ◌+◌, ◌*◌, Bool, true, false, List, ◌==◌, if◌then◌else◌, u8, u16, u32, bit_and,
  ◌<<<◌, ◌>>>◌,
}
use feral.Ports.{Trace, x86outb}

pub record IdtDescriptor : Type 0 where
  pub offset : ℕ
  pub selector : ℕ
  pub ist : ℕ
  pub type_attr : ℕ
  pub offset2 : ℕ
  pub offset3 : ℕ
  pub reserved : ℕ

abbrev pub empty_descriptor : IdtDescriptor
empty_descriptor = record {
  offset = 0;
  selector = 0;
  ist = 0;
  type_attr = 0;
  offset2 = 0;
  offset3 = 0;
  reserved = 0;
}

-- The descriptor of each interrupt.
abbrev pub Idt : Type 0
Idt = ℕ → IdtDescriptor

unfoldable pub x86_idt_set_gate : ℕ → ℕ → ℕ → ℕ → Idt → Idt
x86_idt_set_gate number base selector flags idt = λ n.
    if n == u8 number
    then record {
      offset = u16 (bit_and base 0xFFFF);
      selector = u16 selector;
      ist = 0;
      type_attr = u8 flags;
      offset2 = u16 (bit_and (base >>> 16) 0xFFFF);
      offset3 = u32 (bit_and (base >>> 32) 0xFFFFFFFF);
      reserved = 0;
    }
    else idt n

-- `left` rounds of a loop that sets the gates from `i` on to one handler.
unfoldable pub set_gates : ℕ → ℕ → ℕ → Idt → Idt
unfolding x86_idt_set_gate
set_gates base zero i idt = idt
set_gates base (suc left) i idt =
    set_gates base left (i + 1) (x86_idt_set_gate i base 0x08 0x8E idt)

-- The addresses of the handlers that the table names.
pub record Handlers : Type 0 where
  pub generic_handler : ℕ
  pub generic_handler_pic2 : ℕ
  pub divide_by_zero : ℕ
  pub double_fault_handler : ℕ
  pub page_fault_handler : ℕ
  pub pit_handler : ℕ
  pub ps2_keyboard_handler : ℕ

unfoldable pub x86_setup_idt_entries : Handlers → Idt → Idt
unfolding set_gates
x86_setup_idt_entries h idt =
    let idt₁ = set_gates h.generic_handler 255 0 idt in
    let idt₂ = set_gates h.generic_handler_pic2 8 0x28 idt₁ in
    let idt₃ = x86_idt_set_gate 0x00 h.divide_by_zero 0x08 0x8E idt₂ in
    let idt₄ = x86_idt_set_gate 0x08 h.double_fault_handler 0x08 0x8E idt₃ in
    let idt₅ = x86_idt_set_gate 0x0E h.page_fault_handler 0x08 0x8E idt₄ in
    let idt₆ = x86_idt_set_gate 0x20 h.pit_handler 0x08 0x8E idt₅ in
    let idt₇ = x86_idt_set_gate 0x21 h.ps2_keyboard_handler 0x08 0x8E idt₆ in
    x86_idt_set_gate 0x2C h.ps2_keyboard_handler 0x08 0x8E idt₇

abbrev pub x86_pic_1_command : ℕ
x86_pic_1_command = 0x20

abbrev pub x86_pic_1_data : ℕ
x86_pic_1_data = 0x21

abbrev pub x86_pic_2_command : ℕ
x86_pic_2_command = 0xA0

abbrev pub x86_pic_2_data : ℕ
x86_pic_2_data = 0xA1

unfoldable pub x86_pic_send_eoi_pic1 : Trace → Trace
x86_pic_send_eoi_pic1 t = x86outb x86_pic_1_command 0x20 t

unfoldable pub x86_pic_send_eoi_pic2 : Trace → Trace
x86_pic_send_eoi_pic2 t = x86outb x86_pic_1_command 0x20 (x86outb x86_pic_2_command 0x20 t)

unfoldable pub x86_disable_pic : Trace → Trace
x86_disable_pic t = x86outb x86_pic_2_data 0xFF (x86outb x86_pic_1_data 0xFF t)

-- A byte for each of the two controllers.
abbrev pub both : ℕ → ℕ → ℕ → ℕ → Trace → Trace
both port₁ val₁ port₂ val₂ t = x86outb port₂ val₂ (x86outb port₁ val₁ t)

-- `x86InitializeIDT`: the table after it and what it wrote to ports. The byte that `x86_io_stall`
-- writes to port 0x80 is not in the trace: it is whatever a register holds.
unfoldable pub x86_initialize_idt : Handlers → Trace → Idt × Trace
unfolding x86_setup_idt_entries
x86_initialize_idt h t =
    let divisor : ℕ = 11931840 in
    let t₁ =
      x86outb 0x40 (bit_and (divisor >>> 8) 0xFF)
        (x86outb 0x40 (bit_and (divisor >>> 0) 0xFF) (x86outb 0x43 0x36 t)) in
    let t₂ = both x86_pic_1_command 0x11 x86_pic_2_command 0x11 t₁ in
    let t₃ = both x86_pic_1_data 0x20 x86_pic_2_data 0x28 t₂ in
    let t₄ = both x86_pic_1_data 0x04 x86_pic_2_data 0x02 t₃ in
    let t₅ = both x86_pic_1_data 0x01 x86_pic_2_data 0x01 t₄ in
    let t₆ = both x86_pic_1_data 0x01 x86_pic_2_data 0x01 t₅ in
    let t₇ = both x86_pic_1_data 0xFC x86_pic_2_data 0x80 t₆ in
    (x86_setup_idt_entries h (λ n. empty_descriptor), t₇)

-- `PITHandler`: `ScreenTimer`, whether it calls `VgaSwapBuffers`, and the ports.
unfoldable pub pit_handler : ℕ → Trace → ℕ × Bool × Trace
unfolding x86_pic_send_eoi_pic1
pit_handler screen_timer t =
    let next = u8 (screen_timer + 1) in
    if next == 16
    then (0, true, x86_pic_send_eoi_pic1 t)
    else (next, false, x86_pic_send_eoi_pic1 t)

-- `GenericHandlerPIC1` and `GenericHandlerPIC2` after their message.
unfoldable pub generic_handler_pic1 : Trace → Trace
generic_handler_pic1 t = x86_pic_send_eoi_pic1 t

unfoldable pub generic_handler_pic2 : Trace → Trace
generic_handler_pic2 t = x86_pic_send_eoi_pic2 t
