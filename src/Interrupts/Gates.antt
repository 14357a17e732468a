-- ===== src/Interrupts/Gates.antt =====
-- Which handler each interrupt has after `x86SetupIDTEntries`, and how often the timer swaps.
use feral.Base.{
  ℕ, zero, suc, ◌+◌, ◌*◌, ◌/◌, ◌^◌, ◌≤◌, ◌<◌, ◌≡◌, inl, inr, Bool-cases, ==_iff, Bool, true, false,
  ◌&&◌, ◌||◌, arith, refl, ◌==◌, leb, ltb, if◌then◌else◌, u8, u16, u32, bit_and,
}
use feral.Base.Bits.{bit_and-ones}
use feral.Interrupts.{
  IdtDescriptor, Idt, x86_idt_set_gate, set_gates, Handlers, x86_setup_idt_entries,
  x86_pic_send_eoi_pic1, pit_handler,
}
use feral.Ports.{Trace}

-- The address that the processor puts together from a descriptor.
abbrev pub handler_of : IdtDescriptor → ℕ
handler_of d = d.offset + d.offset2 * 2 ^ 16 + d.offset3 * 2 ^ 32

gate-base :
    (base : ℕ)
    → base < 2 ^ 64
    → u16 (bit_and base 0xFFFF)
        + u16 (bit_and (base / 2 ^ 16) 0xFFFF) * 2 ^ 16
        + u32 (bit_and (base / 2 ^ 32) 0xFFFFFFFF) * 2 ^ 32
      ≡ base
gate-base base h =
    omega (
      arith,
      bit_and-ones 16 base,
      bit_and-ones 16 (base / 2 ^ 16),
      bit_and-ones 32 (base / 2 ^ 32),
    )

-- For a number below 256 and a 64-bit address, after `x86IDTSetGate` the address that the
-- processor puts together from the descriptor with that number is the one given, and the other
-- descriptors are unchanged.
pub x86_idt_set_gate_lem :
    (number base selector flags n : ℕ) (idt : Idt)
    → number < 256
    → base < 2 ^ 64
    → handler_of (x86_idt_set_gate number base selector flags idt n)
      ≡ (if n == number then base else handler_of (idt n))
unfolding x86_idt_set_gate
x86_idt_set_gate_lem number base selector flags n idt byte word =
    rw (number-eq) (chosen (n == number))
  where
    number-eq : u8 number ≡ number
    number-eq = omega arith

    new : IdtDescriptor
    new = record {
      offset = u16 (bit_and base 0xFFFF);
      selector = u16 selector;
      ist = 0;
      type_attr = u8 flags;
      offset2 = u16 (bit_and (base / 2 ^ 16) 0xFFFF);
      offset3 = u32 (bit_and (base / 2 ^ 32) 0xFFFFFFFF);
      reserved = 0;
    }

    chosen :
        (b : Bool)
        → handler_of (if b then new else idt n) ≡ (if b then base else handler_of (idt n))
    chosen true = gate-base base word
    chosen false = refl

set_gates_lem :
    (base left i n : ℕ) (idt : Idt)
    → i + left ≤ 256
    → base < 2 ^ 64
    → handler_of (set_gates base left i idt n)
      ≡ (if leb i n && ltb n (i + left) then base else handler_of (idt n))
unfolding set_gates
set_gates_lem base zero i n idt last word = ground arith
set_gates_lem base (suc left) i n idt last word =
    rw
      (
        set_gates_lem base left (i + 1) n (x86_idt_set_gate i base 0x08 0x8E idt) (omega arith)
            word,
        x86_idt_set_gate_lem i base 0x08 0x8E n idt (omega arith) word,
      )
      (ground arith)

-- Handlers at addresses of 64 bits.
pub record AreWords (h : Handlers) : Type 0 where
  pub generic : h.generic_handler < 2 ^ 64
  pub pic2 : h.generic_handler_pic2 < 2 ^ 64
  pub divide : h.divide_by_zero < 2 ^ 64
  pub double_fault : h.double_fault_handler < 2 ^ 64
  pub page_fault : h.page_fault_handler < 2 ^ 64
  pub pit : h.pit_handler < 2 ^ 64
  pub keyboard : h.ps2_keyboard_handler < 2 ^ 64

-- The handler that each interrupt is meant to have; `other` for those that are left alone.
abbrev pub intended : Handlers → ℕ → ℕ → ℕ
intended h other n =
    if n == 0x2C || n == 0x21
    then h.ps2_keyboard_handler
    else if n == 0x20
    then h.pit_handler
    else if n == 0x0E
    then h.page_fault_handler
    else if n == 0x08
    then h.double_fault_handler
    else if n == 0x00
    then h.divide_by_zero
    else if leb 0x28 n && ltb n 0x30
    then h.generic_handler_pic2
    else if ltb n 255
    then h.generic_handler
    else other

-- For handlers at 64-bit addresses, after `x86SetupIDTEntries` the address that the processor puts
-- together from the descriptor of an interrupt is the one of the handler meant for it; interrupt
-- 255 and numbers above it keep the descriptor they had.
pub x86_setup_idt_entries_lem :
    (h : Handlers) (idt : Idt) (n : ℕ)
    → AreWords h
    → handler_of (x86_setup_idt_entries h idt n) ≡ intended h (handler_of (idt n)) n
unfolding x86_setup_idt_entries
x86_setup_idt_entries_lem h idt n words =
    rw
      (
        x86_idt_set_gate_lem 0x2C h.ps2_keyboard_handler 0x08 0x8E n _ (omega arith) words.keyboard,
        x86_idt_set_gate_lem 0x21 h.ps2_keyboard_handler 0x08 0x8E n _ (omega arith) words.keyboard,
        x86_idt_set_gate_lem 0x20 h.pit_handler 0x08 0x8E n _ (omega arith) words.pit,
        x86_idt_set_gate_lem 0x0E h.page_fault_handler 0x08 0x8E n _ (omega arith) words.page_fault,
        x86_idt_set_gate_lem 0x08 h.double_fault_handler 0x08 0x8E n _ (omega arith)
            words.double_fault,
        x86_idt_set_gate_lem 0x00 h.divide_by_zero 0x08 0x8E n _ (omega arith) words.divide,
        set_gates_lem h.generic_handler_pic2 8 0x28 n _ (omega arith) words.pic2,
        set_gates_lem h.generic_handler 255 0 n idt (omega arith) words.generic,
      )
      (ground arith)

-- The timer after a number of ticks, and how many of them swapped the buffers.
abbrev pub ticks : ℕ → ℕ → Trace → ℕ × ℕ
ticks zero screen_timer t = (screen_timer, 0)
ticks (suc left) screen_timer t =
    let (timer, swaps, t') = pit_handler screen_timer t in
    let (last, count) = ticks left timer t' in (last, if swaps then count + 1 else count)

-- From a `ScreenTimer` below 16, after any number of ticks the timer and 16 times the number of
-- buffer swaps make up the first timer value and the ticks.
pub pit_handler-ticks :
    (left screen_timer : ℕ) (t : Trace)
    → screen_timer < 16
    → (let (last, count) = ticks left screen_timer t in 16 * count + last) ≡ screen_timer + left
unfolding pit_handler
pit_handler-ticks zero screen_timer t h = omega arith
pit_handler-ticks (suc left) screen_timer t h = elim (Bool-cases (u8 (screen_timer + 1) == 16)) [
  | inl swap ↦
      let rest = pit_handler-ticks left 0 (x86_pic_send_eoi_pic1 t) (omega arith) in
      let last : screen_timer ≡ 15 = omega (arith, (==_iff (u8 (screen_timer + 1)) 16).0 swap) in
      rw swap (omega arith)
  | inr keep ↦
      let below : u8 (screen_timer + 1) < 16 = ground arith in
      let rest = pit_handler-ticks left (u8 (screen_timer + 1)) (x86_pic_send_eoi_pic1 t) below in
      rw keep (omega arith)
]
