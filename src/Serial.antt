-- ===== src/Serial.antt =====
-- The serial line of drivers/serial/serial.c, without its messages, and the prompt of
-- drivers/serial/kshell/kshell.c, over the ports. Text is a list of bytes.
pub mod Send
mod Tests
use feral.Base.{
  ℕ, zero, suc, ◌+◌, ◌*◌, ◌%◌, Bool, true, false, not, List, [], ◌∷◌, ◌++◌, Option, none, some,
  ◌==◌, if◌then◌else◌, u8, u16, bit_and, ◌>>>◌, set, replicate,
}
use feral.Status.{Status}
use feral.Ports.{Trace, x86outb, Devices}

abbrev pub com1_port : ℕ
com1_port = 0x3F8

abbrev pub serial_interrupt_command : ℕ → ℕ
serial_interrupt_command port = u16 (port + 1)

abbrev pub serial_fifo_command : ℕ → ℕ
serial_fifo_command port = u16 (port + 2)

abbrev pub serial_line_command : ℕ → ℕ
serial_line_command port = u16 (port + 3)

abbrev pub serial_modem_command : ℕ → ℕ
serial_modem_command port = u16 (port + 4)

abbrev pub serial_line_status : ℕ → ℕ
serial_line_status port = u16 (port + 5)

abbrev pub serial_line_enable_dlab : ℕ
serial_line_enable_dlab = 0x80

unfoldable pub serial_configure_baud_rate : ℕ → ℕ → Trace → Trace
serial_configure_baud_rate port divisor t =
    x86outb (serial_interrupt_command port) (bit_and (divisor >>> 8) 0xFF) (
      x86outb port (bit_and (divisor >>> 0) 0xFF)
        (x86outb (serial_line_command port) serial_line_enable_dlab t))

unfoldable pub serial_set_interrupts : ℕ → ℕ → Trace → Trace
serial_set_interrupts port bitmask t = x86outb (serial_fifo_command port) bitmask t

unfoldable pub serial_set_flags : ℕ → ℕ → Trace → Trace
serial_set_flags port bitmask t = x86outb (serial_line_command port) bitmask t

unfoldable pub serial_set_mode : ℕ → ℕ → Trace → Trace
serial_set_mode port data_byte t = x86outb (serial_fifo_command port) data_byte t

module _ (devices : Devices) where
  -- Whether the line takes a byte: bit 5 of its status.
  abbrev pub is_ready : ℕ → Trace → Bool
  is_ready port t = not (bit_and (u8 (devices t (serial_line_status port))) 0x20 == 0)

  -- One round of the loop of `SerialSend`.
  unfoldable pub send_byte : ℕ → ℕ → Trace → Trace
  send_byte port c t =
      if is_ready port t then x86outb port c (if c == 0x0A then x86outb port 0x0D t else t) else t

  unfoldable pub serial_send : ℕ → List ℕ → Trace → Trace
  unfolding send_byte
  serial_send port [] t = t
  serial_send port (c ∷ text) t = serial_send port text (send_byte port c t)

  -- The bytes read, one after another; reading leaves the trace as it is.
  unfoldable pub serial_recv : ℕ → ℕ → Trace → List ℕ
  serial_recv port zero t = []
  serial_recv port (suc amt) t = u8 (devices t port) ∷ serial_recv port amt t

  unfoldable pub init_serial_device : Trace → Status × Trace
  unfolding serial_set_interrupts serial_configure_baud_rate serial_set_flags serial_set_mode
  init_serial_device t =
      let t₁ = serial_set_interrupts com1_port 0 t in
      let t₂ = x86outb (serial_line_command com1_port) serial_line_enable_dlab t₁ in
      let t₃ = serial_configure_baud_rate com1_port 12 t₂ in
      let t₄ = x86outb (serial_interrupt_command com1_port) 0 t₃ in
      let t₅ = serial_set_flags com1_port 3 t₄ in
      let t₆ = serial_set_mode com1_port 0xC7 t₅ in
      let t₇ = x86outb (serial_modem_command com1_port) 0x0B t₆ in
      let item = u8 (devices t₇ (serial_line_status com1_port)) in
      if item == 0xFF
      then (Status.error, t₇)
      else (Status.success, serial_set_interrupts com1_port 0x02 t₇)

-- The loop of `SerialDoKShellPrompt` on the bytes that the line gives: `CmdBuffer` and `Index` when
-- a newline was read, `none` if none comes.
unfoldable pub prompt_loop : List ℕ → ℕ → List ℕ → Option (ℕ × List ℕ)
prompt_loop buffer index [] = none
prompt_loop buffer index (cur_char ∷ input) =
    let buffer' = set buffer index cur_char in
    let index' = u16 (if not (index == 0) then index + 1 else index) % 1024 in
    let rest = prompt_loop buffer' index' input in
    if cur_char == 0x0A then some (index', buffer') else rest

module _ (devices : Devices) where
  -- `Prompt`, "frldbg> "
  unfoldable pub serial_do_kshell_prompt : List ℕ → Trace → Option (ℕ × List ℕ) × Trace
  unfolding serial_send prompt_loop
  serial_do_kshell_prompt input t = (
    prompt_loop (replicate 1024 0) 0 input,
    serial_send devices com1_port (0x66 ∷ 0x72 ∷ 0x6C ∷ 0x64 ∷ 0x62 ∷ 0x67 ∷ 0x3E ∷ 0x20 ∷ []) t,
  )
