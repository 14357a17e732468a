-- ===== src/Boot/Firmware.antt =====
-- The rest of the firmware that bootloader/boot.c calls, next to the services of the loader. What it
-- does is a parameter.
use feral.Base.{
  ℕ, ◌*◌, ◌%◌, ◌^◌, ◌/◌, ◌+◌, ◌-◌, Option, some, List, ltb, leb, ◌&&◌, if◌then◌else◌, u64,
}
use feral.Base.Fault.{◌>>=◌}
use feral.Memory.{Bytes}
use feral.Boot.{efi_itoa_base_change}
use feral.Boot.Elf.{Services, Message, write_message}

pub data Protocol : Type 0 where
  loaded_image simple_fs graphics_output : Protocol

-- What `GetMemoryMap` reads and sets.
pub record MapInfo : Type 0 where
  pub map_size : ℕ
  pub map_key : ℕ
  pub descriptor_size : ℕ

-- A call gives its status first. `services.read` and `services.set_position` are of the one file
-- that `open_kernel` opens. `ResetSystem` is no field, since it
-- does not return.
pub record Firmware {ℓ} (F : Type ℓ) : Type ℓ where
  pub services : Services F
  pub set_watchdog_timer : F → F
  -- the displays: their number and their handles
  pub locate_displays : F → ℕ × ℕ × (ℕ → ℕ) × F
  pub clear_screen : F → F
  -- the protocol, the handle; then the interface
  pub open_protocol : Protocol → ℕ → F → ℕ × ℕ × F
  pub set_mode : ℕ → F → ℕ × F
  -- the resolution, horizontal and vertical, and the base of the framebuffer
  pub mode : ℕ → F → ℕ × ℕ × ℕ
  pub device_handle : ℕ → F → ℕ
  pub open_volume : ℕ → F → ℕ × ℕ × F
  pub open_kernel : ℕ → F → ℕ × ℕ × F
  pub close : ℕ → F → F
  -- the buffer; then what is written to it
  pub get_memory_map : ℕ → MapInfo → F → ℕ × MapInfo × List ℕ × F
  pub exit_boot_services : ℕ → ℕ → F → F

-- Four bytes of a cell.
abbrev pub store32 : ℕ → ℕ → Bytes → Bytes
store32 p v m = λ a. if leb p a && ltb a (p + 4) then v / 2 ^ (8 * (a - p)) % 2 ^ 8 else m a

module _ {ℓ} {F : Type ℓ} (fw : Firmware F) where
  abbrev pub say : Message → F → F
  say message f = write_message fw.services message f

  -- How a failed call is reported: a text, the status, and a pause.
  abbrev pub report : Message → ℕ → F → F
  report message status f =
      fw.services.stall 12500000 (say (Message.status_text status) (say message f))

  -- `InternalItoaBaseChange` and the output of its buffer.
  unfoldable pub show_number : ℕ → ℕ → ℕ → (ℕ → ℕ) → F → Option ((ℕ → ℕ) × F)
  show_number fuel radix val itoa_buf f = do
    text ← efi_itoa_base_change fuel (u64 val) itoa_buf radix
    some (text, say (Message.buffer text) f)
