-- ===== src/Multiboot/Entry.antt =====
-- `kern_init` of kern/entry/mb2entry.c as a whole, up to the call of `KiSystemStartup`. The strings
-- lie in the memory of the screen; what the processor tells of itself is read by assembly, and is a
-- parameter.
use feral.Base.{
  ℕ, zero, suc, ◌+◌, ◌-◌, true, not, ◌&&◌, Option, some, ltb, leb, ◌==◌, if◌then◌else◌, u32,
}
use feral.Base.Fault.{◌>>=◌}
use feral.Ports.{Devices}
use feral.Numbers.{ki_itoa}
use feral.Vga.{
  vga_light_grey, Screen, vga_black, vga_white, vga_prepare_environment, vga_set_cursor_enabled,
  vga_trace_characters, vga_move_cursor,
}
use feral.Vga.Lines.{ki_blank_vga_screen, vga_auto_print, vga_auto_println}
use feral.Multiboot.{BootState, read_tags, actual_family}
use feral.Multiboot.Screen.{vga_green, internal_print_register}

abbrev pub vga_red : ℕ
vga_red = 4

abbrev pub cpu_x86_64_family_zen : ℕ
cpu_x86_64_family_zen = 0x17

-- Where the string literals and the two buffers for numbers lie.
pub record Texts : Type 0 where
  pub starting : ℕ
  pub resolution : ℕ
  pub times : ℕ
  pub found_bootloader : ℕ
  pub found_command_line : ℕ
  pub cpu_vendor_msg : ℕ
  pub unsupported : ℕ
  pub empty : ℕ
  pub buf_begin_addr : ℕ
  pub buf_end_addr : ℕ

-- The registers of `cpuid_vendor_func`, of `cpuid_brand_name` for a command, and the number of
-- `cpuid_family_number`.
pub record Cpuid : Type 0 where
  pub vendor : ℕ × ℕ × ℕ
  pub brand_name : ℕ → ℕ × ℕ × ℕ × ℕ
  pub family_number : ℕ

-- A number as text in a buffer of 17 bytes of the screen's memory.
unfoldable pub store_number : ℕ → ℕ → ℕ → Screen → Option Screen
store_number fuel number p s = do
  (status, text) ← ki_itoa fuel number (λ i. s.memory (p + i))
  some (record s { memory = λ a. if leb p a && ltb a (p + 17) then text (a - p) else s.memory a })

module _ (fuel : ℕ) (texts : Texts) where
  -- A label in one colour and a string in another; the string ends the line.
  unfoldable pub print_pair : ℕ → ℕ → ℕ → ℕ → Screen → Option Screen
  print_pair label_color label color string s = do
    s₁ ← vga_auto_print fuel label_color vga_black label s
    vga_auto_println fuel color vga_black string s₁

  unfoldable pub print_resolution : ℕ → ℕ → Screen → Option Screen
  print_resolution width height s = do
    s₁ ← store_number fuel width texts.buf_begin_addr s
    s₂ ← store_number fuel height texts.buf_end_addr s₁
    s₃ ← vga_auto_print fuel vga_white vga_black texts.resolution s₂
    s₄ ← vga_auto_print fuel vga_green vga_black texts.buf_begin_addr s₃
    print_pair vga_white texts.times vga_red texts.buf_end_addr s₄

  unfoldable pub internal_print_cpu_vendor : ℕ → ℕ → ℕ → Screen → Option Screen
  internal_print_cpu_vendor part1 part2 part3 s = do
    s₁ ← vga_auto_print fuel vga_green vga_black texts.cpu_vendor_msg s
    s₂ ← internal_print_register fuel part1 4 0 s₁
    s₃ ← internal_print_register fuel part2 4 0 s₂
    s₄ ← internal_print_register fuel part3 4 0 s₃
    vga_auto_println fuel vga_white vga_black texts.empty s₄

  -- The loop over the parts of the processor's name.
  unfoldable pub print_brand : Cpuid → ℕ → ℕ → Screen → Option Screen
  print_brand cpuid zero index s = some s
  print_brand cpuid (suc left) index s = do
    let (part1, part2, part3, part4) = cpuid.brand_name (u32 (0x80000002 + index))
    s₁ ← internal_print_register fuel part1 4 0 s
    s₂ ← internal_print_register fuel part2 4 0 s₁
    s₃ ← internal_print_register fuel part3 4 0 s₂
    s₄ ← internal_print_register fuel part4 4 0 s₃
    print_brand cpuid left (index + 1) s₄

  unfoldable pub print_processor : Cpuid → Screen → Option Screen
  print_processor cpuid s = do
    let (part1, part2, part3) = cpuid.vendor
    s₁ ← internal_print_cpu_vendor part1 part2 part3 s
    s₂ ← print_brand cpuid 3 0 s₁
    s₃ ← vga_auto_println fuel vga_white vga_black texts.empty s₂
    if not (actual_family cpuid.family_number == cpu_x86_64_family_zen)
        then vga_auto_println fuel vga_red vga_black texts.unsupported s₃
        else some s₃

  module _ (devices : Devices) where
    -- The screen as it is handed to the kernel.
    unfoldable pub ready_screen : Screen → Option Screen
    ready_screen s =
        vga_move_cursor fuel 0 24
          (vga_trace_characters true (vga_set_cursor_enabled devices true s))

    -- The locals start as `start`; `BootInfo` and `MaxAddress` are in the result.
    unfoldable pub kern_init : Cpuid → ℕ → BootState → Screen → Option (BootState × Screen)
    kern_init cpuid mb_info start s = do
      boot ← read_tags fuel fuel s.memory mb_info start
      let (misc, s₁) =
          vga_prepare_environment devices boot.framebuffer boot.framebuffer_bpp
            boot.framebuffer_width boot.framebuffer_height boot.framebuffer_text_only s
      s₂ ← ki_blank_vga_screen fuel boot.framebuffer_height boot.framebuffer_width vga_black s₁
      s₃ ← vga_auto_println fuel vga_white vga_black texts.starting s₂
      s₄ ← print_resolution boot.framebuffer_width boot.framebuffer_height s₃
      s₅ ← print_pair vga_light_grey texts.found_bootloader vga_green boot.bootloader_name s₄
      s₆ ← print_pair vga_light_grey texts.found_command_line vga_green boot.command_line s₅
      s₇ ← print_processor cpuid s₆
      s₈ ← ready_screen s₇
      some (boot, s₈)
