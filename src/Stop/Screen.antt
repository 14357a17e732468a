-- ===== src/Stop/Screen.antt =====
-- `KiStopError` of sec/sec.c over the text screen, with the functions that print of the Multiboot
-- entry: what it calls of kern/arch/x86_64/vga/vga_driver.c by itself is filled in.
use feral.Base.{ℕ, Option, u32}
use feral.Memory.{Bytes}
use feral.Status.{Status}
use feral.Vga.{Screen, vga_blue, vga_white}
use feral.Vga.Lines.{vga_println, ki_blank_vga_screen}
use feral.Multiboot.Screen.{screen_functions}
use feral.Stop.{Stopped, StopTexts, Registers, ki_stop_error}

unfoldable stop_on_screen :
    ℕ
    → (Bytes → ℕ → ℕ → Screen → Option Screen)
    → ℕ
    → ℕ
    → Bytes
    → StopTexts
    → Registers
    → Status
    → Screen
    → Option (Stopped Screen)
unfolding ki_stop_error
stop_on_screen fuel println bound place m texts r status s =
    ki_stop_error (screen_functions fuel println) bound place fuel m texts
      (ki_blank_vga_screen fuel 25 80 vga_blue)
      (λ string length. vga_println fuel vga_white vga_blue string (u32 length)) r status s
