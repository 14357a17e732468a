-- ===== src/Print/Coloured.antt =====
-- The functions of kern/lib/kernel_printfuncs.c that print a line in a color, on the text screen.
-- The string lies in the memory of the screen; the length is cut to the `DWORD` of `VgaPrintln`.
use feral.Base.{ℕ, Option, some, if◌then◌else◌, u32}
use feral.Base.Fault.{◌>>=◌}
use feral.Status.{Status, is}
use feral.Strings.{ki_get_string_length}
use feral.Vga.{Screen, vga_black, vga_light_grey, vga_light_brown}
use feral.Vga.Lines.{vga_println}

unfoldable ki_move_current_position : ℕ → ℕ → Status
ki_move_current_position x y = Status.unsupported_operation

unfoldable ki_print_grey_line : ℕ → ℕ → ℕ → Screen → Option (Status × Screen)
ki_print_grey_line fuel bound string s = do
  (status, length) ← ki_get_string_length bound s.memory string 0
  if is status Status.success
      then (do
        s' ← vga_println fuel vga_light_grey vga_black string (u32 length) s
        some (Status.success, s'))
      else some (status, s)

unfoldable ki_print_warn_line : ℕ → ℕ → ℕ → Screen → Option (Status × Screen)
ki_print_warn_line fuel bound string s = do
  (status, length) ← ki_get_string_length bound s.memory string 0
  if is status Status.success
      then (do
        s' ← vga_println fuel vga_light_brown vga_black string (u32 length) s
        some (Status.success, s'))
      else some (status, s)
