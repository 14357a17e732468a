-- ===== src/Multiboot/Screen.antt =====
-- The functions that kern/entry/mb2entry.c hands to the kernel for printing, over the text screen of
-- kern/arch/x86_64/vga/vga_driver.c.
use mathlib.Core.Path.{subst}
use feral.Base.{
  ℕ, zero, suc, ◌+◌, ◌-◌, ◌*◌, ◌^◌, ◌<◌, ◌≡◌, true, Option, some, ap, sym, ◌∙◌, arith, ◌==◌,
  if◌then◌else◌, u8, u16, ne→==, ◌>>>◌,
}
use feral.Base.Fault.{◌>>=◌}
use feral.Memory.{Bytes}
use feral.Print.{KrnlFirmwareFunctions}
use feral.Vga.{
  Screen, vga_black, vga_white, vga_get_current_position, vga_get_framebuffer_dimensions,
  vga_move_cursor,
}
use feral.Vga.Lines.{vga_auto_entry, vga_put_char, vga_println}
use feral.Multiboot.Letters.{
  cell, at_column, moved, moved-context, moved-cell, row_of, move_cursor-moved, put_char-advances,
}

abbrev pub vga_green : ℕ
vga_green = 2

unfoldable pub internal_put_char : ℕ → ℕ → Screen → Option Screen
internal_put_char fuel c s = vga_put_char fuel c s

-- The string lies in the memory of the screen.
unfoldable pub internal_vga_println : ℕ → ℕ → ℕ → Screen → Option Screen
internal_vga_println fuel str len s = vga_println fuel vga_white vga_black str len s

-- `left` bytes of a register, from byte `i` on.
unfoldable pub internal_print_register : ℕ → ℕ → ℕ → ℕ → Screen → Option Screen
internal_print_register fuel reg zero i s = some s
internal_print_register fuel reg (suc left) i s = do
  s' ← vga_auto_entry fuel vga_green vga_black (u8 (reg >>> (i * 8))) s
  internal_print_register fuel reg left (i + 1) s'

unfoldable pub internal_vga_backspace : ℕ → Screen → Option Screen
internal_vga_backspace fuel s =
    let (x, y) = vga_get_current_position s in
    let (width, height) = vga_get_framebuffer_dimensions s in
    if x == 0 then some s else (do
      s₁ ← vga_move_cursor fuel (x - 1) y s
      s₂ ← vga_put_char fuel b' ' s₁
      vga_move_cursor fuel (x - 1) y s₂)

module _ (fuel : ℕ) (some_fuel : 0 < fuel) where
  -- With the cursor enabled and fuel above 0, from a position on the screen that is not in the
  -- first column, on a screen narrower than 2 ^ 15 columns, `InternalVgaBackspace` returns with
  -- the position one column back, nothing else of the context changed, and the letter there erased
  -- to 0.
  pub internal_vga_backspace_lem :
      (s : Screen)
      → s.context.cursor_enabled ≡ true
      → s.context.current_row < s.context.screen_height
      → 0 < s.context.current_col
      → s.context.current_col < s.context.screen_width
      → s.context.screen_width < 2 ^ 15
      → (t : Screen) × (internal_vga_backspace fuel s ≡ some t)
        × (t.context ≡ at_column (s.context.current_col - 1) s.context)
        × (t.memory (cell (s.context.current_col - 1) s.context) ≡ 0)
  unfolding internal_vga_backspace vga_get_current_position
  internal_vga_backspace_lem s on row given room fits =
      let x = s.context.current_col - 1 in
      let y = s.context.current_row in
      let first = moved-context fuel some_fuel x y s (omega arith) in
      let on_row = row_of fuel some_fuel s (moved fuel some_fuel x y s) x first row in
      let (t, runs, advanced, t₁, shown, keeps, others) =
        put_char-advances fuel some_fuel b' ' (moved fuel some_fuel x y s)
          (ap (λ c. c.cursor_enabled) first ∙ on) on_row
          (subst (λ c. c.current_col + 1 < c.screen_width) (sym first) (omega arith))
          (subst (λ c. c.screen_width < 2 ^ 15) (sym first) fits) in
      let second : t.context ≡ at_column (x + 1) s.context =
        advanced ∙ ap (λ c. at_column (c.current_col + 1) c) first in
      (
        moved fuel some_fuel x y t,
        rw
            (
              ne→== s.context.current_col 0 (omega (arith, given)),
              move_cursor-moved fuel some_fuel x y s on row,
              ◌>>=◌,
              runs,
              ◌>>=◌,
            )
            (move_cursor-moved fuel some_fuel x y t (ap (λ c. c.cursor_enabled) second ∙ on)
              (subst (λ c. y < c.screen_height) (sym second) row)),
        moved-context fuel some_fuel x y t (omega arith) ∙ ap (at_column x) second,
        subst
            (λ c.
              (moved fuel some_fuel x y t).memory
                (c.swapped_buffer + u16 (2 * (x + y * c.screen_width)))
              ≡ 0)
            second (moved-cell fuel some_fuel x y t),
      )

-- The functions of the table that print. `InternalVgaPrintln` reads its string from the memory of
-- the screen, and is given here for the memory that the string is in.
abbrev pub screen_functions :
    ℕ → (Bytes → ℕ → ℕ → Screen → Option Screen) → KrnlFirmwareFunctions Screen
screen_functions fuel println = record {
  put_char = internal_put_char fuel;
  println = println;
  backspace = internal_vga_backspace fuel;
  vga_put_char = vga_put_char fuel;
}
