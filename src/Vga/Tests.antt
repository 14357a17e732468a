-- ===== src/Vga/Tests.antt =====
-- The theorems about the screen on a small one.
use feral.Base.{◌≡◌, ◌≤◌, ◌<◌, true, false, some, refl, arith, []}
use feral.Vga.{VgaContext, Screen}
use feral.Vga.Lines.{vga_auto_entry, ki_blank_vga_screen}
use feral.Vga.Blank.{IsBlank, ki_blank_vga_screen_lem}
use feral.Vga.Scroll.{IsValid}
use feral.Vga.Entry.{IsSameScreen, last_cell, vga_auto_entry-position}

-- Four columns and three rows, with the position behind the last cell.
abbrev small_context : VgaContext
small_context = record {
  framebuffer = 0xB8000;
  swapped_buffer = 0xB8000;
  screen_width = 4;
  screen_height = 3;
  bpp = 16;
  background = 0;
  foreground = 15;
  highlight = 14;
  current_row = 2;
  current_col = 4;
  text_mode = true;
  following_input = false;
  cursor_enabled = true;
}

abbrev small : Screen
small = record { context = small_context; memory = λ a. a; trace = [] }

small-IsValid : IsValid small_context
small-IsValid = record {
  even = refl;
  width_fits = omega arith;
  has_row = omega arith;
  height_fits = omega arith;
  area_fits = omega arith;
  not_null = λ e. omega (arith, e);
  in_space = omega arith;
}

vga_auto_entry-position_example :
    (t : Screen) × (vga_auto_entry 7 15 0 0x41 small ≡ some t)
    × IsSameScreen t.context small_context
    × (t.context.current_row < 3)
    × (0 < t.context.current_col)
    × (t.context.current_col ≤ 4)
    × (t.memory (last_cell t.context) ≡ 0x41)
vga_auto_entry-position_example =
    vga_auto_entry-position 7 small small-IsValid (omega arith) (omega arith) 15 0 0x41

ki_blank_vga_screen_lem_example :
    (t : Screen) × (ki_blank_vga_screen 7 3 4 1 small ≡ some t)
    × (t.context ≡ record small_context { background = 1; current_row = 0; current_col = 0 })
    × IsBlank 0xB8000 1 0 12 small t
ki_blank_vga_screen_lem_example =
    ki_blank_vga_screen_lem 7 3 1 small (omega arith) (omega arith) (omega arith) (omega arith)
      (omega arith) (omega arith)
