-- ===== src/Multiboot/Ready.antt =====
-- The screen that `kern_init` of kern/entry/mb2entry.c hands to the kernel, and what `KiPrint` first
-- puts on it.
use mathlib.Core.Path.{subst}
use feral.Base.{
  ℕ, ◌+◌, ◌*◌, ◌^◌, ◌≤◌, ◌<◌, ◌≡◌, ◌≢◌, true, Option, some, refl, ap, sym, ◌∙◌, arith, u8, inr,
}
use feral.Memory.{Bytes}
use feral.Ports.{Devices}
use feral.Status.{Status}
use feral.Strings.{char_at, IsLength}
use feral.Vga.{VgaContext, Screen, vga_set_cursor_enabled, vga_trace_characters}
use feral.Print.{ki_print}
use feral.Multiboot.Letters.{cell, at_column, moved, moved-context, move_cursor-moved}
use feral.Multiboot.Screen.{screen_functions}
use feral.Multiboot.Row.{ki_print-row}
use feral.Multiboot.Entry.{Texts, ready_screen}

-- The cursor is on and follows, and the column is `x`.
abbrev pub handed_over : ℕ → VgaContext → VgaContext
handed_over x c = record c { cursor_enabled = true; following_input = true; current_col = x }

module _ (fuel : ℕ) (some_fuel : 0 < fuel) (texts : Texts) (devices : Devices) (s : Screen)
    (tall : 24 < s.context.screen_height) where
  ready_screen_lem :
      (t : Screen) × (ready_screen fuel texts devices s ≡ some t)
      × (t.context ≡ handed_over 0 s.context)
  unfolding ready_screen vga_set_cursor_enabled vga_trace_characters
  ready_screen_lem =
      let s' = vga_trace_characters true (vga_set_cursor_enabled devices true s) in
      (
        moved fuel some_fuel 0 24 s',
        move_cursor-moved fuel some_fuel 0 24 s' refl tall,
        moved-context fuel some_fuel 0 24 s' (omega arith),
      )

  -- With some fuel, on a screen of more than 24 rows and less than 2 ^ 15 columns, on whose
  -- current row, which lies on the screen and in 64 KiB, a string that is not null and shorter
  -- than the fuel for strings has room, the end of `kern_init` of the Multiboot entry succeeds
  -- with the cursor on, following, and at column 0 of the row that the last line ended at, and the
  -- first `KiPrint` then succeeds with the letters in the cells of that row from column 0 on.
  pub ready_screen-prints :
      (println : Bytes → ℕ → ℕ → Screen → Option Screen) (bound place : ℕ) (m : Bytes)
      (string n j : ℕ)
      → string ≢ 0
      → IsLength (char_at m string) n
      → n < 2 ^ 64
      → n < bound
      → s.context.current_row < s.context.screen_height
      → n < s.context.screen_width
      → s.context.screen_width < 2 ^ 15
      → 2 * (s.context.screen_width + s.context.current_row * s.context.screen_width) ≤ 2 ^ 16
      → j < n
      → (t : Screen) × (u : Screen) × (ready_screen fuel texts devices s ≡ some t)
        × (ki_print (screen_functions fuel println) bound place m string t
            ≡ some (Status.success, u))
        × (u.context ≡ handed_over n s.context)
        × (u.memory (cell j s.context) ≡ u8 (char_at m string j))
  ready_screen-prints println bound place m string n j given is_length short enough row room fits
        flat lt =
      let (t, readies, e) = ready_screen_lem in
      let (u, prints, last, letter, other) =
        ki_print-row fuel some_fuel println bound place m string n given is_length short enough t
          (ap (λ c. c.cursor_enabled) e) (subst (λ c. c.current_row < c.screen_height) (sym e) row)
          (subst (λ c. c.current_col + n < c.screen_width) (sym e) (omega arith))
          (subst (λ c. c.screen_width < 2 ^ 15) (sym e) fits)
          (subst (λ c. 2 * (c.screen_width + c.current_row * c.screen_width) ≤ 2 ^ 16) (sym e) flat)
          j (cell (t.context.current_col + n) t.context + 2) lt (inr (omega arith)) in
      (
        t,
        u,
        readies,
        prints,
        last
            ∙ ap (λ c. at_column (c.current_col + n) c) e
            ∙ ap (λ x. handed_over x s.context) (omega arith),
        ap (λ x. u.memory (cell x s.context)) (omega arith)
            ∙ subst (λ c. u.memory (cell (c.current_col + j) c) ≡ u8 (char_at m string j)) e letter,
      )
