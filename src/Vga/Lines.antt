-- ===== src/Vga/Lines.antt =====
-- The functions of kern/arch/x86_64/vga/vga_driver.c that put letters and strings where the last
-- ones ended.
use feral.Base.{ℕ, zero, suc, ◌+◌, Option, none, some, ltb, leb, ◌==◌, if◌then◌else◌, u16, u32}
use feral.Base.Fault.{◌>>=◌}
use feral.Strings.{ki_get_string_length}
use feral.Vga.{
  Screen, last_row, vga_set_current_position, vga_entry, vga_move_cursor, internal_vga_push_up,
}

abbrev pub at_row : ℕ → Screen → Screen
at_row row s = record s { context = record s.context { current_row = u16 row } }

abbrev pub at_col : ℕ → Screen → Screen
at_col col s = record s { context = record s.context { current_col = u16 col } }

-- The tests that stand before a letter is put: the next row past the last column, and the rows
-- pushed up past the last row.
unfoldable pub wrap_position : ℕ → Screen → Option Screen
wrap_position fuel s =
    let s' =
      (if leb s.context.screen_width s.context.current_col
        then at_row (s.context.current_row + 1) (at_col 0 s)
        else s) in
    if leb s'.context.screen_height s'.context.current_row
    then internal_vga_push_up fuel (at_row (last_row s') s')
    else some s'

unfoldable pub vga_auto_entry : ℕ → ℕ → ℕ → ℕ → Screen → Option Screen
unfolding wrap_position
vga_auto_entry fuel foreground background letter s = do
  s₁ ← wrap_position fuel s
  s₂ ← vga_entry fuel foreground background letter s₁.context.current_col s₁.context.current_row s₁
  some (at_col (s₂.context.current_col + 1) s₂)

unfoldable pub vga_put_char : ℕ → ℕ → Screen → Option Screen
unfolding wrap_position vga_auto_entry
vga_put_char fuel letter s = do
  s₁ ← vga_auto_entry fuel s.context.foreground s.context.background letter s
  if s₁.context.following_input
      then (do
        s₂ ← wrap_position fuel s₁
        vga_move_cursor fuel s₂.context.current_col s₂.context.current_row s₂)
      else some s₁

-- The eight spaces of a tab.
abbrev pub put_spaces : ℕ → ℕ → Screen → Option Screen
put_spaces fuel zero s = some s
put_spaces fuel (suc left) s = do s' ← vga_put_char fuel 0x20 s; put_spaces fuel left s'

-- The two tests at the start of a round of `VgaStringEntry`: `posx`, `posy` and the screen.
unfoldable pub wrap_round : ℕ → ℕ → ℕ → Screen → Option (ℕ × ℕ × Screen)
wrap_round fuel posx posy s =
    let next = leb s.context.screen_width posx in
    let posx' = if next then 0 else posx in
    let posy' = if next then u32 (posy + 1) else posy in
    let s' = if next then at_row posy' s else s in
    if leb s'.context.screen_height posy'
    then (do s'' ← internal_vga_push_up fuel s'; some (posx', last_row s', s''))
    else some (posx', posy', s')

-- `left` is `length - index`, and `string` the address of the string.
unfoldable pub vga_string_entry : ℕ → ℕ → ℕ → ℕ → ℕ → ℕ → ℕ → ℕ → Screen → Option Screen
unfolding wrap_round
vga_string_entry fuel foreground background string zero index posx posy s = some s
vga_string_entry fuel foreground background string (suc left) index posx posy s = do
  let c = s.memory (string + index)
  let go_on = λ (x y : ℕ) (t : Screen).
      vga_string_entry fuel foreground background string left (index + 1) x y t
  (x, y, s') ← wrap_round fuel posx posy s
  if c == 0x09
      then (do t ← put_spaces fuel 8 s'; go_on x y t)
      else if c == 0x0A
      then go_on x y (at_row (s'.context.current_row + 1) (at_col 0 s'))
      else if c == 0
      then some s'
      else (do t ← vga_entry fuel foreground background c x y s'; go_on (u32 (x + 1)) y t)

unfoldable pub vga_println : ℕ → ℕ → ℕ → ℕ → ℕ → Screen → Option Screen
unfolding vga_string_entry
vga_println fuel foreground background string length s = do
  s₁ ←
      vga_string_entry fuel foreground background string length 0 s.context.current_col
        s.context.current_row s
  let s₂ = at_col 0 (at_row (s₁.context.current_row + 1) s₁)
  s₃ ←
      if leb s₂.context.screen_height s₂.context.current_row
      then internal_vga_push_up fuel (at_row (last_row s₂) s₂)
      else some s₂
  vga_move_cursor fuel s₃.context.current_col s₃.context.current_row s₃

-- One row of `KiBlankVgaScreen` from column `w`, which is a `UINT16`.
unfoldable pub blank_row : ℕ → ℕ → ℕ → ℕ → ℕ → ℕ → Screen → Option Screen
blank_row fuel zero width color h w s = none
blank_row fuel (suc left) width color h w s =
    let rest = blank_row fuel left width color h (u16 (w + 1)) in
    if ltb w width then (do s' ← vga_entry fuel color color 0 w h s; rest s') else some s

unfoldable pub blank_rows : ℕ → ℕ → ℕ → ℕ → ℕ → ℕ → Screen → Option Screen
unfolding blank_row
blank_rows fuel zero height width color h s = none
blank_rows fuel (suc left) height width color h s =
    let rest = blank_rows fuel left height width color (u16 (h + 1)) in
    if ltb h height then (do s' ← blank_row fuel fuel width color h 0 s; rest s') else some s

unfoldable pub ki_blank_vga_screen : ℕ → ℕ → ℕ → ℕ → Screen → Option Screen
unfolding blank_rows vga_set_current_position
ki_blank_vga_screen fuel height width color s = do
  s' ←
      blank_rows fuel fuel height width color 0
        (record s { context = record s.context { background = color } })
  some (vga_set_current_position 0 0 s')

unfoldable pub vga_auto_println : ℕ → ℕ → ℕ → ℕ → Screen → Option Screen
unfolding vga_println
vga_auto_println fuel foreground background string s = do
  (status, length) ← ki_get_string_length fuel s.memory string 0
  vga_println fuel foreground background string (u32 length) s

unfoldable pub vga_auto_print : ℕ → ℕ → ℕ → ℕ → Screen → Option Screen
unfolding vga_string_entry
vga_auto_print fuel foreground background string s = do
  (status, length) ← ki_get_string_length fuel s.memory string 0
  s₁ ←
      vga_string_entry fuel foreground background string (u32 length) 0 s.context.current_col
        s.context.current_row s
  let s₂ = at_col (s₁.context.current_col + 1) s₁
  vga_move_cursor fuel s₂.context.current_col s₂.context.current_row s₂
