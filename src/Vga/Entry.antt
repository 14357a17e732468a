-- ===== src/Vga/Entry.antt =====
-- Where `VgaAutoEntry` leaves the position, and what it puts on the screen.
use feral.Base.{
  ℕ, zero, suc, ◌+◌, ◌-◌, ◌*◌, ◌^◌, ◌≤◌, ◌<◌, ◌≡◌, inl, inr, Option, some, arith, refl, ap, leb,
  if◌then◌else◌, u8, u16, leb→lt, Bool-cases,
}
use feral.Base.Fault.{◌>>=◌}
use feral.Vga.{
  VgaContext, Screen, last_row, vga_entry, put_entry, place_cursor, internal_vga_push_up,
}
use feral.Vga.Scroll.{IsValid, internal_vga_push_up_lem, vga_entry-inside, upper_bytes, row_bytes}
use feral.Vga.Lines.{at_row, at_col, wrap_position, vga_auto_entry}

-- The same screen but for the position.
abbrev pub IsSameScreen : VgaContext → VgaContext → Type 0
IsSameScreen c d = c ≡ record d { current_row = c.current_row; current_col = c.current_col }

-- Where the next letter fits without a new row.
abbrev pub IsInside : VgaContext → Type 0
IsInside c = (c.current_row < c.screen_height) × (c.current_col < c.screen_width)

abbrev pub HasFuel : ℕ → VgaContext → Type 0
HasFuel fuel c = upper_bytes c + row_bytes c < 4 * fuel

module _ (fuel : ℕ) (s : Screen) (valid : IsValid s.context) (enough : HasFuel fuel s.context)
    (has_col : 0 < s.context.screen_width) where
  push_up-IsInside :
      s.context.current_col < s.context.screen_width
      → s.context.current_row < s.context.screen_height
      → (t : Screen) × (internal_vga_push_up fuel s ≡ some t)
        × IsSameScreen t.context s.context
        × IsInside t.context
  unfolding put_entry place_cursor
  push_up-IsInside col row = elim (Bool-cases s.context.cursor_enabled) [
    | inl on ↦ (_, internal_vga_push_up_lem s valid fuel enough, rw on refl, rw on (row, has_col))
    | inr off ↦ (_, internal_vga_push_up_lem s valid fuel enough, rw off refl, rw off (row, col))
  ]

IsValid-position :
    (c : VgaContext) (row col : ℕ)
    → IsValid c
    → IsValid (record c { current_row = row; current_col = col })
IsValid-position c row col valid = record {
  even = valid.even;
  width_fits = valid.width_fits;
  has_row = valid.has_row;
  height_fits = valid.height_fits;
  area_fits = valid.area_fits;
  not_null = valid.not_null;
  in_space = valid.in_space;
}

-- The second test of `wrap_position`.
abbrev wrap_row : ℕ → Screen → Option Screen
wrap_row fuel s =
    if leb s.context.screen_height s.context.current_row
    then internal_vga_push_up fuel (at_row (last_row s) s)
    else some s

module _ (fuel : ℕ) (s : Screen) (valid : IsValid s.context) (enough : HasFuel fuel s.context) where
  wrap_row-IsInside :
      s.context.current_col < s.context.screen_width
      → (t : Screen) × (wrap_row fuel s ≡ some t)
        × IsSameScreen t.context s.context
        × IsInside t.context
  wrap_row-IsInside col = elim (Bool-cases (leb s.context.screen_height s.context.current_row)) [
    | inl below ↦
        let lo = valid.has_row in
        let hi = valid.height_fits in
        let (t, pushed, same, inside) =
          push_up-IsInside fuel (at_row (last_row s) s)
            (IsValid-position s.context (u16 (last_row s)) s.context.current_col valid) enough
            (omega arith) col (omega arith) in
        (t, rw below pushed, same, inside)
    | inr above ↦
        (s, rw above refl, refl, (leb→lt s.context.screen_height s.context.current_row above, col))
  ]

-- Where the letter before the position was put.
abbrev pub last_cell : VgaContext → ℕ
last_cell c = c.swapped_buffer + u16 (2 * ((c.current_col - 1) + c.current_row * c.screen_width))

pub vga_entry-positive :
    (fuel foreground background letter pos_x pos_y : ℕ) (s : Screen)
    → 0 < fuel
    → pos_y < s.context.screen_height
    → vga_entry fuel foreground background letter pos_x pos_y s
      ≡ some (put_entry foreground background letter pos_x pos_y s)
vga_entry-positive zero foreground background letter pos_x pos_y s some_fuel h =
    absurd (omega arith)
vga_entry-positive (suc fuel) foreground background letter pos_x pos_y s some_fuel h =
    vga_entry-inside fuel foreground background letter pos_x pos_y s h

-- A letter put at the position of a screen, which then moves on.
abbrev put_here : ℕ → ℕ → ℕ → Screen → Screen
put_here foreground background letter t =
    let t' = put_entry foreground background letter t.context.current_col t.context.current_row t in
    at_col (t'.context.current_col + 1) t'

module _ (foreground background letter : ℕ) (t : Screen) (fits : t.context.screen_width < 2 ^ 15)
    (inside : t.context.current_col < t.context.screen_width) where
  put_here-col :
      (put_here foreground background letter t).context.current_col ≡ t.context.current_col + 1
  unfolding put_entry
  put_here-col = omega arith

  put_here-cell :
      (put_here foreground background letter t).memory
        (last_cell (put_here foreground background letter t).context)
      ≡ u8 letter
  unfolding put_entry
  put_here-cell =
      let before : u16 (u16 t.context.current_col + 1) - 1 ≡ t.context.current_col = omega arith in
      rw before (ground arith)

module _ (fuel : ℕ) (s : Screen) (valid : IsValid s.context) (enough : HasFuel fuel s.context)
    (has_col : 0 < s.context.screen_width) where
  wrap_position-IsInside :
      (t : Screen) × (wrap_position fuel s ≡ some t)
      × IsSameScreen t.context s.context
      × IsInside t.context
  unfolding wrap_position
  wrap_position-IsInside = elim (Bool-cases (leb s.context.screen_width s.context.current_col)) [
    | inl past ↦
        let next = u16 (s.context.current_row + 1) in
        let (t, wrapped, same, inside) =
          wrap_row-IsInside fuel (at_row (s.context.current_row + 1) (at_col 0 s))
            (IsValid-position s.context next 0 valid) enough has_col in
        (t, rw past wrapped, same, inside)
    | inr inside ↦
        let (t, wrapped, same, inside') =
          wrap_row-IsInside fuel s valid enough
            (leb→lt s.context.screen_width s.context.current_col inside) in
        (t, rw inside wrapped, same, inside')
  ]

  -- On a screen with a column and a row whose rows the memory routines can move, from whatever
  -- position, `VgaAutoEntry` returns with the letter in the cell before the new position, a row on
  -- the screen, a column from 1 to the width, and nothing else of the context changed.
  pub vga_auto_entry-position :
      (foreground background letter : ℕ)
      → (t : Screen) × (vga_auto_entry fuel foreground background letter s ≡ some t)
        × IsSameScreen t.context s.context
        × (t.context.current_row < s.context.screen_height)
        × (0 < t.context.current_col)
        × (t.context.current_col ≤ s.context.screen_width)
        × (t.memory (last_cell t.context) ≡ u8 letter)
  unfolding vga_auto_entry put_entry
  vga_auto_entry-position foreground background letter =
      let (t, wrapped, same, (row, col)) = wrap_position-IsInside in
      let width : t.context.screen_width ≡ s.context.screen_width = ap (λ c. c.screen_width) same in
      let height : t.context.screen_height ≡ s.context.screen_height =
        ap (λ c. c.screen_height) same in
      let fits = valid.width_fits in
      let next = put_here-col foreground background letter t (omega arith) col in
      (
        put_here foreground background letter t,
        rw
            (
              wrapped,
              ◌>>=◌,
              vga_entry-positive fuel foreground background letter _ _ t (omega arith) row,
              ◌>>=◌,
            )
            refl,
        ap {A = VgaContext} {B = VgaContext}
            (λ c. record c { current_col = u16 (u16 t.context.current_col + 1) }) same,
        omega arith,
        omega arith,
        omega arith,
        put_here-cell foreground background letter t (omega arith) col,
      )
