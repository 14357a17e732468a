-- ===== src/Multiboot/Letters.antt =====
-- What letters put on the screen of kern/arch/x86_64/vga/vga_driver.c leave there, on a row that has
-- room for them.
use mathlib.Core.Path.{subst}
use feral.Base.{
  ◌⊎◌, ◌≤◌, u8, ℕ, ◌+◌, ◌*◌, ◌^◌, ◌<◌, ◌≡◌, Bool, true, false, not, Option, some, refl, ap, sym,
  ◌∙◌, arith, if◌then◌else◌, leb-false, u8, u16,
}
use feral.Base.Fault.{◌>>=◌}
use feral.Vga.{VgaContext, Screen, vga_move_cursor, put_entry, place_cursor}
use feral.Vga.Lines.{at_col, wrap_position, vga_auto_entry, vga_put_char}
use feral.Vga.Entry.{IsInside, vga_entry-positive}

-- Where the letter of a column of the row lies.
abbrev pub cell : ℕ → VgaContext → ℕ
cell x c = c.swapped_buffer + u16 (2 * (x + c.current_row * c.screen_width))

-- The same context with another column.
abbrev pub at_column : ℕ → VgaContext → VgaContext
at_column x c = record c { current_col = x }

-- Nothing but the two bytes at a place has changed.
abbrev pub KeepsOthers : ℕ → Screen → Screen → Type 0
KeepsOthers p s t = (a : ℕ) → (a < p) ⊎ (p + 2 ≤ a) → t.memory a ≡ s.memory a

put_entry-letter :
    (foreground background letter x y : ℕ) (s : Screen)
    → (put_entry foreground background letter x y s).memory
        (s.context.swapped_buffer + u16 (2 * (x + y * s.context.screen_width)))
      ≡ u8 letter
unfolding put_entry
put_entry-letter foreground background letter x y s = ground arith

put_entry-KeepsOthers :
    (foreground background letter x y : ℕ) (s : Screen)
    → KeepsOthers
        (s.context.swapped_buffer + u16 (2 * (x + y * s.context.screen_width)))
        s
        (put_entry foreground background letter x y s)
unfolding put_entry
put_entry-KeepsOthers foreground background letter x y s a out = ground arith

not_skipped : (b : Bool) (x y : Option Screen) → b ≡ true → (if not b then x else y) ≡ y
not_skipped b x y h = rw h refl

module _ (fuel : ℕ) (some_fuel : 0 < fuel) where
  abbrev pub moved : ℕ → ℕ → Screen → Screen
  moved x y s = put_entry s.context.highlight s.context.background 0 x y (place_cursor x y s)

  pub moved-context :
      (x y : ℕ) (s : Screen) → x < 2 ^ 15 → (moved x y s).context ≡ at_column x s.context
  unfolding put_entry place_cursor
  moved-context x y s small = ap (λ t. at_column t s.context) (omega arith)

  pub moved-cell :
      (x y : ℕ) (s : Screen)
      → (moved x y s).memory (s.context.swapped_buffer + u16 (2 * (x + y * s.context.screen_width)))
        ≡ 0
  unfolding put_entry place_cursor
  moved-cell x y s = ground arith

  pub row_of :
      (s t : Screen) (x : ℕ)
      → t.context ≡ at_column x s.context
      → s.context.current_row < s.context.screen_height
      → t.context.current_row < t.context.screen_height
  row_of s t x e row = subst (λ c. c.current_row < c.screen_height) (sym e) row

  pub move_cursor-moved :
      (x y : ℕ) (s : Screen)
      → s.context.cursor_enabled ≡ true
      → y < s.context.screen_height
      → vga_move_cursor fuel x y s ≡ some (moved x y s)
  unfolding vga_move_cursor place_cursor
  move_cursor-moved x y s on inside =
      not_skipped s.context.cursor_enabled _ _ on
      ∙ vga_entry-positive fuel s.context.highlight s.context.background 0 x y (place_cursor x y s)
          some_fuel inside

  wrap-inside : (s : Screen) → IsInside s.context → wrap_position fuel s ≡ some s
  unfolding wrap_position
  wrap-inside s (row, col) =
      rw
        (
          leb-false s.context.screen_width s.context.current_col col,
          leb-false s.context.screen_height s.context.current_row row,
        )
        refl

  auto_entry-advances :
      (foreground background letter : ℕ) (s : Screen)
      → IsInside s.context
      → s.context.screen_width < 2 ^ 15
      → (t : Screen) × (vga_auto_entry fuel foreground background letter s ≡ some t)
        × (t.context ≡ at_column (s.context.current_col + 1) s.context)
        × (t.memory (cell s.context.current_col s.context) ≡ u8 letter)
        × KeepsOthers (cell s.context.current_col s.context) s t
  unfolding vga_auto_entry put_entry
  auto_entry-advances foreground background letter s inside fits =
      let t =
        put_entry foreground background letter s.context.current_col s.context.current_row s in
      let low = inside.1 in
      (
        at_col (t.context.current_col + 1) t,
        rw
            (
              wrap-inside s inside,
              ◌>>=◌,
              vga_entry-positive fuel foreground background letter s.context.current_col
                  s.context.current_row s some_fuel inside.0,
              ◌>>=◌,
            )
            refl,
        ap (λ x. at_column x s.context) (omega arith),
        put_entry-letter foreground background letter s.context.current_col s.context.current_row s,
        put_entry-KeepsOthers foreground background letter s.context.current_col
            s.context.current_row s,
      )

  moved-KeepsOthers :
      (x y : ℕ) (s : Screen)
      → KeepsOthers
          (s.context.swapped_buffer + u16 (2 * (x + y * s.context.screen_width)))
          s
          (moved x y s)
  unfolding put_entry place_cursor
  moved-KeepsOthers x y s a out = ground arith

  -- What `VgaPutChar` does after the letter, where the next position is on the same row.
  follow :
      (t : Screen)
      → t.context.cursor_enabled ≡ true
      → IsInside t.context
      → t.context.screen_width < 2 ^ 15
      → (u : Screen) × ((wrap_position fuel t
            >>= (λ t'. vga_move_cursor fuel t'.context.current_col t'.context.current_row t'))
          ≡ some u)
        × (u.context ≡ t.context)
        × KeepsOthers (cell t.context.current_col t.context) t u
  follow t on inside fits =
      let low = inside.1 in
      (
        moved t.context.current_col t.context.current_row t,
        rw (wrap-inside t inside, ◌>>=◌)
            (move_cursor-moved t.context.current_col t.context.current_row t on inside.0),
        moved-context t.context.current_col t.context.current_row t (omega arith),
        moved-KeepsOthers t.context.current_col t.context.current_row t,
      )

  followed :
      (b : Bool) (t : Screen)
      → t.context.cursor_enabled ≡ true
      → IsInside t.context
      → t.context.screen_width < 2 ^ 15
      → (u : Screen) × ((if b
            then (wrap_position fuel t
                >>= (λ t'. vga_move_cursor fuel t'.context.current_col t'.context.current_row t'))
            else some t)
          ≡ some u)
        × (u.context ≡ t.context)
        × KeepsOthers (cell t.context.current_col t.context) t u
  followed true t on inside fits = follow t on inside fits
  followed false t on inside fits = (t, refl, refl, λ a out. refl)

  pub put_char-advances :
      (letter : ℕ) (s : Screen)
      → s.context.cursor_enabled ≡ true
      → s.context.current_row < s.context.screen_height
      → s.context.current_col + 1 < s.context.screen_width
      → s.context.screen_width < 2 ^ 15
      → (t : Screen) × (vga_put_char fuel letter s ≡ some t)
        × (t.context ≡ at_column (s.context.current_col + 1) s.context)
        × (t' : Screen) × (t'.memory (cell s.context.current_col s.context) ≡ u8 letter)
        × KeepsOthers (cell s.context.current_col s.context) s t'
        × KeepsOthers (cell (s.context.current_col + 1) s.context) t' t
  unfolding vga_put_char
  put_char-advances letter s on row room fits =
      let (t, runs, same, shown, keeps) =
        auto_entry-advances s.context.foreground s.context.background letter s (row, omega arith)
          fits in
      let (u, follows, kept, others) =
        followed t.context.following_input t (ap (λ c. c.cursor_enabled) same ∙ on)
          (subst IsInside (sym same) (row, room))
          (subst (λ c. c.screen_width < 2 ^ 15) (sym same) fits) in
      (
        u,
        rw (runs, ◌>>=◌) follows,
        kept ∙ same,
        t,
        shown,
        keeps,
        subst (λ c. KeepsOthers (cell c.current_col c) t u) same others,
      )
