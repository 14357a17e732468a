-- ===== src/Vga/Scroll.antt =====
-- What `internalVgaPushUp` does to the cells of the screen.
use native.Mathlib.Nat.{mul_comm, mul_assoc}
use feral.Base.{
  ℕ, zero, suc, ◌+◌, ◌-◌, ◌*◌, ◌/◌, ◌%◌, ◌^◌, ◌≤◌, ◌<◌, ◌≡◌, ◌≢◌, Bool, true, false, ◌&&◌, Option,
  some, arith, inl, refl, fun_ext, ap, ◌∙◌, not, ltb, leb, leb-false, if◌then◌else◌, u16, u64,
  sub64,
}
use feral.Base.Fault.{◌>>=◌}
use feral.Status.{Status}
use feral.Memory.{Bytes, ki_copy_memory, ki_set_memory_bytes}
use feral.Memory.Copy.{rounded, copied, ki_copy_memory_lem}
use feral.Memory.Fill.{filled, ki_set_memory_bytes_lem}
use feral.Vga.{
  VgaContext, Screen, scroll, vga_entry, place_cursor, put_entry, last_row, vga_move_cursor,
  internal_vga_push_up,
}

-- The bytes of a row, and of all rows but the last.
abbrev pub row_bytes : VgaContext → ℕ
row_bytes c = 2 * c.screen_width

abbrev pub upper_bytes : VgaContext → ℕ
upper_bytes c = 2 * c.screen_width * (c.screen_height - 1)

-- A screen that the memory routines can move: an even width, at least one row, and a buffer that
-- ends in the address space. Its offsets are `UINT16`.
pub record IsValid (c : VgaContext) : Type 0 where
  pub even : c.screen_width % 2 ≡ 0
  pub width_fits : c.screen_width < 2 ^ 15
  pub has_row : 0 < c.screen_height
  pub height_fits : c.screen_height < 2 ^ 16
  pub area_fits : upper_bytes c + row_bytes c ≤ 2 ^ 16
  pub not_null : c.swapped_buffer ≢ 0
  pub in_space : c.swapped_buffer + (upper_bytes c + row_bytes c) < 2 ^ 64

-- The memory with the rows pushed up.
abbrev pub pushed_up : VgaContext → Bytes → Bytes
pushed_up c m = λ a.
    if leb c.swapped_buffer a && ltb a (c.swapped_buffer + upper_bytes c)
    then m (a + row_bytes c)
    else if leb c.swapped_buffer a && ltb a (c.swapped_buffer + (upper_bytes c + row_bytes c))
    then 0
    else m a

upper_bytes-aligned : (w r : ℕ) → w % 2 ≡ 0 → 2 * w * r % 4 ≡ 0
upper_bytes-aligned w r h =
    let doubled : 2 * w * r ≡ 4 * (w / 2 * r) =
      ap (λ t. t * r) (omega arith) ∙ mul_assoc 4 (w / 2) r in
    omega arith

-- On the screen `VgaEntry` stores the letter and its color, and no more.
pub vga_entry-inside :
    (fuel foreground background letter pos_x pos_y : ℕ) (s : Screen)
    → pos_y < s.context.screen_height
    → vga_entry (suc fuel) foreground background letter pos_x pos_y s
      ≡ some (put_entry foreground background letter pos_x pos_y s)
unfolding vga_entry
vga_entry-inside fuel foreground background letter pos_x pos_y s h =
    rw (leb-false s.context.screen_height pos_y h) refl

module _ (s : Screen) (valid : IsValid s.context) where
  abbrev base : ℕ
  base = s.context.swapped_buffer

  abbrev upper : ℕ
  upper = upper_bytes s.context

  abbrev row : ℕ
  row = row_bytes s.context

  above-eq : sub64 s.context.screen_height 1 ≡ s.context.screen_height - 1
  above-eq = let lo = valid.has_row in let hi = valid.height_fits in omega arith

  row-eq : u16 row ≡ row
  row-eq = let h = valid.width_fits in omega arith

  last-eq : u64 (base + (s.context.screen_height - 1) * row) ≡ base + upper
  last-eq =
      let h = valid.in_space in
      let swapped = mul_comm (s.context.screen_height - 1) row in omega arith

  amt-eq : u64 upper ≡ upper
  amt-eq = let h = valid.area_fits in omega arith

  upper-rounded : rounded upper ≡ upper
  upper-rounded =
      let h = upper_bytes-aligned s.context.screen_width (s.context.screen_height - 1) valid.even in
      omega arith

  row-rounded : rounded row ≡ row
  row-rounded = let h = valid.even in omega arith

  memory-eq :
      filled (base + upper) 0 row (copied base (base + row) upper s.memory)
      ≡ pushed_up s.context s.memory
  memory-eq = fun_ext λ a. ground arith

  copy-eq :
      (fuel : ℕ)
      → upper + row < 4 * fuel
      → ki_copy_memory fuel s.memory base (base + row) upper
        ≡ some (Status.success, copied base (base + row) upper s.memory)
  copy-eq fuel enough =
      let h = valid.area_fits in
      let given : base + row ≢ 0 = λ e. valid.not_null (omega arith) in
      ki_copy_memory_lem s.memory base (base + row) upper (inl (omega arith)) (omega arith) fuel
        (omega (arith, upper-rounded)) given valid.not_null
      ∙ ap (λ n. some (Status.success, copied base (base + row) n s.memory)) upper-rounded

  fill-eq :
      (fuel : ℕ) (m : Bytes)
      → upper + row < 4 * fuel
      → ki_set_memory_bytes fuel m (base + upper) 0 row
        ≡ some (Status.success, filled (base + upper) 0 row m)
  fill-eq fuel m enough =
      let h = valid.width_fits in
      ki_set_memory_bytes_lem m (base + upper) 0 row (omega arith) fuel (omega (arith, row-rounded))
      ∙ ap (λ n. some (Status.success, filled (base + upper) 0 n m)) row-rounded

  -- On a screen with a row whose rows the memory routines can move, the two memory calls of
  -- `internalVgaPushUp` end, every row becomes the one below it, the last row becomes zero, and no
  -- other byte changes.
  pub scroll_lem :
      (fuel : ℕ)
      → upper + row < 4 * fuel
      → scroll fuel s ≡ some (record s { memory = pushed_up s.context s.memory })
  unfolding scroll
  scroll_lem fuel enough =
      rw
        (
          above-eq,
          row-eq,
          amt-eq,
          last-eq,
          copy-eq fuel enough,
          ◌>>=◌,
          fill-eq fuel (copied base (base + row) upper s.memory) enough,
          ◌>>=◌,
          memory-eq,
        )
        refl

  abbrev pushed : Screen
  pushed = record s { memory = pushed_up s.context s.memory }

  abbrev bottom : ℕ
  bottom = s.context.screen_height - 1

  last_row-eq : last_row s ≡ bottom
  last_row-eq = let lo = valid.has_row in let hi = valid.height_fits in omega arith

  -- On a screen with a row whose rows the memory routines can move, `internalVgaPushUp` returns
  -- with the rows pushed up and, if the cursor is enabled, with the cursor placed and an empty
  -- entry stored at the start of the last row.
  pub internal_vga_push_up_lem :
      (fuel : ℕ)
      → upper + row < 4 * fuel
      → internal_vga_push_up fuel s
        ≡ some (
            if s.context.cursor_enabled
            then put_entry s.context.highlight s.context.background 0 0 bottom
                (place_cursor 0 bottom pushed)
            else pushed)
  unfolding internal_vga_push_up vga_move_cursor place_cursor
  internal_vga_push_up_lem zero enough = absurd (omega arith)
  internal_vga_push_up_lem (suc fuel) enough =
      rw (scroll_lem (suc fuel) enough, ◌>>=◌, last_row-eq) (cursor s.context.cursor_enabled)
    where
      cursor :
          (enabled : Bool)
          → Path
              (Option Screen)
              (if not enabled
                then some pushed
                else vga_entry
                    (suc fuel)
                    s.context.highlight
                    s.context.background
                    0
                    0
                    bottom
                    (place_cursor 0 bottom pushed))
              (some (
                if enabled
                then put_entry s.context.highlight s.context.background 0 0 bottom
                    (place_cursor 0 bottom pushed)
                else pushed))
      cursor false = refl
      cursor true =
          vga_entry-inside fuel s.context.highlight s.context.background 0 0 bottom
            (place_cursor 0 bottom pushed) (let lo = valid.has_row in omega arith)
