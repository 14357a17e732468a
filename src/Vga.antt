-- ===== src/Vga.antt =====
-- The text screen of kern/arch/x86_64/vga/vga_driver.c: `CurVgaContext`, the memory that it draws
-- in and the ports that it writes. A function takes fuel for its loops and for the calls that
-- `internalVgaPushUp`, `VgaMoveCursor` and `VgaEntry` make of each other; `none` is no return. The
-- bytes that `x86_io_stall` writes to port 0x80 are not in the trace.
pub mod Entry
pub mod Items
pub mod Blank
pub mod Lines
pub mod Scroll
mod Tests
use feral.Base.{
  ℕ, zero, suc, ◌+◌, ◌*◌, Bool, true, false, not, ◌&&◌, Option, none, some, ltb, leb, if◌then◌else◌,
  u8, u16, u32, u64, sub64, bit_and, bit_or, ◌<<<◌, ◌>>>◌,
}
use feral.Base.Fault.{◌>>=◌}
use feral.Ports.{Trace, x86outb, Devices}
use feral.Paging.{kern_phys_to_virt}
use feral.Memory.{Bytes, write, ki_copy_memory, ki_set_memory_bytes}

pub record VgaContext : Type 0 where
  pub framebuffer : ℕ
  pub swapped_buffer : ℕ
  pub screen_width : ℕ
  pub screen_height : ℕ
  pub bpp : ℕ
  pub background : ℕ
  pub foreground : ℕ
  pub highlight : ℕ
  pub current_row : ℕ
  pub current_col : ℕ
  pub text_mode : Bool
  pub following_input : Bool
  pub cursor_enabled : Bool

-- The context, the memory that its buffers lie in, and the writes to ports.
pub record Screen : Type 0 where
  pub context : VgaContext
  pub memory : Bytes
  pub trace : Trace

abbrev pub vga_black : ℕ
vga_black = 0

abbrev pub vga_blue : ℕ
vga_blue = 1

abbrev pub vga_light_grey : ℕ
vga_light_grey = 7

abbrev pub vga_light_brown : ℕ
vga_light_brown = 14

abbrev pub vga_white : ℕ
vga_white = 15

abbrev pub outb : ℕ → ℕ → Screen → Screen
outb port val s = record s { trace = x86outb port val s.trace }

-- `ScreenHeight - 1` as a `DWORD`.
abbrev pub last_row : Screen → ℕ
last_row s = u32 (sub64 s.context.screen_height 1)

unfoldable pub vga_set_current_position : ℕ → ℕ → Screen → Screen
vga_set_current_position x y s = record s {
  context = record s.context { current_row = u16 y; current_col = u16 x };
}

-- `X` and `Y`.
unfoldable pub vga_get_current_position : Screen → ℕ × ℕ
vga_get_current_position s = (s.context.current_col, s.context.current_row)

-- `Width` and `Height`.
unfoldable pub vga_get_framebuffer_dimensions : Screen → ℕ × ℕ
vga_get_framebuffer_dimensions s = (s.context.screen_width, s.context.screen_height)

unfoldable pub vga_trace_characters : Bool → Screen → Screen
vga_trace_characters value s = record s { context = record s.context { following_input = value } }

module _ (devices : Devices) where
  -- What it returns, and the screen.
  unfoldable pub vga_prepare_environment : ℕ → ℕ → ℕ → ℕ → Bool → Screen → ℕ × Screen
  vga_prepare_environment buffer bits width height text_only s =
      let miscreg = u8 (devices s.trace 0x3CC) in
      let s' = outb 0x03C2 (bit_or miscreg 0xE7) s in
      (
        miscreg,
        record s' {
          context = record s'.context {
            bpp = u16 bits;
            framebuffer = kern_phys_to_virt buffer;
            screen_width = u16 width;
            screen_height = u16 height;
            background = vga_black;
            foreground = vga_white;
            highlight = vga_light_brown;
            text_mode = text_only;
            following_input = false;
            current_row = 0;
            current_col = 0;
            swapped_buffer = kern_phys_to_virt buffer;
          };
        },
      )

  unfoldable pub vga_set_cursor_enabled : Bool → Screen → Screen
  vga_set_cursor_enabled value s =
      let s₁ = outb 0x03D4 0x0A s in
      let s₂ = outb 0x03D5 (bit_or (bit_and (u8 (devices s₁.trace 0x03D5)) 0xC0) 0x00) s₁ in
      let s₃ = outb 0x03D4 0x0B s₂ in
      let s₄ = outb 0x03D5 (bit_or (bit_and (u8 (devices s₃.trace 0x3E0)) 0xE0) 0x0F) s₃ in
      let s' = if value then s₄ else outb 0x03D5 0x20 s₁ in
      record s' { context = record s'.context { cursor_enabled = value } }

-- One round of `VgaSwapBuffers` moves eight bytes.
abbrev pub swap_word : ℕ → ℕ → ℕ → Bytes → Bytes
swap_word to from offset m = λ a.
    if leb (to + 8 * offset) a && ltb a (to + 8 * offset + 8)
    then m (from + 8 * offset + sub64 a (to + 8 * offset))
    else m a

unfoldable pub swap_words : ℕ → ℕ → ℕ → ℕ → Bytes → Bytes
swap_words to from zero offset m = m
swap_words to from (suc left) offset m =
    swap_words to from left (offset + 1) (swap_word to from offset m)

unfoldable pub vga_swap_buffers : Screen → Screen
unfolding swap_words
vga_swap_buffers s = record s {
  memory =
      swap_words s.context.framebuffer s.context.swapped_buffer
        (s.context.screen_width * s.context.screen_height >>> 2) 0 s.memory;
}

-- What `VgaEntry` stores at a position that is on the screen.
unfoldable pub put_entry : ℕ → ℕ → ℕ → ℕ → ℕ → Screen → Screen
put_entry foreground background letter pos_x pos_y s =
    let color = u16 (bit_or (foreground <<< 0) (background <<< 4)) in
    let offset = u16 (2 * (pos_x + pos_y * s.context.screen_width)) in
    let base = s.context.swapped_buffer in
    record s {
      memory =
          write (write s.memory (base + (offset + 0)) (u8 letter)) (base + (offset + 1)) (u8 color);
      context = record s.context { current_col = u16 pos_x };
    }

-- The two memory calls of `internalVgaPushUp`, whose status is not looked at.
unfoldable pub scroll : ℕ → Screen → Option Screen
scroll fuel s = do
  let row_size = u16 (2 * s.context.screen_width)
  let above = sub64 s.context.screen_height 1
  let dst = s.context.swapped_buffer
  let amt = u64 (2 * s.context.screen_width * above)
  (status, m) ← ki_copy_memory fuel s.memory dst (dst + row_size) amt
  (status', m') ← ki_set_memory_bytes fuel m (u64 (dst + above * row_size)) 0 row_size
  some (record s { memory = m' })

-- The writes of `VgaMoveCursor` to the ports.
unfoldable pub place_cursor : ℕ → ℕ → Screen → Screen
place_cursor pos_x pos_y s =
    let final_pos = u16 (pos_y * s.context.screen_width + pos_x) in
    outb 0x03D5 (final_pos >>> 8) (outb 0x03D4 0x0E (outb 0x03D5 final_pos (outb 0x03D4 0x0F s)))

-- `VgaEntry`; the calls of `internalVgaPushUp` and `VgaMoveCursor` on the way are written out.
unfoldable pub vga_entry : ℕ → ℕ → ℕ → ℕ → ℕ → ℕ → Screen → Option Screen
vga_entry zero foreground background letter pos_x pos_y s = none
vga_entry (suc fuel) foreground background letter pos_x pos_y s =
    let moved = λ (t : Screen).
      vga_entry fuel t.context.highlight t.context.background 0 0 (last_row t)
        (place_cursor 0 (last_row t) t) in
    do
      s' ←
          if leb s.context.screen_height pos_y
          then (do t ← scroll fuel s; if t.context.cursor_enabled then moved t else some t)
          else some s
      some (put_entry foreground background letter pos_x pos_y s')

unfoldable pub vga_move_cursor : ℕ → ℕ → ℕ → Screen → Option Screen
unfolding vga_entry
vga_move_cursor fuel pos_x pos_y s =
    if not s.context.cursor_enabled
    then some s
    else vga_entry fuel s.context.highlight s.context.background 0 pos_x pos_y
        (place_cursor pos_x pos_y s)

unfoldable pub internal_vga_push_up : ℕ → Screen → Option Screen
unfolding scroll vga_move_cursor
internal_vga_push_up fuel s = do t ← scroll fuel s; vga_move_cursor fuel 0 (last_row t) t
