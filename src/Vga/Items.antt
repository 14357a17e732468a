-- ===== src/Vga/Items.antt =====
-- `internalGetItem` and `internalSetItem` of kern/arch/x86_64/vga/vga_driver.c. The buffer is one of
-- bytes, so a byte is all that is read or stored; the index has no factor 2, other than `VgaEntry`.
use feral.Base.{ℕ, ◌+◌, ◌*◌, ◌≡◌, arith, u8}
use feral.Memory.{write}
use feral.Vga.{Screen}

-- `(Row * CurVgaContext->ScreenWidth) + Col`.
abbrev item_index : ℕ → ℕ → Screen → ℕ
item_index row col s = row * s.context.screen_width + col

unfoldable internal_get_item : ℕ → ℕ → Screen → ℕ
internal_get_item row col s = u8 (s.memory (s.context.swapped_buffer + item_index row col s))

unfoldable internal_set_item : ℕ → ℕ → ℕ → Screen → Screen
internal_set_item row col content s = record s {
  memory = write s.memory (s.context.swapped_buffer + item_index row col s) (u8 content);
}

-- What is read back is the low byte of what was stored: the color that the high byte holds is lost.
get_item-set_item :
    (row col content : ℕ) (s : Screen)
    → internal_get_item row col (internal_set_item row col content s) ≡ u8 content
unfolding internal_get_item internal_set_item
get_item-set_item row col content s = ground arith
