-- ===== src/EfiEntry.antt =====
-- kern/entry/efientry.c: what the entry from UEFI hands to the kernel. The functions of the table
-- that it leaves at null stop; `VgaPutChar`, which is not in the table, is a parameter.
pub mod Glyphs
pub mod Silent
mod Tests
use feral.Base.{ℕ, zero, suc, ◌*◌, ◌/◌, ◌%◌, Option, none, some, List, [], ◌∷◌, get_or}
use feral.Memory.{Bytes, load64}
use feral.Startup.{BootMemoryRange}
use feral.Print.{KrnlFirmwareFunctions}
use feral.Charmap.{default_char_map}

-- The map points at pointers; `char_map` is the bytes from where it points on.
pub record KrnlCharMap : Type 0 where
  pub char_map_width : ℕ
  pub char_map_height : ℕ
  pub num_numerals : ℕ
  pub num_lower_case : ℕ
  pub num_upper_case : ℕ
  pub char_map : Bytes

-- `CharMap->CharMap[c]`, the pointer to a glyph that its type says is there.
abbrev pub char_map_at : KrnlCharMap → ℕ → ℕ
char_map_at map c = load64 map.char_map (8 * c)

abbrev pub glyph_at : List (List ℕ) → ℕ → List ℕ
glyph_at [] i = []
glyph_at (g ∷ gs) zero = g
glyph_at (g ∷ gs) (suc i) = glyph_at gs i

-- `DefaultCharMap`, an array of glyphs of eight bytes.
abbrev pub char_map_bytes : Bytes
char_map_bytes a = get_or (glyph_at default_char_map (a / 8)) (a % 8) 0

pub record KrnlEnvironmentBlock {ℓ} (S : Type ℓ) : Type ℓ where
  pub char_map : KrnlCharMap
  pub function_table : KrnlFirmwareFunctions S

-- The structure that the source declares as `SystemBootInfo`.
pub record EfiBootInfo : Type 0 where
  pub num_displays : ℕ
  pub framebuffer_p_addrs : ℕ → ℕ
  pub num_memory_ranges : ℕ
  pub memory_ranges : ℕ → BootMemoryRange

-- The globals that `kern_init` sets.
pub record EfiGlobals {ℓ} (S : Type ℓ) : Type ℓ where
  pub orig_num_memory_ranges : ℕ
  pub orig_memory_ranges : ℕ → BootMemoryRange
  pub orig_boot_info : EfiBootInfo
  pub env_block : KrnlEnvironmentBlock S

abbrev pub efi_char_map : KrnlCharMap
efi_char_map = record {
  char_map_width = 8;
  char_map_height = 8;
  num_numerals = 10;
  num_lower_case = 26;
  num_upper_case = 26;
  char_map = char_map_bytes;
}

module _ {ℓ} {S : Type ℓ} (vga_put_char : ℕ → S → Option S) where
  unfoldable pub efi_put_char : ℕ → S → Option S
  efi_put_char char s = some s

  unfoldable pub efi_println : ℕ → ℕ → S → Option S
  efi_println str strlen s = some s

  abbrev pub efi_functions : KrnlFirmwareFunctions S
  efi_functions = record {
    put_char = efi_put_char;
    println = λ m str strlen s. efi_println str strlen s;
    backspace = λ s. none;
    vga_put_char = vga_put_char;
  }

  -- Up to the call of `KiSystemStartup`, which gets the block.
  unfoldable pub kern_init : EfiBootInfo → EfiGlobals S
  kern_init boot_info = record {
    orig_num_memory_ranges = boot_info.num_memory_ranges;
    orig_memory_ranges = boot_info.memory_ranges;
    orig_boot_info = boot_info;
    env_block = record { char_map = efi_char_map; function_table = efi_functions };
  }
