-- ===== src/Multiboot.antt =====
-- The tags of the multiboot information in `kern_init` of kern/entry/mb2entry.c, read from a memory
-- that handling them does not change. `none` is a loop that ran out of fuel, or a trap.
pub mod Tags
pub mod Letters
pub mod Screen
pub mod Row
pub mod Entry
pub mod Ready
mod Tests
use feral.Base.{
  ℕ, zero, suc, ◌+◌, ◌*◌, ◌/◌, ◌%◌, ◌^◌, Bool, true, false, not, ◌&&◌, ◌||◌, Option, none, some,
  List, [], ◌∷◌, ◌==◌, if◌then◌else◌, u16, u32, u64, bit_and, ◌>>>◌, length,
}
use feral.Base.Fault.{◌>>=◌}
use feral.Memory.{Bytes, load64}
use feral.Status.{Status, is}
use feral.Strings.{ki_get_string_length}
use feral.Boot.Elf.{load32}
use feral.Startup.{MultibootMmapEntry, BootMemoryRange, handle_memory}

-- The locals of `kern_init`, and what it sets in `BootInfo` and `MaxAddress`.
pub record BootState : Type 0 where
  pub command_line : ℕ
  pub bootloader_name : ℕ
  pub framebuffer : ℕ
  pub framebuffer_bpp : ℕ
  pub framebuffer_width : ℕ
  pub framebuffer_height : ℕ
  pub framebuffer_text_only : Bool
  pub num_displays : ℕ
  pub memory_ranges : List BootMemoryRange
  pub max_address : ℕ

module _ (m : Bytes) (tag : ℕ) where
  -- The fields that every tag has.
  abbrev pub tag_type : ℕ
  tag_type = load32 m tag

  abbrev pub tag_size : ℕ
  tag_size = load32 m (tag + 4)

  -- The string of a string tag.
  abbrev pub tag_string : ℕ
  tag_string = u64 (tag + 8)

  -- A memory map: the size of an entry, and the entries.
  abbrev pub entry_size : ℕ
  entry_size = load32 m (tag + 8)

  abbrev pub entries : ℕ → MultibootMmapEntry
  entries index = record {
    addr = load64 m (tag + 16 + 24 * index);
    len = load64 m (tag + 16 + 24 * index + 8);
    type = load32 m (tag + 16 + 24 * index + 16);
  }

  -- The next tag, at the next multiple of 8.
  unfoldable pub next_tag : ℕ
  next_tag = u64 (tag + u32 (tag_size + 7) / 8 * 8)

abbrev pub with_command_line : ℕ → BootState → BootState
with_command_line str s = record s { command_line = str }

abbrev pub with_bootloader_name : ℕ → BootState → BootState
with_bootloader_name str s = record s { bootloader_name = str }

-- A string is taken if its length is not 0.
unfoldable pub take_string : ℕ → Bytes → ℕ → BootState → BootState → Option BootState
take_string bound m str taken s = do
  (status, len) ← ki_get_string_length bound m str 0
  some (if is status Status.success && not (len == 0) then taken else s)

-- `type` of the tag is compared where `framebuffer_type` is meant.
unfoldable pub take_framebuffer : Bytes → ℕ → BootState → BootState
take_framebuffer m tag s = record s {
  framebuffer = load64 m (tag + 8);
  framebuffer_bpp = m (tag + 28);
  framebuffer_height = load32 m (tag + 24);
  framebuffer_width = load32 m (tag + 20);
  framebuffer_text_only = tag_type m tag == 2;
  num_displays = 1;
}

unfoldable pub handle_tag : ℕ → Bytes → ℕ → BootState → Option BootState
handle_tag bound m tag s =
    let type = u16 (tag_type m tag) in
    if type == 1
    then take_string bound m (tag_string m tag) (with_command_line (tag_string m tag) s) s
    else if type == 2
    then take_string bound m (tag_string m tag) (with_bootloader_name (tag_string m tag) s) s
    else if type == 6
    then (do
      (ranges, highest) ←
          handle_memory (tag_size m tag) (entry_size m tag) (entries m tag) s.max_address
      some (record s { memory_ranges = ranges; max_address = highest }))
    else if type == 8
    then some (take_framebuffer m tag s)
    else some s

-- The loop over the tags.
unfoldable pub walk_tags : ℕ → ℕ → Bytes → ℕ → BootState → Option BootState
walk_tags zero bound m tag s = none
walk_tags (suc fuel) bound m tag s =
    if tag_type m tag == 0
    then some s
    else (do s' ← handle_tag bound m tag s; walk_tags fuel bound m (next_tag m tag) s')

-- `MBINFO + 8` is done in 32 bits.
unfoldable pub read_tags : ℕ → ℕ → Bytes → ℕ → BootState → Option BootState
read_tags fuel bound m mb_info s = walk_tags fuel bound m (u32 (mb_info + 8)) s

-- The family of the processor from what `cpuid_family_number` returns.
unfoldable pub actual_family : ℕ → ℕ
actual_family family_stuff =
    let family = bit_and (family_stuff >>> 8) 15 in
    let extended =
      if family == 15 then u32 (family + bit_and (family_stuff >>> 20) 0x0FFFFFFF) else family in
    if family == 6 || family == 15 then u32 (extended + bit_and (family_stuff >>> 16) 4) else family
