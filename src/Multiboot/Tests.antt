-- ===== src/Multiboot/Tests.antt =====
-- The tags that a boot loader could leave at 0x10000.
use feral.Base.{
  if◌then◌else◌, ◌==◌, ℕ, ◌-◌, ◌≡◌, ◌≢◌, ◌<◌, true, some, List, [], ◌∷◌, refl, arith, get_or,
}
use feral.Memory.{Bytes}
use feral.Strings.{char_at, IsLength}
use feral.Multiboot.{BootState, read_tags}
use feral.Vga.{Screen}
use feral.Status.{Status}
use feral.Print.{ki_print}
use feral.Multiboot.Entry.{Texts, ready_screen}
use feral.Multiboot.Ready.{handed_over, ready_screen-prints}
use feral.Multiboot.Row.{ki_print-row}
use feral.Multiboot.Letters.{at_column, cell}
use feral.Multiboot.Screen.{screen_functions}
use feral.Multiboot.Tags.{Meaning, Tag, Lie, all_asked, read_tags_lem}

-- A command line `a`, a frame buffer of 80 columns and 25 rows at 0xB8000, and the end.
abbrev tags : List ℕ
tags =
    1 ∷ 0 ∷ 0 ∷ 0 ∷ 10 ∷ 0 ∷ 0 ∷ 0 ∷ b'a' ∷ 0 ∷ 0 ∷ 0 ∷ 0 ∷ 0 ∷ 0 ∷ 0 ∷ 8 ∷ 0 ∷ 0 ∷ 0 ∷ 32 ∷ 0 ∷ 0
    ∷ 0 ∷ 0 ∷ 0x80 ∷ 0x0B ∷ 0 ∷ 0 ∷ 0 ∷ 0 ∷ 0 ∷ 160 ∷ 0 ∷ 0 ∷ 0 ∷ 80 ∷ 0 ∷ 0 ∷ 0 ∷ 25 ∷ 0 ∷ 0 ∷ 0
    ∷ 16 ∷ 2 ∷ 0 ∷ 0 ∷ []

abbrev memory : Bytes
memory a = get_or tags (a - 0x10008) 0

abbrev nothing : BootState
nothing = record {
  command_line = 1;
  bootloader_name = 2;
  framebuffer = 0;
  framebuffer_bpp = 0;
  framebuffer_width = 0;
  framebuffer_height = 0;
  framebuffer_text_only = true;
  num_displays = 0;
  memory_ranges = [];
  max_address = 0;
}

one_letter : IsLength (char_at memory 0x10010) 1
one_letter = record { ends = refl; before = letter }
  where
    letter : (i : ℕ) → i < 1 → char_at memory 0x10010 i ≢ 0
    letter i h = ground arith

abbrev said : List Tag
said = (0x10008, Meaning.command_line 1) ∷ (0x10018, Meaning.frame_buffer 0xB8000 80 25 16) ∷ []

said-Lie : Lie memory 10 0x10008 said
said-Lie = (
  refl,
  (refl, record { ends = one_letter; short = omega arith; in_bound = omega arith }),
  (
    0x10018,
    record {
      units = 2;
      is_next = refl;
      behind = omega arith;
      first = omega arith;
      in_reach = omega arith;
    },
    (
      refl,
      (refl, record { is_address = refl; is_width = refl; is_height = refl; is_bits = refl }),
      (
        0x10038,
        record {
          units = 4;
          is_next = refl;
          behind = omega arith;
          first = omega arith;
          in_reach = omega arith;
        },
        refl,
      ),
    ),
  ),
)

read_tags_lem_example : read_tags 10 10 memory 0x10000 nothing ≡ some (all_asked said nothing)
read_tags_lem_example =
    read_tags_lem memory 10 said 10 0x10000 nothing (omega arith) said-Lie (omega arith)

-- Four columns and three rows, with the position in the third column of the last row.
abbrev small : Screen
small = record {
  context = record {
    framebuffer = 0xB8000;
    swapped_buffer = 0xB8000;
    screen_width = 4;
    screen_height = 3;
    bpp = 16;
    background = 0;
    foreground = 15;
    highlight = 14;
    current_row = 2;
    current_col = 2;
    text_mode = true;
    following_input = true;
    cursor_enabled = true;
  };
  memory = λ a. a;
  trace = [];
}

-- The text `Hi` at address 1000, on the last row of a screen of 80 columns and 25 rows.
abbrev wide : Screen
wide = record small {
  context = record small.context {
    screen_width = 80;
    screen_height = 25;
    current_row = 24;
    current_col = 5;
  };
}

abbrev hi : Bytes
hi a = if a == 1000 then b'H' else if a == 1001 then b'i' else 0

hi-IsLength : IsLength (char_at hi 1000) 2
hi-IsLength = record { ends = refl; before = letter }
  where
    letter : (i : ℕ) → i < 2 → char_at hi 1000 i ≢ 0
    letter i h = ground arith

ki_print-row_example :
    (t : Screen) × (ki_print (screen_functions 7 (λ m str len s. some s)) 30 500 hi 1000 wide
      ≡ some (Status.success, t))
    × (t.context ≡ at_column 7 wide.context)
    × (t.memory (cell 6 wide.context) ≡ b'i')
    × (t.memory 0 ≡ 0)
ki_print-row_example =
    ki_print-row 7 (omega arith) (λ m str len s. some s) 30 500 hi 1000 2 (omega arith) hi-IsLength
      (omega arith) (omega arith) wide refl (omega arith) (omega arith) (omega arith) (omega arith)
      1 0 (omega arith) (omega arith)

abbrev no_texts : Texts
no_texts = record {
  starting = 0;
  resolution = 0;
  times = 0;
  found_bootloader = 0;
  found_command_line = 0;
  cpu_vendor_msg = 0;
  unsupported = 0;
  empty = 0;
  buf_begin_addr = 0;
  buf_end_addr = 0;
}

ready_screen-prints_example :
    (t : Screen) × (u : Screen) × (ready_screen 7 no_texts (λ trace port. 0) wide ≡ some t)
    × (ki_print (screen_functions 7 (λ m str len s. some s)) 30 500 hi 1000 t
        ≡ some (Status.success, u))
    × (u.context ≡ handed_over 2 wide.context)
    × (u.memory (cell 1 wide.context) ≡ b'i')
ready_screen-prints_example =
    ready_screen-prints 7 (omega arith) no_texts (λ trace port. 0) wide (omega arith)
      (λ m str len s. some s) 30 500 hi 1000 2 1 (omega arith) hi-IsLength (omega arith)
      (omega arith) (omega arith) (omega arith) (omega arith) (omega arith) (omega arith)
