-- ===== src/EfiEntry/Tests.antt =====
-- The entry from UEFI with one range of memory, and a screen that lists what is put on it.
use feral.Base.{ℕ, ◌≡◌, ◌≢◌, Option, none, some, List, [], ◌∷◌, ◌++◌, refl, arith, false}
use feral.Base.Fault.{◌>>=◌}
use feral.Memory.{Bytes}
use feral.Status.{Status}
use feral.Startup.{MmStructureType}
use feral.Print.{ki_print_fmt, ki_backspace, literal}
use feral.Print.Pieces.{Op, Piece, ShownAll}
use feral.EfiEntry.{EfiBootInfo, kern_init, char_map_at}
use feral.EfiEntry.Glyphs.{handed, letter_w, rows_as_word, char_map_at-traps}
use feral.Charmap.{default_char_map, numerals}
use feral.Paging.Mmu.{is_canonical}
use feral.EfiEntry.Silent.{digits_of, put_digits, table, ki_print_fmt-silent}

abbrev recorder : ℕ → List ℕ → Option (List ℕ)
recorder c s = some (s ++ (c ∷ []))

abbrev one_range : EfiBootInfo
one_range = record {
  num_displays = 0;
  num_memory_ranges = 1;
  memory_ranges =
      λ i. record { usage = MmStructureType.free_area_range; start = 0; end = 0x800000 };
  framebuffer_p_addrs = λ i. 0;
}

char_map_at-traps_example :
    (char_map_at (handed recorder one_range) 3 ≡ 0xF8040202FE0204F8)
    × (◌≢◌ {A = ℕ} 3 letter_w → is_canonical (char_map_at (handed recorder one_range) 3) ≡ false)
unfolding kern_init rows_as_word default_char_map numerals
char_map_at-traps_example = char_map_at-traps (List ℕ) recorder one_range 3 (omega arith)

-- `a%02`: a letter, and a digit as often as the character behind it says.
abbrev pieces : List Piece
pieces = Piece.plain b'a' ∷ Piece.repeated b'0' b'2' ∷ []

abbrev memory : Bytes
memory = literal (b'a' ∷ b'%' ∷ b'0' ∷ b'2' ∷ 0 ∷ [])

ki_print_fmt-silent_example :
    (ops : List Op) × ShownAll memory pieces ops
    × (ki_print_fmt (table (List ℕ) recorder one_range) 30 500 30 memory 0 [] [] ≡ (
        put_digits (List ℕ) recorder one_range (digits_of ops) []
        >>= (λ s. some (Status.success, s))))
    × (ki_backspace (table (List ℕ) recorder one_range) 30 500 [] ≡ none)
ki_print_fmt-silent_example =
    ki_print_fmt-silent (List ℕ) recorder one_range 30 500 memory 0 (omega arith) (omega arith)
      pieces 30 []
      ((omega arith, omega arith, omega arith), ((omega arith, omega arith, omega arith), tt))
      (refl, (refl, (refl, (refl, (refl, tt))))) (omega arith) (omega arith)
