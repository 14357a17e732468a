-- ===== src/EfiEntry/Silent.antt =====
-- Printing over the table of kern/entry/efientry.c, whose functions do nothing.
use feral.Base.{
  ℕ, ◌+◌, ◌^◌, ◌≤◌, ◌<◌, ◌≡◌, ◌≢◌, Option, none, some, List, [], ◌∷◌, refl, ap, ◌∙◌, length,
}
use feral.Base.Fault.{◌>>=◌}
use feral.Memory.{Bytes}
use feral.Status.{Status}
use feral.Print.{KrnlFirmwareFunctions, ki_print_fmt, ki_backspace}
use feral.Print.Pieces.{Op, Piece, IsPiece, All, ShownAll, Holds, passed_all, perform_all}
use feral.Print.Format.{format_of, ki_print_fmt_lem}
use feral.EfiEntry.{EfiBootInfo, efi_functions, kern_init, efi_put_char, efi_println}

-- The digits that are repeated on the screen.
abbrev pub digits_of : List Op → List ℕ
digits_of [] = []
digits_of (Op.put c ∷ ops) = digits_of ops
digits_of (Op.vga c ∷ ops) = c ∷ digits_of ops
digits_of (Op.line ∷ ops) = digits_of ops

module _ (S : Type 0) (vga : ℕ → S → Option S) (boot_info : EfiBootInfo) where
  abbrev pub put_digits : List ℕ → S → Option S
  put_digits [] s = some s
  put_digits (c ∷ cs) s = vga c s >>= put_digits cs

  abbrev pub table : KrnlFirmwareFunctions S
  table = (kern_init vga boot_info).env_block.function_table

  only_digits :
      (place : ℕ) (ops : List Op) (s : S)
      → perform_all (efi_functions vga) place ops s ≡ put_digits (digits_of ops) s
  unfolding efi_put_char efi_println
  only_digits place [] s = refl
  only_digits place (Op.put c ∷ ops) s = only_digits place ops s
  only_digits place (Op.line ∷ ops) s = only_digits place ops s
  only_digits place (Op.vga c ∷ ops) s =
      elim (vga c s)
        as (λ o.
          (o >>= perform_all (efi_functions vga) place ops) ≡ (o >>= put_digits (digits_of ops))) [
            | none ↦ refl
            | some s' ↦ only_digits place ops s'
          ]

  -- Over the table that `kern_init` of the UEFI entry hands over, for a format string in memory
  -- that is made of pieces, with the arguments that the pieces take, fuel for the length of the
  -- format and for the texts and above 20 for the numbers, and a buffer that does not lie at 0,
  -- `KiPrintFmt` puts only the repeated digits on the screen, in order, and succeeds if they can
  -- be put; `KiBackspace` stops.
  pub ki_print_fmt-silent :
      (bound place : ℕ) (m : Bytes) (fmt : ℕ)
      → place ≢ 0
      → 20 < bound
      → (ps : List Piece) (fuel : ℕ) (s : S) → All (IsPiece m bound) ps
      → Holds m fmt (format_of ps)
      → length (format_of ps) + 3 < 2 ^ 64
      → length (format_of ps) ≤ fuel
      → (ops : List Op) × ShownAll m ps ops
        × (ki_print_fmt table bound place fuel m fmt (passed_all ps) s
            ≡ (put_digits (digits_of ops) s >>= (λ s'. some (Status.success, s'))))
        × (ki_backspace table bound place s ≡ none)
  unfolding kern_init ki_backspace
  ki_print_fmt-silent bound place m fmt given enough ps fuel s pieces holds small fits =
      let (ops, shown, runs) =
        ki_print_fmt_lem (efi_functions vga) bound place m fmt given enough ps fuel s pieces holds
          small fits in
      (
        ops,
        shown,
        runs ∙ ap (λ o. o >>= (λ s'. some (Status.success, s'))) (only_digits place ops s),
        refl,
      )
