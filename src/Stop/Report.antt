-- ===== src/Stop/Report.antt =====
-- What `KiStopError` of sec/sec.c shows before it hangs.
use feral.Base.{
  ℕ, ◌+◌, ◌^◌, ◌≤◌, ◌<◌, ◌≡◌, ◌≢◌, Option, some, List, [], ◌∷◌, refl, ap, sym, ◌∙◌, arith, length,
  fun_ext,
}
use feral.Base.Fault.{◌>>=◌}
use feral.Memory.{Bytes}
use feral.Status.{Status, is, code, ki_get_error_type}
use feral.Strings.{char_at, IsLength, ki_get_string_length_lem}
use feral.Print.{KrnlFirmwareFunctions, ki_print_fmt, ki_print_line}
use feral.Print.Pieces.{Op, Piece, IsPiece, All, ShownAll, Holds, passed_all, perform_all}
use feral.Print.Numerals.{drop_status}
use feral.Print.Format.{format_of, ki_print_fmt-always}
use feral.Stop.{Stopped, StopTexts, Registers, print_fmt, print_line, ki_stop_error}

-- A format string in memory that is made of pieces, which take these arguments.
pub record IsFormat (m : Bytes) (bound fuel f : ℕ) (args : List ℕ) (ps : List Piece) : Type 0 where
  pub pieces : All (IsPiece m bound) ps
  pub holds : Holds m f (format_of ps)
  pub small : length (format_of ps) + 3 < 2 ^ 64
  pub enough : length (format_of ps) ≤ fuel
  pub takes : passed_all ps ≡ args

-- The six calls of `KiPrintFmt`, each with a format and with its arguments.
pub record IsReport (m : Bytes) (bound fuel : ℕ) (texts : StopTexts) (r : Registers)
    (status : Status) (p₁ p₂ p₃ p₄ p₅ p₆ : List Piece) : Type 0 where
  pub first_time : IsFormat m bound fuel texts.first_time [] p₁
  pub persists : IsFormat m bound fuel texts.persists [] p₂
  pub bug_check :
      IsFormat m bound fuel texts.bug_check
        (code status ∷ texts.literal_at (ki_get_error_type status) ∷ [])
        p₃
  pub first_registers : IsFormat m bound fuel texts.first_registers (r.a ∷ r.b ∷ r.c ∷ []) p₄
  pub second_registers : IsFormat m bound fuel texts.second_registers (r.d ∷ r.sp ∷ r.bp ∷ []) p₅
  pub control_register : IsFormat m bound fuel texts.control_register (r.cr3 ∷ []) p₆

module _ {ℓ} {S : Type ℓ} (functions : KrnlFirmwareFunctions S) (bound place fuel : ℕ) (m : Bytes)
    (texts : StopTexts) where
  -- A call of `KiPrintFmt` whose status nobody looks at.
  shows :
      {f : ℕ} {args : List ℕ} {ps : List Piece}
      → place ≢ 0
      → 20 < bound
      → IsFormat m bound fuel f args ps
      → (ops : List Op) × ShownAll m ps ops
        × (print_fmt functions bound place fuel m texts f args ≡ perform_all functions place ops)
  unfolding print_fmt
  shows {f} {args} {ps} given room format =
      let (ops, shown, runs) =
        ki_print_fmt-always functions bound place m f given room ps format.pieces format.holds
          format.small in
      (
        ops,
        shown,
        fun_ext λ s.
            ap (λ t. ki_print_fmt functions bound place fuel m f t s >>= (λ r. some (r.1)))
              (sym format.takes)
            ∙ ap (λ o. o >>= (λ r. some (r.1))) (runs fuel s format.enough)
            ∙ drop_status (perform_all functions place ops s),
      )

  -- An empty line: a call of `Println` with the empty string.
  empty_line :
      (string : ℕ)
      → string ≢ 0
      → IsLength (char_at m string) 0
      → 0 < bound
      → print_line functions bound place fuel m texts string ≡ functions.println m string 0
  unfolding print_line ki_print_line is
  empty_line string given ends room = fun_ext λ s.
      rw (ki_get_string_length_lem m string 0 0 bound given ends (omega arith) room)
        (drop_status (functions.println m string 0 s))

  -- For texts that are strings in memory, with formats that are made of pieces which take the
  -- arguments of the calls, a buffer that does not lie at 0 and fuel for the texts, `KiStopError`
  -- blanks the screen, prints the first line with its whole length, and calls the functions that
  -- print with what each format shows, in order and with an empty line behind the first, where a
  -- register or the number of the status is a numeral that reads back as it; when these functions
  -- return, it gets to its last loop.
  pub ki_stop_error-hangs :
      (r : Registers) (status : Status) (n : ℕ) {p₁ p₂ p₃ p₄ p₅ p₆ : List Piece}
      → place ≢ 0
      → 20 < bound
      → texts.error_msg ≢ 0
      → IsLength (char_at m texts.error_msg) n
      → n < 2 ^ 64
      → n < bound
      → texts.empty ≢ 0
      → IsLength (char_at m texts.empty) 0
      → IsReport m bound fuel texts r status p₁ p₂ p₃ p₄ p₅ p₆
      → (o₁ o₂ o₃ o₄ o₅ o₆ : List Op) × ShownAll m p₁ o₁
        × ShownAll m p₂ o₂
        × ShownAll m p₃ o₃
        × ShownAll m p₄ o₄
        × ShownAll m p₅ o₅
        × ShownAll m p₆ o₆
        × ((blank_screen : S → Option S) (vga_println : ℕ → ℕ → S → Option S) (s : S)
            → ki_stop_error functions bound place fuel m texts blank_screen vga_println r status s
              ≡ (do
                s₁ ← blank_screen s
                s₂ ← vga_println texts.error_msg n s₁
                s₃ ← perform_all functions place o₁ s₂
                s₄ ← functions.println m texts.empty 0 s₃
                s₅ ← perform_all functions place o₂ s₄
                s₆ ← perform_all functions place o₃ s₅
                s₇ ← perform_all functions place o₄ s₆
                s₈ ← perform_all functions place o₅ s₇
                s₉ ← perform_all functions place o₆ s₈
                some (Stopped.hangs s₉)))
  unfolding ki_stop_error
  ki_stop_error-hangs r status n given room msg ends small fits empty none_of report =
      let (o₁, shown₁, e₁) = shows given room report.first_time in
      let (o₂, shown₂, e₂) = shows given room report.persists in
      let (o₃, shown₃, e₃) = shows given room report.bug_check in
      let (o₄, shown₄, e₄) = shows given room report.first_registers in
      let (o₅, shown₅, e₅) = shows given room report.second_registers in
      let (o₆, shown₆, e₆) = shows given room report.control_register in
      (
        o₁,
        o₂,
        o₃,
        o₄,
        o₅,
        o₆,
        shown₁,
        shown₂,
        shown₃,
        shown₄,
        shown₅,
        shown₆,
        λ blank_screen vga_println s.
            rw
              (
                ki_get_string_length_lem m texts.error_msg n 0 bound msg ends small fits,
                empty_line texts.empty empty none_of (omega arith),
                e₁,
                e₂,
                e₃,
                e₄,
                e₅,
                e₆,
              )
              refl,
      )
