-- ===== src/Print/Tests.antt =====
-- Printing with functions that record what they are called with.
use feral.Base.{
  ℕ, ◌-◌, ◌≡◌, ◌≢◌, ◌<◌, some, List, [], ◌∷◌, ◌++◌, refl, arith, ltb, if◌then◌else◌, get_or,
}
use feral.Base.Fault.{◌>>=◌}
use feral.Memory.{Bytes}
use feral.Status.{Status}
use feral.Strings.{IsLength, char_at}
use feral.Print.{
  KrnlFirmwareFunctions, literal, repeat_vga, convert, print_plain, fmt_round, fmt_loop,
  ki_print_fmt,
}
use feral.Print.Pieces.{Op, Piece, ShownAll, perform_all}
use feral.Print.Format.{format_of, ki_print_fmt_lem}

abbrev recorder : KrnlFirmwareFunctions (List Op)
recorder = record {
  put_char = λ c s. some (s ++ (Op.put c ∷ []));
  println = λ m p n s. some (s ++ (Op.line ∷ []));
  backspace = λ s. some s;
  vga_put_char = λ c s. some (s ++ (Op.vga c ∷ []));
}

abbrev pieces : List Piece
pieces =
    Piece.plain b'v'
    ∷ Piece.unsigned 42
    ∷ Piece.percent
    ∷ Piece.repeated b'0' b'3'
    ∷ Piece.text 2000 2
    ∷ Piece.newline
    ∷ []

abbrev memory : Bytes
memory a =
    if ltb a 2000
    then get_or (format_of pieces) (a - 1000) 0
    else get_or (b'o' ∷ b'k' ∷ []) (a - 2000) 0

two_letters : IsLength (char_at memory 2000) 2
two_letters = record { ends = refl; before = letter }
  where
    letter : (i : ℕ) → i < 2 → char_at memory 2000 i ≢ 0
    letter i h = ground arith

ki_print_fmt_lem_example :
    (ops : List Op) × ShownAll memory pieces ops
    × (ki_print_fmt recorder 30 500 30 memory 1000 (42 ∷ 2000 ∷ []) []
        ≡ (perform_all recorder 500 ops [] >>= (λ s. some (Status.success, s))))
ki_print_fmt_lem_example =
    ki_print_fmt_lem recorder 30 500 memory 1000 (omega arith) (omega arith) pieces 30 []
      (
        (omega arith, omega arith, omega arith),
        (
          omega arith,
          (
            tt,
            (
              (omega arith, omega arith, omega arith),
              ((omega arith, two_letters, omega arith, omega arith), (tt, tt)),
            ),
          ),
        ),
      )
      (
        refl,
        (refl, (refl, (refl, (refl, (refl, (refl, (refl, (refl, (refl, (refl, (refl, tt))))))))))),
      )
      (omega arith) (omega arith)

-- The format of the version number, `%01u`: the letter is printed and the number is not.
version_number :
    ki_print_fmt recorder 30 500 30 (literal (b'%' ∷ b'0' ∷ b'1' ∷ b'u' ∷ 0 ∷ [])) 0 (7 ∷ []) []
    ≡ some (Status.success, Op.vga b'0' ∷ Op.put b'u' ∷ [])
unfolding ki_print_fmt fmt_loop fmt_round convert repeat_vga print_plain
version_number = refl
