-- ===== src/Stop/Tests.antt =====
-- A stop error over functions that record what they are called with.
use feral.Base.{
  ℕ, ◌-◌, ◌≡◌, ◌≢◌, ◌<◌, Option, some, List, [], ◌∷◌, ◌++◌, refl, arith, ltb, if◌then◌else◌, get_or,
}
use feral.Base.Fault.{◌>>=◌}
use feral.Memory.{Bytes}
use feral.Status.{Status, code}
use feral.Strings.{IsLength, char_at}
use feral.Print.{KrnlFirmwareFunctions}
use feral.Print.Pieces.{Op, Piece, ShownAll, perform_all}
use feral.Print.Format.{format_of}
use feral.Stop.{Stopped, StopTexts, Registers, ki_stop_error}
use feral.Stop.Report.{IsFormat, IsReport, ki_stop_error-hangs}

abbrev recorder : KrnlFirmwareFunctions (List Op)
recorder = record {
  put_char = λ c s. some (s ++ (Op.put c ∷ []));
  println = λ m p n s. some (s ++ (Op.line ∷ []));
  backspace = λ s. some s;
  vga_put_char = λ c s. some (s ++ (Op.vga c ∷ []));
}

abbrev first_time_pieces : List Piece
first_time_pieces = Piece.plain b'I' ∷ Piece.plain b'f' ∷ Piece.newline ∷ []

abbrev persists_pieces : List Piece
persists_pieces = Piece.plain b'N' ∷ Piece.plain b'o' ∷ Piece.newline ∷ []

abbrev bug_check_pieces : List Piece
bug_check_pieces =
    Piece.plain b'0'
    ∷ Piece.plain b'x'
    ∷ Piece.hexadecimal (code Status.error)
    ∷ Piece.plain b':'
    ∷ Piece.text 1700 2
    ∷ Piece.newline
    ∷ []

abbrev first_registers_pieces : List Piece
first_registers_pieces =
    Piece.plain b'A'
    ∷ Piece.hexadecimal 1
    ∷ Piece.tab
    ∷ Piece.plain b'B'
    ∷ Piece.hexadecimal 2
    ∷ Piece.tab
    ∷ Piece.plain b'C'
    ∷ Piece.hexadecimal 3
    ∷ Piece.newline
    ∷ []

abbrev second_registers_pieces : List Piece
second_registers_pieces =
    Piece.plain b'D'
    ∷ Piece.hexadecimal 4
    ∷ Piece.tab
    ∷ Piece.plain b'S'
    ∷ Piece.hexadecimal 5
    ∷ Piece.tab
    ∷ Piece.plain b'B'
    ∷ Piece.hexadecimal 255
    ∷ Piece.newline
    ∷ []

abbrev control_register_pieces : List Piece
control_register_pieces = Piece.plain b'R' ∷ Piece.hexadecimal 7 ∷ Piece.newline ∷ []

abbrev texts : StopTexts
texts = record {
  error_msg = 1000;
  first_time = 1100;
  empty = 1800;
  persists = 1200;
  bug_check = 1300;
  first_registers = 1400;
  second_registers = 1500;
  control_register = 1600;
  dividing = 1800;
  unhandled = 1800;
  literal_at = λ name. 1700;
}

abbrev registers : Registers
registers = record { a = 1; b = 2; c = 3; d = 4; sp = 5; bp = 255; cr3 = 7 }

abbrev memory : Bytes
memory a =
    if ltb a 1100
    then get_or (b'A' ∷ b'!' ∷ []) (a - 1000) 0
    else if ltb a 1200
    then get_or (format_of first_time_pieces) (a - 1100) 0
    else if ltb a 1300
    then get_or (format_of persists_pieces) (a - 1200) 0
    else if ltb a 1400
    then get_or (format_of bug_check_pieces) (a - 1300) 0
    else if ltb a 1500
    then get_or (format_of first_registers_pieces) (a - 1400) 0
    else if ltb a 1600
    then get_or (format_of second_registers_pieces) (a - 1500) 0
    else if ltb a 1700
    then get_or (format_of control_register_pieces) (a - 1600) 0
    else get_or (b'o' ∷ b'k' ∷ []) (a - 1700) 0

message : IsLength (char_at memory 1000) 2
message = record { ends = refl; before = letter }
  where
    letter : (i : ℕ) → i < 2 → char_at memory 1000 i ≢ 0
    letter i h = ground arith

two_letters : IsLength (char_at memory 1700) 2
two_letters = record { ends = refl; before = letter }
  where
    letter : (i : ℕ) → i < 2 → char_at memory 1700 i ≢ 0
    letter i h = ground arith

nothing : IsLength (char_at memory 1800) 0
nothing = record { ends = refl; before = λ i h. absurd (omega arith) }

first_time-IsFormat : IsFormat memory 30 30 1100 [] first_time_pieces
first_time-IsFormat = record {
  pieces = (
    (omega arith, omega arith, omega arith),
    ((omega arith, omega arith, omega arith), (tt, tt)),
  );
  holds = (refl, (refl, (refl, (refl, tt))));
  small = omega arith;
  enough = omega arith;
  takes = refl;
}

persists-IsFormat : IsFormat memory 30 30 1200 [] persists_pieces
persists-IsFormat = record {
  pieces = (
    (omega arith, omega arith, omega arith),
    ((omega arith, omega arith, omega arith), (tt, tt)),
  );
  holds = (refl, (refl, (refl, (refl, tt))));
  small = omega arith;
  enough = omega arith;
  takes = refl;
}

bug_check-IsFormat : IsFormat memory 30 30 1300 (code Status.error ∷ 1700 ∷ []) bug_check_pieces
unfolding code
bug_check-IsFormat = record {
  pieces = (
    (omega arith, omega arith, omega arith),
    (
      (omega arith, omega arith, omega arith),
      (
        omega arith,
        (
          (omega arith, omega arith, omega arith),
          ((omega arith, two_letters, omega arith, omega arith), (tt, tt)),
        ),
      ),
    ),
  );
  holds = (refl, (refl, (refl, (refl, (refl, (refl, (refl, (refl, (refl, tt)))))))));
  small = omega arith;
  enough = omega arith;
  takes = refl;
}

first_registers-IsFormat : IsFormat memory 30 30 1400 (1 ∷ 2 ∷ 3 ∷ []) first_registers_pieces
first_registers-IsFormat = record {
  pieces = (
    (omega arith, omega arith, omega arith),
    (
      omega arith,
      (
        tt,
        (
          (omega arith, omega arith, omega arith),
          (omega arith, (tt, ((omega arith, omega arith, omega arith), (omega arith, (tt, tt))))),
        ),
      ),
    ),
  );
  holds = (
    refl,
    (
      refl,
      (refl, (refl, (refl, (refl, (refl, (refl, (refl, (refl, (refl, (refl, (refl, tt))))))))))),
    ),
  );
  small = omega arith;
  enough = omega arith;
  takes = refl;
}

second_registers-IsFormat : IsFormat memory 30 30 1500 (4 ∷ 5 ∷ 255 ∷ []) second_registers_pieces
second_registers-IsFormat = record {
  pieces = (
    (omega arith, omega arith, omega arith),
    (
      omega arith,
      (
        tt,
        (
          (omega arith, omega arith, omega arith),
          (omega arith, (tt, ((omega arith, omega arith, omega arith), (omega arith, (tt, tt))))),
        ),
      ),
    ),
  );
  holds = (
    refl,
    (
      refl,
      (refl, (refl, (refl, (refl, (refl, (refl, (refl, (refl, (refl, (refl, (refl, tt))))))))))),
    ),
  );
  small = omega arith;
  enough = omega arith;
  takes = refl;
}

control_register-IsFormat : IsFormat memory 30 30 1600 (7 ∷ []) control_register_pieces
control_register-IsFormat = record {
  pieces = ((omega arith, omega arith, omega arith), (omega arith, (tt, tt)));
  holds = (refl, (refl, (refl, (refl, (refl, tt)))));
  small = omega arith;
  enough = omega arith;
  takes = refl;
}

report :
    IsReport memory 30 30 texts registers Status.error first_time_pieces persists_pieces
      bug_check_pieces first_registers_pieces second_registers_pieces control_register_pieces
report = record {
  first_time = first_time-IsFormat;
  persists = persists-IsFormat;
  bug_check = bug_check-IsFormat;
  first_registers = first_registers-IsFormat;
  second_registers = second_registers-IsFormat;
  control_register = control_register-IsFormat;
}

ki_stop_error-hangs_example :
    (o₁ o₂ o₃ o₄ o₅ o₆ : List Op) × ShownAll memory first_time_pieces o₁
    × ShownAll memory persists_pieces o₂
    × ShownAll memory bug_check_pieces o₃
    × ShownAll memory first_registers_pieces o₄
    × ShownAll memory second_registers_pieces o₅
    × ShownAll memory control_register_pieces o₆
    × ((blank_screen : List Op → Option (List Op))
          (vga_println : ℕ → ℕ → List Op → Option (List Op)) (s : List Op)
        → ki_stop_error recorder 30 500 30 memory texts blank_screen vga_println registers
            Status.error s
          ≡ (do
            s₁ ← blank_screen s
            s₂ ← vga_println 1000 2 s₁
            s₃ ← perform_all recorder 500 o₁ s₂
            s₄ ← some (s₃ ++ (Op.line ∷ []))
            s₅ ← perform_all recorder 500 o₂ s₄
            s₆ ← perform_all recorder 500 o₃ s₅
            s₇ ← perform_all recorder 500 o₄ s₆
            s₈ ← perform_all recorder 500 o₅ s₇
            s₉ ← perform_all recorder 500 o₆ s₈
            some (Stopped.hangs s₉)))
ki_stop_error-hangs_example =
    ki_stop_error-hangs recorder 30 500 30 memory texts registers Status.error 2 (omega arith)
      (omega arith) (omega arith) message (omega arith) (omega arith) (omega arith) nothing report
