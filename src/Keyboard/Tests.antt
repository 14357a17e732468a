-- ===== src/Keyboard/Tests.antt =====
-- The theorems about the keyboard on a key without a name and on a letter.
use feral.Base.{◌≡◌, [], ◌∷◌, arith}
use feral.Keyboard.{Ps2KeyboardContext, Names, apply_shift_if_needed}
use feral.Keyboard.Modifiers.{apply_shift_if_needed-letter}

abbrev released_keys : Ps2KeyboardContext
released_keys = record { shift_modifier = 0; control_modifier = 0; alt_modifier = 0; caps_lock = 0 }

-- Scan code 0 has an empty name.
abbrev one_name : Names
one_name = record {
  memory = λ a. 0;
  ps2_charmap = 0x1000 ∷ [];
  lshift = 0x2000;
  rshift = 0x2010;
  capslock = 0x2020;
  backspace = 0x2030;
}

apply_shift_if_needed-letter_example :
    (apply_shift_if_needed released_keys 0x41 ≡ 0x61)
    × (apply_shift_if_needed released_keys 0x61 ≡ apply_shift_if_needed released_keys 0x41)
apply_shift_if_needed-letter_example =
    apply_shift_if_needed-letter released_keys 0x41 (omega arith) (omega arith)
