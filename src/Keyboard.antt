-- ===== src/Keyboard.antt =====
-- The keyboard of kern/arch/x86_64/interrupts.c. The names of the keys lie in a flat memory; the
-- addresses of the literals that the code compares them with are parameters. A loop takes fuel;
-- `none` says that it ran out, or that a scan code lies behind the names.
pub mod Modifiers
mod Tests
use feral.Base.{
  ℕ, ◌+◌, ◌*◌, List, Bool, true, false, not, ◌&&◌, ◌||◌, Option, none, some, ltb, leb, ◌==◌,
  if◌then◌else◌, u8, get_elem?, bit_and, bit_or,
}
use feral.Base.Fault.{◌>>=◌}
use feral.Memory.{Bytes, ki_compare_memory}
use feral.Strings.{ki_get_string_length}
use feral.Ports.{Trace, Devices}
use feral.Interrupts.{x86_pic_send_eoi_pic1}

pub record Ps2KeyboardContext : Type 0 where
  pub shift_modifier : ℕ
  pub control_modifier : ℕ
  pub alt_modifier : ℕ
  pub caps_lock : ℕ

-- `!x`
abbrev pub negated : ℕ → ℕ
negated x = if x == 0 then 1 else 0

-- A `CHAR` of 128 and above is negative; it is returned as it is.
unfoldable pub apply_shift_if_needed : Ps2KeyboardContext → ℕ → ℕ
apply_shift_if_needed context char =
    if ltb char b'A' || ltb b'z' char
    then char
    else if context.shift_modifier == 0
    then bit_or char 0x20
    else bit_and char 0xDF

-- The memory with the names, where `PS2Charmap` points to, and where the literals are.
pub record Names : Type 0 where
  pub memory : Bytes
  pub ps2_charmap : List ℕ
  pub lshift : ℕ
  pub rshift : ℕ
  pub capslock : ℕ
  pub backspace : ℕ

abbrev pub lesser : ℕ → ℕ → ℕ
lesser a b = if ltb a b then a else b

module _ (fuel : ℕ) (names : Names) where
  -- The answer of `KiCompareMemory(Content, literal, length, &answer)`.
  unfoldable pub compare_name : ℕ → ℕ → ℕ → Bool → Option Bool
  compare_name content literal length before = do
    (status, answer) ← ki_compare_memory fuel names.memory content literal length before
    some answer

  -- The keyboard's state, and whether `KiBackspace` is called.
  unfoldable pub check_status_code : ℕ → Ps2KeyboardContext → Option (Ps2KeyboardContext × Bool)
  unfolding compare_name
  check_status_code code context = do
    let released = not (bit_and code 0x80 == 0)
    content ← get_elem? names.ps2_charmap (bit_and code 0x7F)
    (status, content_length) ← ki_get_string_length fuel names.memory content 0
    let compare_length = lesser content_length 6
    is_left ← compare_name content names.lshift compare_length false
    is_shift ←
        if is_left then some true else compare_name content names.rshift compare_length is_left
    if not released && is_shift
        then some (record context { shift_modifier = negated context.caps_lock }, false)
        else if released && is_shift
        then some (record context { shift_modifier = context.caps_lock }, false)
        else (do
          is_caps_lock ← compare_name content names.capslock compare_length false
          if not released && is_caps_lock
              then some (
                record context {
                  shift_modifier = negated context.shift_modifier;
                  caps_lock = negated context.caps_lock;
                },
                false,
              )
              else (do
                is_backspace ← compare_name content names.backspace (lesser content_length 9) false
                some (context, not released && is_backspace)))

  unfoldable pub internal_convert_ps2_key_to_ascii : Ps2KeyboardContext → ℕ → Option ℕ
  unfolding apply_shift_if_needed
  internal_convert_ps2_key_to_ascii context char = do
    content ← get_elem? names.ps2_charmap (bit_and char 0x7F)
    (status, content_length) ← ki_get_string_length fuel names.memory content 0
    if char == 0x1C || char == 0x5A
        then some 0x0A
        else if char == 0x39 || char == 0x29
        then some 0x20
        else if not (content_length == 1)
        then some 0
        else some (apply_shift_if_needed context (names.memory content))

  -- The state, whether `KiBackspace` is called, the letter that is printed, and the ports.
  unfoldable pub ps2_keyboard_handler :
      Devices → Ps2KeyboardContext → Trace → Option (Ps2KeyboardContext × Bool × Option ℕ × Trace)
  unfolding check_status_code internal_convert_ps2_key_to_ascii
  ps2_keyboard_handler devices context t = do
    let keycode = u8 (devices t 0x60)
    (context', backspaced) ← check_status_code keycode context
    letter ← internal_convert_ps2_key_to_ascii context' keycode
    let printed : Option ℕ =
        if not (letter == 0) && bit_and keycode 0x7F == keycode then some letter else none
    some (context', backspaced, printed, x86_pic_send_eoi_pic1 t)
