-- ===== src/Keyboard/Modifiers.antt =====
-- What the modifiers make of letters, and which keys change them.
use feral.Base.{
  ℕ, suc, ◌+◌, ◌≡◌, ◌≢◌, ◌≤◌, ◌&&◌, Bool, true, false, some, refl, leb, ◌==◌, if◌then◌else◌,
  get_elem?, bit_and, bit_or, ne→==,
}
use feral.Base.Byte.{holds_below, holds_at}
use feral.Base.Fault.{◌>>=◌}
use feral.Strings.{IsLength, char_at, ki_get_string_length_lem}
use native.Mathlib.Nat.{add-zero}
use feral.Status.{Status}
use feral.Memory.{Bytes, ki_compare_memory, compare_words, compare_blocks, compare_tail}
use native.Mathlib.Omega.{arith}
use feral.Keyboard.{
  Ps2KeyboardContext, negated, apply_shift_if_needed, Names, compare_name, check_status_code,
}

-- Every letter of both cases, with and without the modifier.
letter_table :
    holds_below 91 (λ c.
      if leb 65 c
      then (bit_or c 0x20 == (c + 32))
        && (bit_and c 0xDF == c)
        && (bit_and (c + 32) 0xDF == c)
        && (bit_or (c + 32) 0x20 == (c + 32))
      else true)
    ≡ true
unfolding holds_below
letter_table = refl

-- For the letters from A to Z `ApplyShiftIfNeeded` returns the small letter without the modifier
-- and the capital with it, whichever of the two it is given.
pub apply_shift_if_needed-letter :
    (context : Ps2KeyboardContext) (char : ℕ)
    → 65 ≤ char
    → char ≤ 90
    → (apply_shift_if_needed context char
        ≡ (if context.shift_modifier == 0 then char + 32 else char))
      × (apply_shift_if_needed context (char + 32) ≡ apply_shift_if_needed context char)
unfolding apply_shift_if_needed
apply_shift_if_needed-letter context char lo hi =
    let entry = holds_at 91 _ char letter_table (omega arith) in (ground arith, ground arith)

-- No bytes are always the same bytes.
ki_compare_memory-nothing :
    (fuel : ℕ) (m : Bytes) (source dest : ℕ) (before : Bool)
    → source ≢ 0
    → dest ≢ 0
    → ki_compare_memory (suc fuel) m source dest 0 before ≡ some (Status.success, true)
unfolding ki_compare_memory compare_words compare_blocks compare_tail
ki_compare_memory-nothing fuel m source dest before s d = rw (ne→== source 0 s, ne→== dest 0 d) refl

nameless-IsLength : (m : Bytes) (content : ℕ) → m content ≡ 0 → IsLength (char_at m content) 0
nameless-IsLength m content h = record { ends = rw add-zero h; before = λ i below. elim below [ ] }

-- For a scan code whose name in the map is the empty string, with no null pointer and fuel for one
-- round, `CheckStatusCode` treats the key as a shift key: a press sets the modifier to the negated
-- caps lock, a release to the caps lock.
pub check_status_code-nameless :
    (fuel : ℕ) (names : Names) (code content : ℕ) (context : Ps2KeyboardContext)
    → get_elem? names.ps2_charmap (bit_and code 0x7F) ≡ some content
    → content ≢ 0
    → names.lshift ≢ 0
    → names.memory content ≡ 0
    → check_status_code (suc fuel) names code context
      ≡ some (
        record context {
          shift_modifier =
              if bit_and code 0x80 == 0 then negated context.caps_lock else context.caps_lock;
        },
        false,
      )
unfolding check_status_code compare_name
check_status_code-nameless fuel names code content context entry given literal nameless =
    rw
      (
        entry,
        ◌>>=◌,
        ki_get_string_length_lem names.memory content 0 0 (suc fuel) given
            (nameless-IsLength names.memory content nameless) (omega arith) (omega arith),
        ◌>>=◌,
        ki_compare_memory-nothing fuel names.memory content names.lshift false given literal,
        ◌>>=◌,
      )
      (ground arith)
