-- ===== src/Print.antt =====
-- kern/lib/kernel_printfuncs.c: printing over the functions that the entry code hands to the
-- kernel. They act on a state of any kind; `none` is a step of theirs that stops, a loop that ran
-- out of fuel, or an argument that was not passed.
pub mod Pieces
pub mod Chars
pub mod Numerals
pub mod Steps
pub mod Advance
pub mod Format
pub mod Coloured
mod Tests
use feral.Base.{
  ℕ, zero, suc, ◌+◌, ◌-◌, ◌^◌, Bool, true, false, not, ◌&&◌, Option, none, some, List, [], ◌∷◌, ltb,
  leb, ◌==◌, if◌then◌else◌, u8, u64, get_or, ◌%◌,
}
use feral.Base.Fault.{◌>>=◌}
use feral.Memory.{Bytes}
use feral.Status.{Status, is}
use feral.Strings.{char_at, ki_get_string_length}
use feral.Numbers.{ki_itoa, ki_itoa_signed, ki_itoa_base}

-- The functions that print, of the table of the entry code, and `VgaPutChar`.
pub record KrnlFirmwareFunctions {ℓ} (S : Type ℓ) : Type ℓ where
  pub put_char : ℕ → S → Option S
  pub println : Bytes → ℕ → ℕ → S → Option S
  pub backspace : S → Option S
  pub vga_put_char : ℕ → S → Option S

-- Bytes that lie at `place`: a string literal or a local buffer.
abbrev pub at_place : ℕ → Bytes → Bytes
at_place place buf = λ a. buf (a - place)

abbrev pub literal : List ℕ → Bytes
literal chars = λ a. get_or chars a 0

-- A buffer that is initialized with `{0}`.
abbrev pub cleared : Bytes
cleared = λ a. 0

-- The cast of an `INT32` to `UINT64`, on bit patterns.
abbrev pub sign_extend : ℕ → ℕ
sign_extend v = if ltb (v % 2 ^ 32) (2 ^ 31) then v % 2 ^ 32 else v % 2 ^ 32 + (2 ^ 64 - 2 ^ 32)

-- The conversions that call `va_arg`.
abbrev pub takes_argument : ℕ → Bool
takes_argument cur =
    if cur == b's'
    then true
    else if cur == b'i'
    then true
    else if cur == b'l'
    then true
    else if cur == b'u'
    then true
    else cur == b'x'

module _ {ℓ} {S : Type ℓ} (functions : KrnlFirmwareFunctions S) (bound place : ℕ) where
  unfoldable pub ki_put_char : ℕ → S → Option (Status × S)
  ki_put_char c s = do s' ← functions.put_char c s; some (Status.success, s')

  unfoldable pub ki_backspace : S → Option (Status × S)
  ki_backspace s = do s' ← functions.backspace s; some (Status.success, s')

  -- The loop of `KiPrint`, with `left` characters to go.
  unfoldable pub put_chars : Bytes → ℕ → ℕ → ℕ → S → Option S
  unfolding ki_put_char
  put_chars m string zero i s = some s
  put_chars m string (suc left) i s = do
    (status, s') ← ki_put_char (char_at m string i) s
    put_chars m string left (i + 1) s'

  unfoldable pub ki_print : Bytes → ℕ → S → Option (Status × S)
  ki_print m string s = do
    (status, length) ← ki_get_string_length bound m string 0
    if is status Status.success
        then (do s' ← put_chars m string length 0 s; some (Status.success, s'))
        else some (status, s)

  unfoldable pub ki_print_line : Bytes → ℕ → S → Option (Status × S)
  ki_print_line m string s = do
    (status, length) ← ki_get_string_length bound m string 0
    if is status Status.success
        then (do s' ← functions.println m string length s; some (Status.success, s'))
        else some (status, s)

  -- What a conversion makes of a number: the buffer is printed.
  unfoldable pub print_number : Option (Status × Bytes) → S → Option S
  print_number made s = do
    (status, buf) ← made
    (printed, s') ← ki_print (at_place place buf) place s
    some s'

  unfoldable pub repeat_vga : ℕ → ℕ → S → Option S
  repeat_vga zero c s = some s
  repeat_vga (suc left) c s = do s' ← functions.vga_put_char c s; repeat_vga left c s'

  unfoldable pub print_times : ℕ → List ℕ → S → Option S
  print_times zero chars s = some s
  print_times (suc left) chars s = do
    (status, s') ← ki_print (at_place place (literal chars)) place s
    print_times left chars s'

  -- The branches that take an argument; `va_arg` takes the first of `args`.
  unfoldable pub print_argument : Bytes → ℕ → ℕ → S → Option S
  print_argument m cur arg s =
      if cur == b's'
      then (do (status, s') ← ki_print m arg s; some s')
      else if cur == b'i'
      then print_number (ki_itoa_signed bound (sign_extend arg) cleared) s
      else if cur == b'l'
      then print_number (ki_itoa_signed bound arg cleared) s
      else if cur == b'u'
      then print_number (ki_itoa bound arg cleared) s
      else print_number (ki_itoa_base bound arg 16 cleared) s

  -- `cur` behind a percent sign: what is left of the arguments, and `index`.
  unfoldable pub convert : Bytes → ℕ → ℕ → List ℕ → ℕ → S → Option (List ℕ × ℕ × S)
  convert m fmt cur args index s =
      if takes_argument cur
      then elim args [
        | [] ↦ none
        | arg ∷ rest ↦ (do s' ← print_argument m cur arg s; some (rest, index, s'))
      ]
      else if cur == b'%'
      then (do s' ← print_times 1 (b'%' ∷ []) s; some (args, index, s'))
      else if leb b'0' cur && leb cur b'9'
      then (let next = char_at m fmt (u64 (index + 1)) in
          if next == 0 then some (args, u64 (index + 1), s) else (do
            s' ← repeat_vga (u8 (next + 256 - b'0')) cur s
            some (args, u64 (index + 1), s')))
      else some (args, index, s)

  -- `cur` in plain text; a `CHAR` of 128 and above is negative.
  unfoldable pub print_plain : ℕ → S → Option S
  print_plain cur s =
      if leb b' ' cur && ltb cur 128
      then functions.put_char cur s
      else if cur == 10
      then (do (status, s') ← ki_print_line (at_place place (literal [])) place s; some s')
      else if cur == 9
      then print_times 8 (b' ' ∷ []) s
      else some s

  -- One round of the loop of `KiPrintFmt`: the arguments, `index`, `upState` and the state.
  unfoldable pub fmt_round : Bytes → ℕ → ℕ → List ℕ → ℕ → Bool → S → Option (List ℕ × ℕ × Bool × S)
  fmt_round m fmt cur args index up_state s =
      if cur == b'%' && not up_state
      then some (args, index, true, s)
      else if up_state
      then (do
        (args', index', s') ← convert m fmt cur args index s
        some (args', index', false, s'))
      else (do s' ← print_plain cur s; some (args, index, false, s'))

  unfoldable pub fmt_loop : ℕ → Bytes → ℕ → List ℕ → ℕ → Bool → S → Option (Status × S)
  fmt_loop zero m fmt args index up_state s = none
  fmt_loop (suc fuel) m fmt args index up_state s =
      let cur = char_at m fmt index in
      if cur == 0 then some (Status.success, s) else (do
        (args', index', up_state', s') ← fmt_round m fmt cur args index up_state s
        fmt_loop fuel m fmt args' (u64 (index' + 1)) up_state' s')

  unfoldable pub ki_print_fmt : ℕ → Bytes → ℕ → List ℕ → S → Option (Status × S)
  ki_print_fmt fuel m fmt args s = fmt_loop fuel m fmt args 0 false s
