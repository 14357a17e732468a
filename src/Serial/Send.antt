-- ===== src/Serial/Send.antt =====
-- What `SerialSend` writes to a line that is ready or not, and what the prompt keeps.
use feral.Base.{
  ℕ, ◌≡◌, Bool, true, false, List, [], ◌∷◌, ◌++◌, some, refl, sym, ◌∙◌, inl, inr, Bool-cases,
  set-set, ◌==◌, if◌then◌else◌, u8, set,
}
use mathlib.Core.Bool.{false≢true}
use mathlib.Core.List.{append_assoc}
use feral.Ports.{Trace, x86outb, Devices}
use feral.Serial.{is_ready, send_byte, serial_send, prompt_loop}

-- The writes of a text as a terminal wants it, the last first.
abbrev pub terminal_writes : ℕ → List ℕ → Trace
terminal_writes port [] = []
terminal_writes port (c ∷ text) =
    terminal_writes port text ++ ((port, u8 c) ∷ (if c == 0x0A then (port, 0x0D) ∷ [] else []))

-- To a line that is always ready `SerialSend` writes every byte of the text in order, with a
-- carriage return before each newline.
pub serial_send-ready :
    (devices : Devices) (port : ℕ) (text : List ℕ) (t : Trace)
    → ((u : Trace) → is_ready devices port u ≡ true)
    → serial_send devices port text t ≡ terminal_writes port text ++ t
unfolding serial_send send_byte
serial_send-ready devices port [] t ready = refl
serial_send-ready devices port (c ∷ text) t ready =
    rw (ready t, serial_send-ready devices port text _ ready) (split (c == 0x0A))
  where
    split :
        (b : Bool)
        → Path Trace
            (terminal_writes port text ++ x86outb port c (if b then x86outb port 0x0D t else t))
            ((terminal_writes port text ++ ((port, u8 c) ∷ (if b then (port, 0x0D) ∷ [] else [])))
              ++ t)
    split true = sym (append_assoc (terminal_writes port text) ((port, u8 c) ∷ (port, 0x0D) ∷ []) t)
    split false = sym (append_assoc (terminal_writes port text) ((port, u8 c) ∷ []) t)

-- To a line that is not ready when the text starts, `SerialSend` writes nothing at all: the text
-- is dropped.
pub serial_send-busy :
    (devices : Devices) (port : ℕ) (text : List ℕ) (t : Trace)
    → is_ready devices port t ≡ false
    → serial_send devices port text t ≡ t
unfolding serial_send send_byte
serial_send-busy devices port [] t busy = refl
serial_send-busy devices port (c ∷ text) t busy =
    rw busy (serial_send-busy devices port text t busy)

abbrev pub has_newline : List ℕ → Bool
has_newline [] = false
has_newline (c ∷ text) = if c == 0x0A then true else has_newline text

-- From index 0, on a line that ends with a newline, the loop of `SerialDoKShellPrompt` ends at
-- index 0, and its buffer differs from the one before in the first byte only, which is the
-- newline: the letters of the line are gone.
pub prompt_loop-keeps :
    (buffer line input : List ℕ)
    → has_newline line ≡ false
    → prompt_loop buffer 0 (line ++ 0x0A ∷ input) ≡ some (0, set buffer 0 0x0A)
unfolding prompt_loop
prompt_loop-keeps buffer [] input none_before = refl
prompt_loop-keeps buffer (c ∷ line) input none_before = elim (Bool-cases (c == 0x0A)) [
  | inl newline ↦ absurd (false≢true (sym none_before ∙ rw newline refl))
  | inr letter ↦
      let rest_clear : has_newline line ≡ false = sym (rw letter refl) ∙ none_before in
      rw (letter, prompt_loop-keeps (set buffer 0 c) line input rest_clear, set-set) refl
]
