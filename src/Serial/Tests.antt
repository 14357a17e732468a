-- ===== src/Serial/Tests.antt =====
-- The theorems about the serial line on small runs.
use feral.Base.{◌≡◌, [], ◌∷◌, some, refl, replicate}
use feral.Ports.{Devices}
use feral.Serial.{com1_port, serial_send, prompt_loop}
use feral.Serial.Send.{serial_send-ready, prompt_loop-keeps}

-- A line that is always ready, and one that never is.
abbrev ready_line : Devices
ready_line t port = 0x20

abbrev busy_line : Devices
busy_line t port = 0

serial_send-ready_example :
    serial_send ready_line com1_port (0x41 ∷ 0x0A ∷ []) []
    ≡ (com1_port, 0x0A) ∷ (com1_port, 0x0D) ∷ (com1_port, 0x41) ∷ []
serial_send-ready_example = serial_send-ready ready_line com1_port (0x41 ∷ 0x0A ∷ []) [] λ u. refl

prompt_loop-keeps_example :
    prompt_loop (replicate 4 0) 0 (0x68 ∷ 0x69 ∷ 0x0A ∷ []) ≡ some (0, 0x0A ∷ 0 ∷ 0 ∷ 0 ∷ [])
prompt_loop-keeps_example = prompt_loop-keeps (replicate 4 0) (0x68 ∷ 0x69 ∷ []) [] refl
