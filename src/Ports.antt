-- ===== src/Ports.antt =====
-- The port accesses of kern/arch/x86_64/cpuio.h: what the code writes is a trace, what it reads is
-- given by the devices behind the ports, from the trace so far.
use feral.Base.{ℕ, List, ◌∷◌, u8}

-- A port and the byte written to it, the newest first.
abbrev pub Trace : Type 0
Trace = List (ℕ × ℕ)

abbrev pub x86outb : ℕ → ℕ → Trace → Trace
x86outb port val t = (port, u8 val) ∷ t

-- What a port reads as.
abbrev pub Devices : Type 0
Devices = Trace → ℕ → ℕ
