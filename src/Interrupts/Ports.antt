-- ===== src/Interrupts/Ports.antt =====
-- The ports of the machine: what has been written to them, the last byte first.
use cho_os.Prelude.{ℕ, List, ◌∷◌}

abbrev pub Ports : Type 0
Ports = List (ℕ × ℕ)

abbrev pub outb : ℕ → ℕ → Ports → Ports
outb port value ports = (port, value) ∷ ports
