-- ===== src/Interrupts.antt =====
-- kernel/arch/i386/interrupts and kernel/arch/i386/gdt: the descriptor tables and the timer.
pub mod Ports
pub mod Gdt
pub mod Idt
pub mod Timer
mod Tests
