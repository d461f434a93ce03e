-- ===== src/Console.antt =====
-- The console: the terminal of kernel/arch/i386/tty.c and the keyboard of interrupts/keyboard.c.
pub mod Keys
pub mod Scancodes
pub mod Coverage
pub mod Terminal
pub mod Keyboard
mod Tests
