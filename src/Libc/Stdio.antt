-- ===== src/Libc/Stdio.antt =====
-- libc/stdio: numbers as text, and formatted output.
pub mod Numbers
pub mod Printf
mod Tests
