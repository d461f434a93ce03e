-- ===== src/Libc.antt =====
-- The C library: libc/string and libc/stdio.
pub mod Bytes
pub mod Strings
pub mod Stdio
