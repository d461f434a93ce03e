-- ===== src/Paging.antt =====
-- Page frames: kernel/arch/i386/paging.
pub mod Frames
pub mod FirstFree
pub mod Bits
pub mod Marks
pub mod Release
pub mod Protected
pub mod Cache
pub mod Vmm
pub mod Boot
pub mod Tests
