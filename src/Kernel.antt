-- ===== src/Kernel.antt =====
-- The parts of the kernel put together.
pub mod Env
pub mod Tables
pub mod Apart
pub mod Mapping
pub mod Growth
pub mod Break
pub mod Startup
pub mod Unmapped
pub mod Shrink
pub mod Faults
pub mod Separate
pub mod Kmalloc
pub mod Runs
pub mod SelfTest
pub mod SbrkTest
mod Sample
mod Tests
