-- ===== src/Memory.antt =====
-- kernel/arch/i386/memory_manager/: the program break and the kernel heap.
pub mod Machine
pub mod Brk
pub mod Heap
