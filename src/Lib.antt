-- ===== src/Lib.antt =====
-- ChoOS, a kernel for the i386 in C: a model of its memory manager and page tables, its scheduler,
-- its frame allocator, its descriptor tables, timer and console, of the string functions and the
-- formatted output of its C library, and of the kernel's own tests of its memory.
--
-- The parts and the files. Prelude holds what all share: Boolean tests, lists measured by native
-- numbers, and the wrapping 32-bit operations add32, sub32 and mul32. Every number of the source
-- is a natural number here, and where the source can wrap round the model writes it out.
--
-- Libc models libc/string: memcpy, memmove, memset, memcmp, memchr, strlen, strcpy and strncpy
-- over a byte-addressed memory (Libc/Bytes), each loop a recursion on the rounds left. strlen and
-- strcpy run until a NUL byte and take fuel; their theorems give the fuel that is enough, one more
-- than the length of the string. Libc/Stdio models libc/stdio: Numbers is internal.c, the
-- conversions of numbers to text in a buffer, with fuel for their digits; Printf is vprintf.c with
-- puts.c, over the bytes of the format, of the string arguments and of the local buffer, whose
-- address is a parameter like the routine behind putchar. The outer loop of vprintf takes fuel,
-- one more than the format has characters being enough, and its inner loops a limit of their own,
-- above every string and above 64. Printf/Reference says what a format asks for, one character
-- after the other.
--
-- Memory models kernel/arch/i386/memory_manager. Machine holds the state: the two globals of
-- heap.c, the block header that stands at an address, the bytes of the payloads, and the state of
-- the rest of the kernel, on which the record Env gives the calls that the allocator makes of it
-- (the scheduler's lock, pmm_alloc_page, pmm_free_page, vmm_page_map, vmm_page_unmap). These stay
-- a parameter, and by their type they cannot touch the heap's globals, headers and bytes. Brk is
-- brk.c; Heap is heap.c, internal.c and allocators.c, an operation to a function. Headers are kept
-- apart from payload bytes, so that a header written over the payload of another block is seen as
-- a broken chain and not as bytes, and what an operation stores in the payload, as the copy of
-- krealloc, is stated for every address. Heap and page tables are apart in the model as well: that
-- a store in the heap is not one in a table is a hypothesis where both are followed
-- (Kernel/Separate), which the heap of the boot does not meet (Kernel/Startup). Heap/Spans is the
-- abstract view, a list of spans with their sizes on which first fit, splitting and joining are
-- list functions; Heap/Chain says when the headers in memory form the chain of such a list. The
-- walks of the allocator take fuel, one more than there are blocks being enough, and the loop that
-- unmaps pages does too.
--
-- Scheduler models kernel/arch/i386/scheduler. State holds the globals and the control blocks by
-- address; Switch is the lock and schedule of scheduler.c with switch_to_task.S, Cleanup the
-- freeing of dead tasks, Tasks the rest of scheduler.c, task.c and sleep.c. A call either returns
-- in the task that made it or ends in a switch to another task (Flow); what it has left to do then
-- waits, and is not followed. Cleanup takes kfree as a parameter, which may fail. Queue says when
-- the control blocks form the ready queue. Interrupts between two statements are not modelled.
--
-- Paging models kernel/arch/i386/paging and memory_manager/vmm.c. Frames is the frame allocator:
-- the bitmap of frames, the search for the first free one, the cache of twenty frames in front of
-- it, and pmm_frames_init; the loops have the bounds of the source, 32768 words of 32 bits. Vmm is
-- vmm.c over page tables in physical memory: every pointer that the code forms is translated by
-- those tables, a missing translation is a page fault, and the translation that the processor
-- makes (walk) is the one of the i386 without large pages. The TLB is taken as flushed at once;
-- what the code flushes is recorded. Boot is pmm_directory_init, which writes the first tables and
-- so sets up what Vmm needs, at addresses that fault where boot.S has not mapped them.
--
-- Interrupts models kernel/arch/i386/gdt/gdt.c, interrupts/idt.c and interrupts/timer.c: the
-- segment descriptors, the interrupt gates and routines with the bytes written to ports, and the
-- list of timer events, whose calls of the heap, of the lock and of the installed functions are a
-- parameter; an installed function may change the list itself. Its loops take fuel, one more than
-- there are events being enough. The addresses of assembly stubs and of tables are parameters.
--
-- Console models kernel/arch/i386/tty.c over the video memory and interrupts/keyboard.c with its
-- two tables; the keyboard hands its characters to the terminal, as printf("%c") does.
--
-- Paging/Cache follows the pages that wait in the cache of frames and those that have left it, and
-- Marks and Release what giving a page back does to the bitmap.
--
-- Kernel puts the memory manager on the page tables and the frame allocator. Env fills the record
-- that Memory leaves open with the calls of Paging, over a memory that a page fault ends; only the
-- lock of the scheduler stays a parameter. Tables says when no frame that holds a table can be
-- given out again, Apart which frames hold none, Break when every page of the heap has a frame,
-- Separate that those frames hold no table and are not shared, and Startup where the heap and the
-- tables of the boot lie. Growth and Shrink follow the two loops of brk.c page by page, with
-- Mapping and Unmapped for one page; the fuel of the second is enough when it exceeds the pages
-- that are given back. Faults says what giving back leaves behind. Kmalloc puts the allocator on
-- top, and Runs follows calls of kmalloc and kfree one after the other, with fuel for more headers
-- than the address space has room for. SelfTest and SbrkTest are kernel/kernel/test.c: the tests
-- of the page tables, of the break, and the loop over the tests, without their messages. A failed
-- assertion returns -1 there; in test_sbrk the model tells an sbrk that is refused for want of
-- memory from any other failed assertion.
--
-- Not modelled: the start-up code, of which only the range that its page table maps is used, and
-- other assembly apart from switch_to_task.S, which moves registers that no state here holds;
-- kernel_main and its tasks in kernel/kernel/kernel.c, with the test of the scheduler, whose loops
-- end by what the interrupts do; abort, beyond the fact that a call ends in it; the header of the
-- Multiboot project, of which one number is used; and the debug logging.
pub mod Prelude
pub mod Libc
pub mod Memory
pub mod Scheduler
pub mod Paging
pub mod Interrupts
pub mod Console
pub mod Kernel
