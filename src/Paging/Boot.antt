-- ===== src/Paging/Boot.antt =====
-- `pmm_directory_init` of kernel/arch/i386/paging/paging.c: the page directory that the kernel starts
-- with. The tables are written at their physical addresses, which the page table of boot.S maps to
-- themselves for all pages of the first 4 MiB but the last.
use cho_os.Prelude.{ℕ, zero, suc, ◌+◌, ◌/◌, ◌%◌, ◌^◌, Bool, ltb, ◌==◌, ◌&&◌, if◌then◌else◌, List}
use cho_os.Paging.Frames.{Frames, MmapEntry, pmm_alloc_frame_int, pmm_frames_init}
use cho_os.Paging.Vmm.{Page, Tables, Vm, put_page, zero_entry}
pub mod Directory
pub mod Tests

pub data Boot : Type 0 where
  started : Vm → Boot
  aborted page_fault : Boot

-- Whether the page table of boot.S, whose loop fills 1023 entries, maps the address of that frame.
abbrev pub boot_mapped : ℕ → Bool
boot_mapped frame = ltb frame 1023

abbrev pub multiboot_bootloader_magic : ℕ
multiboot_bootloader_magic = 0x2BADB002

-- `memset(page, 0, PAGE_SIZE)`
abbrev pub cleared_page : ℕ → Tables → Tables
cleared_page f m g i = if g == f then zero_entry else m g i

-- the assignments to an entry
abbrev pub kernel_entry : ℕ → Page → Page
kernel_entry frame p = record p { frame = frame; present = 1; rw_bit = 1; user = 0 }

-- The loop over the first page table: `n` rounds left at `i`.
unfoldable pub identity_table : ℕ → ℕ → ℕ → Tables → Tables
identity_table zero i f m = m
identity_table (suc n) i f m = identity_table n (i + 1) f (put_page m f i (kernel_entry i (m f i)))

-- an entry of the directory at `d`
abbrev pub link : ℕ → ℕ → ℕ → Tables → Tables
link d i f m = put_page m d i (kernel_entry f (m d i))

-- The first page table, in the frame `t`, and the three entries of the directory.
unfoldable pub boot_tables : ℕ → ℕ → Tables → Tables
boot_tables d t m =
    link d 1023 d (link d 768 t (link d 0 t (identity_table 1024 0 t (cleared_page t m))))

-- from the allocation of the first page table on
unfoldable pub with_table : ℕ → ℕ × Frames → Vm → Boot
with_table page_directory_phys (first_page_table, frames) s =
    let d = page_directory_phys / 2 ^ 12 % 2 ^ 20 in
    let t = first_page_table / 2 ^ 12 % 2 ^ 20 in
    if first_page_table == 0
    then aborted
    else if boot_mapped t
    then started (record s { mem = boot_tables d t s.mem; dir = d; frames = frames })
    else page_fault

-- from the allocation of the directory on
unfoldable pub with_directory : ℕ × Frames → Vm → Boot
with_directory (page_directory_phys, frames) s =
    let d = page_directory_phys / 2 ^ 12 % 2 ^ 20 in
    if page_directory_phys == 0
    then aborted
    else if boot_mapped d
    then with_table page_directory_phys (pmm_alloc_frame_int frames)
        (record s { mem = cleared_page d s.mem })
    else page_fault

-- `flags` is that field of what the boot loader hands over.
unfoldable pub pmm_directory_init : ℕ → ℕ → List MmapEntry → ℕ → ℕ → Vm → Boot
pmm_directory_init magic flags entries k_start k_end s =
    if magic == multiboot_bootloader_magic
    then (if flags / 2 ^ 6 % 2 == 0
        then aborted
        else with_directory (pmm_alloc_frame_int (pmm_frames_init entries k_start k_end s.frames))
            s)
    else aborted
