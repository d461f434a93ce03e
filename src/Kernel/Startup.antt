-- ===== src/Kernel/Startup.antt =====
-- Where `heap_init` puts the heap, and where `pmm_directory_init` has put the page tables.
use cho_os.Prelude.{
  ℕ, ◌+◌, ◌-◌, ◌*◌, ◌/◌, ◌%◌, ◌^◌, ◌≤◌, ◌<◌, ◌≡◌, ◌≢◌, refl, false, some, ◌==◌, inl, inr, List,
  arith, ap, ◌∙◌, ltb, Bool-cases,
}
use cho_os.Memory.Machine.{Machine, kernel_virt_offset}
use cho_os.Memory.Heap.{heap_init}
use cho_os.Memory.Heap.Init.{first_page, heap_init-IsHeap}
use cho_os.Paging.Frames.{Frames, MmapEntry, bitmap_set, pmm_frames_init}
use cho_os.Paging.Bits.{bitmap_set-keeps}
use cho_os.Paging.FirstFree.{FirstFree, only_free}
use cho_os.Paging.Protected.{first_frame-used, pmm_frames_init-protects}
use cho_os.Paging.Vmm.{Vm, Page, walk}
use cho_os.Paging.Boot.{
  started, multiboot_bootloader_magic, pmm_directory_init, boot_tables, cleared_page,
}
use cho_os.Paging.Boot.Directory.{
  Booted, pmm_directory_init-started, boot_tables-Booted, boot_tables-dir,
}
use cho_os.Kernel.Env.{Running}
use cho_os.Kernel.Separate.{IsApart}

-- The page of the higher half for that frame lies in the heap, and is the frame.
pub record InHeap (f : ℕ) (v : Vm) (m : Machine Running) : Type 0 where
  pub from : m.heap_start ≤ kernel_virt_offset + f * 4096
  pub to : kernel_virt_offset + (f + 1) * 4096 ≤ m.program_break_point
  pub maps :
      (x : ℕ) → x < 4096 → walk v.mem v.dir (kernel_virt_offset + (f * 4096 + x)) ≡ some (f, x)

-- A frame behind the image, that boot.S maps.
behind-InHeap :
    (kernel_end f : ℕ) (v : Vm) (m : Machine Running)
    → Booted v
    → kernel_virt_offset ≤ kernel_end
    → (kernel_end - kernel_virt_offset) / 4096 < f
    → f < 1023
    → m.heap_start ≡ first_page kernel_end
    → m.program_break_point ≡ 0xC040_0000
    → InHeap f v m
behind-InHeap kernel_end f v m booted high behind small start break = record {
  from = ground (arith, start);
  to = omega (arith, break);
  maps = λ x lt.
      let at = booted.high (f * 4096 + x) (omega arith) in
      let frame : (f * 4096 + x) / 2 ^ 12 ≡ f = omega arith in
      let offset : (f * 4096 + x) % 2 ^ 12 ≡ x = omega arith in
      at ∙ ap (λ g. some (g, (f * 4096 + x) % 2 ^ 12)) frame ∙ ap (λ o. some (f, o)) offset;
}

-- The first free frame is behind the image, which boot.S loads at the end of the first megabyte.
first-behind :
    (entries : List MmapEntry) (k_start k_end d : ℕ) (s : Frames)
    → k_start ≤ 0x10_0000
    → FirstFree (pmm_frames_init entries k_start k_end s) 0 (1024 * 1024) d
    → d ≢ 0
    → k_end / 4096 < d
first-behind entries k_start k_end d s loaded first nd =
    let f = pmm_frames_init entries k_start k_end s in
    let (mega, apart) =
      pmm_frames_init-protects entries k_start k_end s (d * 4096) (bitmap_set d f)
        (only_free f d first) (λ e. nd (omega (arith, e))) in
    elim apart [
      | inl lower ↦ absurd (omega (arith, mega, loaded, lower))
      | inr behind ↦ omega (arith, behind)
    ]

-- The second one is not below the first.
second-behind :
    (f : Frames) (d t : ℕ)
    → FirstFree f 0 (1024 * 1024) d
    → FirstFree (bitmap_set d f) 0 (1024 * 1024) t
    → d ≤ t
second-behind f d t first second = elim (Bool-cases (ltb t d)) [
  | inl below ↦
      let used = first.before.used t (omega arith) (ground arith) in
      absurd (cc (bitmap_set-keeps t d f used, second.is_free))
  | inr above ↦ ground arith
]

-- A heap that contains the page directory is not apart from the tables.
InHeap-apart :
    (v : Vm) (m : Machine Running)
    → InHeap v.dir v m
    → m.program_break_point ≡ 0xC040_0000
    → IsApart m v
    → ⊥
InHeap-apart v m inside break apart =
    let f = v.dir in
    let a = kernel_virt_offset + (f * 4096 + 0) in
    let offset : 0 ≡ a % 2 ^ 12 = omega arith in
    let n = apart.no_table a f (record {
      from = omega (arith, inside.from);
      below = omega (arith, inside.to, break);
      leads = inside.maps 0 (omega arith) ∙ ap (λ o. some (f, o)) offset;
    }) in
    n.not_dir refl

-- For an image loaded at 0x100000 or below that ends in the higher half, with a page left of its first
-- 4 MiB, with the boot loader's magic number and a memory map, and where two frames at least are free, the
-- first two, below frame 1023: `pmm_directory_init` and then `heap_init` return without an abort or a page
-- fault, and the heap that they leave contains both the page directory and the page table that the heap
-- itself is reached by: addresses of the heap translate to every byte of their two frames. It is therefore
-- no heap whose pages have frames that hold no table.
pub heap_init-overlaps :
    (flags : ℕ) (entries : List MmapEntry) (k_start kernel_end : ℕ) (s : Vm) (m : Machine Running)
    (d t : ℕ)
    → (flags / 2 ^ 6 % 2 == 0) ≡ false
    → k_start ≤ 0x10_0000
    → kernel_virt_offset ≤ kernel_end
    → first_page kernel_end < 0xC040_0000
    → let k_end = kernel_end - kernel_virt_offset in
      let frames = pmm_frames_init entries k_start k_end s.frames in
      FirstFree frames 0 (1024 * 1024) d
      → FirstFree (bitmap_set d frames) 0 (1024 * 1024) t
      → d < 1023
      → t < 1023
      → (v : Vm) × (m' : Machine Running) × (pmm_directory_init multiboot_bootloader_magic flags
            entries k_start k_end s
          ≡ started v)
        × (heap_init kernel_end (record m { env = some v }) ≡ some m')
        × (v.dir ≡ d)
        × ((v.mem v.dir (m'.heap_start / 2 ^ 22)).frame ≡ t)
        × InHeap d v m'
        × InHeap t v m'
        × (IsApart m' v → ⊥)
heap_init-overlaps flags entries k_start kernel_end s m d t map loaded high low first second in_d
      in_t =
    let k_end = kernel_end - kernel_virt_offset in
    let frames = pmm_frames_init entries k_start k_end s.frames in
    let (e, ne) =
      pmm_directory_init-started flags entries k_start k_end s d t map first second in_d in_t in
    let v : Vm = record s {
      mem = boot_tables d t (cleared_page d s.mem);
      dir = d;
      frames = bitmap_set t (bitmap_set d frames);
    } in
    let booted = boot_tables-Booted d t (bitmap_set t (bitmap_set d frames)) s ne in
    let (m', init, heap, start, break, env) =
      heap_init-IsHeap kernel_end (record m { env = some v }) high low in
    let used = first_frame-used entries k_start k_end s.frames in
    let behind : k_end / 4096 < d =
      first-behind entries k_start k_end d s.frames loaded first
        (λ z. absurd (cc (used, first.is_free, z))) in
    let slot : m'.heap_start / 2 ^ 22 ≡ 768 = ground (arith, start, high, low) in
    let order = second-behind frames d t first second in
    let inside = behind-InHeap kernel_end d v m' booted high behind in_d start break in
    (
      v,
      m',
      e,
      init,
      refl,
      ap (λ j. (v.mem d j).frame) slot
          ∙ ap (λ (p : Page). p.frame) (boot_tables-dir d t 768 s.mem ne),
      inside,
      behind-InHeap kernel_end t v m' booted high (omega (arith, behind, order)) in_t start break,
      InHeap-apart v m' inside break,
    )
