-- ===== src/Paging/Boot/Directory.antt =====
-- What the first page directory maps.
use cho_os.Prelude.{
  ℕ, zero, suc, ◌+◌, ◌*◌, ◌/◌, ◌%◌, ◌^◌, ◌<◌, ◌≡◌, ◌≢◌, refl, ap, ◌∙◌, Bool, true, false, none,
  some, ltb, leb, ◌==◌, ◌&&◌, if◌then◌else◌, List, arith, Bool-cases, inl, inr,
}
use cho_os.Paging.Frames.{
  Frames, MmapEntry, bitmap_set, bitmap_test, pmm_alloc_frame_int, pmm_frames_init,
}
use cho_os.Paging.FirstFree.{FirstFree, only_free}
use cho_os.Paging.Bits.{bitmap_test-bitmap_set, bitmap_set-keeps}
use cho_os.Paging.Protected.{first_frame-used}
use cho_os.Paging.Vmm.{Page, Tables, Vm, walk, put_page, zero_entry}
use cho_os.Paging.Vmm.Entries.{WellFormed}
use cho_os.Paging.Boot.{
  started, aborted, boot_mapped, multiboot_bootloader_magic, cleared_page, kernel_entry,
  identity_table, boot_tables, with_table, with_directory, pmm_directory_init,
}

identity_table_lem :
    (n i f : ℕ) (m : Tables) (g j : ℕ)
    → identity_table n i f m g j
      ≡ (if (g == f) && (leb i j && ltb j (i + n)) then kernel_entry j (m f j) else m g j)
unfolding identity_table
identity_table_lem zero i f m g j =
    let out : (leb i j && ltb j (i + 0)) ≡ false = ground arith in
    elim (Bool-cases (g == f)) [ inl e ↦ rw (e, out) refl | inr e ↦ rw e refl ]
identity_table_lem (suc n) i f m g j =
    identity_table_lem n (i + 1) f (put_page m f i (kernel_entry i (m f i))) g j
    ∙ (elim (Bool-cases (g == f)) [
      | inr other ↦ rw other refl
      | inl table ↦ elim (Bool-cases (j == i)) [
        | inl here ↦
            let e : i ≡ j = ground arith in
            let past : (leb (i + 1) j && ltb j (i + 1 + n)) ≡ false = ground arith in
            let inside : (leb i j && ltb j (i + suc n)) ≡ true = ground arith in
            rw (table, past, inside, here) (ap (λ k. kernel_entry k (m f k)) e)
        | inr there ↦
            let self : (f == f) ≡ true = ground arith in
            let same : (leb (i + 1) j && ltb j (i + 1 + n)) ≡ (leb i j && ltb j (i + suc n)) =
              ground arith in
            rw (table, same, there, self) refl
      ]
    ])

-- The directory's entries are zero but for three of them.
pub boot_tables-dir :
    (d t j : ℕ) (m : Tables)
    → t ≢ d
    → boot_tables d t (cleared_page d m) d j ≡ (
        if j == 1023
        then kernel_entry d zero_entry
        else if (j == 768)
        then kernel_entry t zero_entry
        else if j == 0
        then kernel_entry t zero_entry
        else zero_entry)
unfolding boot_tables
boot_tables-dir d t j m ne =
    let self : (d == d) ≡ true = ground arith in
    let other : (d == t) ≡ false = ground arith in
    let base = identity_table 1024 0 t (cleared_page t (cleared_page d m)) in
    let empty : (k : ℕ) → base d k ≡ zero_entry = (λ k.
      identity_table_lem 1024 0 t (cleared_page t (cleared_page d m)) d k
      ∙ rw (other, self) refl) in
    elim (Bool-cases (j == 1023)) [
      | inl last ↦ rw (self, last, empty 1023) refl
      | inr no_last ↦ elim (Bool-cases (j == 768)) [
        | inl upper ↦ rw (self, no_last, upper, empty 768) refl
        | inr no_upper ↦ elim (Bool-cases (j == 0)) [
          | inl first ↦ rw (self, no_last, no_upper, first, empty 0) refl
          | inr no_first ↦ rw (self, no_last, no_upper, no_first, empty j) refl
        ]
      ]
    ]

-- The first table maps each page to the frame of its number.
boot_tables-first :
    (d t j : ℕ) (m : Tables)
    → t ≢ d
    → j < 1024
    → boot_tables d t (cleared_page d m) t j ≡ kernel_entry j zero_entry
unfolding boot_tables
boot_tables-first d t j m ne small =
    let self : (t == t) ≡ true = ground arith in
    let other : (t == d) ≡ false = ground arith in
    let inside : (leb 0 j && ltb j 1024) ≡ true = ground arith in
    rw (other, identity_table_lem 1024 0 t (cleared_page t (cleared_page d m)) t j, self, inside)
      refl

-- The first 4 MiB are mapped twice, at 0 and at the start of the higher half, and nothing else is mapped
-- between and behind them but the window of the tables.
pub record Booted (s : Vm) : Type 0 where
  pub low : (a : ℕ) → a < 2 ^ 22 → walk s.mem s.dir a ≡ some (a / 2 ^ 12, a % 2 ^ 12)
  pub high :
      (a : ℕ) → a < 2 ^ 22 → walk s.mem s.dir (0xC000_0000 + a) ≡ some (a / 2 ^ 12, a % 2 ^ 12)
  pub no_other :
      (a : ℕ) → a / 2 ^ 22 ≢ 0 → a / 2 ^ 22 ≢ 768 → a / 2 ^ 22 ≢ 1023 → walk s.mem s.dir a ≡ none
  pub sound : WellFormed s

pub boot_tables-Booted :
    (d t : ℕ) (frames : Frames) (s : Vm)
    → t ≢ d
    → Booted (record s { mem = boot_tables d t (cleared_page d s.mem); dir = d; frames = frames })
unfolding walk
boot_tables-Booted d t frames s ne = record {
  low = λ a small.
      let top : a / 2 ^ 22 ≡ 0 = omega arith in
      let slot : a / 2 ^ 12 % 2 ^ 10 ≡ a / 2 ^ 12 = omega arith in
      rw
        (
          walk,
          boot_tables-dir d t (a / 2 ^ 22) s.mem ne,
          top,
          slot,
          boot_tables-first d t (a / 2 ^ 12) s.mem ne (omega (arith, small)),
        )
        refl;
  high = λ a small.
      let top : (0xC000_0000 + a) / 2 ^ 22 ≡ 768 = omega arith in
      let slot : (0xC000_0000 + a) / 2 ^ 12 % 2 ^ 10 ≡ a / 2 ^ 12 = omega arith in
      let offset : (0xC000_0000 + a) % 2 ^ 12 ≡ a % 2 ^ 12 = omega arith in
      rw
        (
          walk,
          boot_tables-dir d t ((0xC000_0000 + a) / 2 ^ 22) s.mem ne,
          top,
          slot,
          offset,
          boot_tables-first d t (a / 2 ^ 12) s.mem ne (omega (arith, small)),
        )
        refl;
  no_other = λ a n0 n768 n1023.
      let e0 : (a / 2 ^ 22 == 0) ≡ false = ground arith in
      let e768 : (a / 2 ^ 22 == 768) ≡ false = ground arith in
      let e1023 : (a / 2 ^ 22 == 1023) ≡ false = ground arith in
      rw (walk, boot_tables-dir d t (a / 2 ^ 22) s.mem ne, e0, e768, e1023) refl;
  sound = record {
    recursive = record {
      present = ap (λ (p : Page). p.present == 0) (boot_tables-dir d t 1023 s.mem ne);
      itself = ap (λ (p : Page). p.frame) (boot_tables-dir d t 1023 s.mem ne);
    };
    apart = λ j nj. rw (boot_tables-dir d t j s.mem ne) (
        let last : (j == 1023) ≡ false = ground arith in
        rw last (elim (Bool-cases (j == 768)) [
          | inl upper ↦ rw upper (λ _. ne)
          | inr no_upper ↦ rw no_upper (elim (Bool-cases (j == 0)) [
            | inl first ↦ rw first (λ _. ne)
            | inr no_first ↦ rw no_first (λ h. absurd (cc h))
          ])
        ]));
  };
}

with_table_lem :
    (d t : ℕ) (frames : Frames) (s : Vm)
    → d < 1024 * 1024
    → t < 1023
    → t ≢ 0
    → with_table (d * 4096) (t * 4096, frames) (record s { mem = cleared_page d s.mem })
      ≡ started
          (record s { mem = boot_tables d t (cleared_page d s.mem); dir = d; frames = frames })
unfolding with_table
with_table_lem d t frames s small_d small_t nt =
    let dir : d * 4096 / 2 ^ 12 % 2 ^ 20 ≡ d = omega arith in
    let table : t * 4096 / 2 ^ 12 % 2 ^ 20 ≡ t = omega arith in
    let some_table : (t * 4096 == 0) ≡ false = ground (arith, nt) in
    let in_reach : boot_mapped t ≡ true = ground arith in rw (some_table, dir, table, in_reach) refl

with_directory_lem :
    (d t : ℕ) (frames : Frames) (s : Vm)
    → FirstFree (bitmap_set d frames) 0 (1024 * 1024) t
    → d < 1023
    → t < 1023
    → d ≢ 0
    → t ≢ 0
    → with_directory (d * 4096, bitmap_set d frames) s
      ≡ started (record s {
        mem = boot_tables d t (cleared_page d s.mem);
        dir = d;
        frames = bitmap_set t (bitmap_set d frames);
      })
unfolding with_directory
with_directory_lem d t frames s second small small_t nd nt =
    let dir : d * 4096 / 2 ^ 12 % 2 ^ 20 ≡ d = omega arith in
    let some_dir : (d * 4096 == 0) ≡ false = ground (arith, nd) in
    let in_reach : boot_mapped d ≡ true = ground arith in
    rw (with_directory, some_dir, dir, in_reach)
      (ap (λ (r : ℕ × Frames). with_table (d * 4096) r (record s { mem = cleared_page d s.mem }))
          (only_free (bitmap_set d frames) t second)
        ∙ with_table_lem d t (bitmap_set t (bitmap_set d frames)) s (omega (arith, small)) small_t
            nt)

-- the checks of `pmm_directory_init`
accepted :
    (flags : ℕ) (entries : List MmapEntry) (k_start k_end : ℕ) (s : Vm)
    → (flags / 2 ^ 6 % 2 == 0) ≡ false
    → pmm_directory_init multiboot_bootloader_magic flags entries k_start k_end s
      ≡ with_directory (pmm_alloc_frame_int (pmm_frames_init entries k_start k_end s.frames)) s
unfolding pmm_directory_init
accepted flags entries k_start k_end s map =
    ap
      (λ (b : Bool).
        if b
        then aborted
        else with_directory (pmm_alloc_frame_int (pmm_frames_init entries k_start k_end s.frames))
            s)
      map

-- The state that it starts: the directory in the frame `d`, the first page table in `t`.
pub pmm_directory_init-started :
    (flags : ℕ) (entries : List MmapEntry) (k_start k_end : ℕ) (s : Vm) (d t : ℕ)
    → (flags / 2 ^ 6 % 2 == 0) ≡ false
    → let frames = pmm_frames_init entries k_start k_end s.frames in
      FirstFree frames 0 (1024 * 1024) d
      → FirstFree (bitmap_set d frames) 0 (1024 * 1024) t
      → d < 1023
      → t < 1023
      → (pmm_directory_init multiboot_bootloader_magic flags entries k_start k_end s
          ≡ started (record s {
            mem = boot_tables d t (cleared_page d s.mem);
            dir = d;
            frames = bitmap_set t (bitmap_set d frames);
          }))
        × (t ≢ d)
pmm_directory_init-started flags entries k_start k_end s d t map first second in_d in_t =
    let frames = pmm_frames_init entries k_start k_end s.frames in
    let set : bitmap_test d (bitmap_set d frames) ≡ true = bitmap_test-bitmap_set d frames in
    let used = first_frame-used entries k_start k_end s.frames in
    let nd : d ≢ 0 = (λ e. absurd (cc (used, first.is_free, e))) in
    let nt : t ≢ 0 = (λ e. absurd (cc (bitmap_set-keeps 0 d frames used, second.is_free, e))) in
    (
      accepted flags entries k_start k_end s map
          ∙ ap (λ (r : ℕ × Frames). with_directory r s) (only_free frames d first)
          ∙ with_directory_lem d t frames s second in_d in_t nd nt,
      λ e. absurd (cc (set, second.is_free, e)),
    )

-- With the boot loader's magic number and a memory map, where two frames at least are free, the first
-- two, and both lie in the part of memory that boot.S maps, below frame 1023, `pmm_directory_init` neither
-- aborts nor faults. The page directory that it loads, in the first of them, maps
-- the first 4 MiB at 0 and again at the start of the higher half; its last entry and no other points
-- back to it, and outside the window of the tables no other address is mapped.
pub pmm_directory_init-Booted :
    (flags : ℕ) (entries : List MmapEntry) (k_start k_end : ℕ) (s : Vm) (d t : ℕ)
    → (flags / 2 ^ 6 % 2 == 0) ≡ false
    → let frames = pmm_frames_init entries k_start k_end s.frames in
      FirstFree frames 0 (1024 * 1024) d
      → FirstFree (bitmap_set d frames) 0 (1024 * 1024) t
      → d < 1023
      → t < 1023
      → (s' : Vm) × (pmm_directory_init multiboot_bootloader_magic flags entries k_start k_end s
          ≡ started s')
        × (s'.dir ≡ d)
        × Booted s'
pmm_directory_init-Booted flags entries k_start k_end s d t map first second in_d in_t =
    let frames2 = bitmap_set t (bitmap_set d (pmm_frames_init entries k_start k_end s.frames)) in
    let (e, ne) =
      pmm_directory_init-started flags entries k_start k_end s d t map first second in_d in_t in
    (
      record s { mem = boot_tables d t (cleared_page d s.mem); dir = d; frames = frames2 },
      e,
      refl,
      boot_tables-Booted d t frames2 s ne,
    )
