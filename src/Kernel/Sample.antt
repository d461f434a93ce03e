-- ===== src/Kernel/Sample.antt =====
-- A machine whose heap has sixteen pages behind the kernel's first 4 MiB, and whose allocator has
-- twenty pages at hand.
use cho_os.Prelude.{
  ℕ, ◌+◌, ◌*◌, ◌/◌, ◌%◌, ◌^◌, ◌<◌, ◌≡◌, refl, true, false, some, ltb, ◌==◌, ◌&&◌, if◌then◌else◌,
  ◌⊎◌, inl, inr, arith, [], ◌∷◌, ◌≤◌, sym, ◌∙◌, List, all_below, all_below_lem,
}
use cho_os.Memory.Machine.{Machine}
use cho_os.Memory.Heap.{kmalloc}
use cho_os.Memory.Heap.Spans.{vacant}
use cho_os.Memory.Heap.Chain.{IsHeap}
use cho_os.Paging.Tests.{stocked, stocked-used, stocked-IsCached}
use cho_os.Paging.Cache.Fresh.{GivenOut}
use cho_os.Paging.Vmm.{Vm, Page, zero_entry, walk}
use cho_os.Paging.Frames.{
  Frames, MmapEntry, bitmap_set, bitmap_unset, bitmap_test, pmm_frames_init, free_entries,
  free_entry, free_range, use_range,
}
use cho_os.Paging.FirstFree.{FirstFree}
use cho_os.Paging.Boot.Tests.{dark}
use cho_os.Kernel.Env.{Running, kernel_env}
use cho_os.Kernel.Tables.{IsTable, Sound}
use cho_os.Kernel.Break.{IsBacked}
use cho_os.Memory.Brk.{page_ceil}
use cho_os.Kernel.Growth.{some_frame}
use cho_os.Kernel.Separate.{Leads, IsApart}
use cho_os.Kernel.Kmalloc.{kmalloc-mapped}
use cho_os.Kernel.Runs.{enough_fuel, IsRunning}
use cho_os.Kernel.Faults.{IsGivingBack}
use cho_os.Kernel.SelfTest.{Ram}
use cho_os.Kernel.SelfTest.Aliases.{Stocked}

abbrev pub to_frame : ℕ → Page
to_frame f = record zero_entry { present = 1; frame = f }

-- The directory is in frame 1, the table of the heap in frame 2, its pages in the frames from 16 on.
abbrev pub entries : ℕ → ℕ → Page
entries f i =
    if f == 1
    then (if i == 1023 then to_frame 1 else if i == 769 then to_frame 2 else zero_entry)
    else if (f == 2) && ltb i 16
    then to_frame (16 + i)
    else zero_entry

abbrev pub paged : Vm
paged = record { mem = entries; dir = 1; frames = stocked; flushed = [] }

pub given_out : (b : ℕ) → b < 100 → GivenOut stocked b
given_out b small = record {
  used = stocked-used b (omega arith);
  left = λ i w (e : (100 + i) * 4096 ≡ b * 4096). omega (arith, e);
}

-- The two entries of the directory.
pub paged_table : (j : ℕ) → IsTable paged j → (j ≡ 1023) ⊎ (j ≡ 769)
paged_table j table = ground arith

pub paged-Sound : Sound paged
paged-Sound = record {
  cached = stocked-IsCached;
  tables = record {
    recursive = record { present = refl; itself = refl };
    apart = λ j ne table. elim (paged_table j table) [
      | inl e ↦ absurd (ne e)
      | inr e ↦ rw e (λ (f : 2 ≡ 1). omega (arith, f))
    ];
  };
  dir_given = given_out 1 (omega arith);
  given = λ j table. elim (paged_table j table) [
    | inl e ↦ rw e (given_out 1 (omega arith))
    | inr e ↦ rw e (given_out 2 (omega arith))
  ];
  own = λ i j upper differ ti tj. elim (paged_table i ti) [
    | inl e ↦ absurd (omega (arith, e, upper))
    | inr e ↦ elim (paged_table j tj) [
      | inl f ↦ rw (e, f) (λ (g : 2 ≡ 1). omega (arith, g))
      | inr f ↦ absurd (omega (arith, e, f, differ))
    ]
  ];
}

abbrev pub sample : Machine Running
sample = record {
  heap_start = 0xC040_0000;
  program_break_point = 0xC040_2800;
  block = λ a.
      if a == 0xC040_0000
      then record { next = 0xC040_27F8; eom = false; free = true }
      else record { next = 0; eom = true; free = false };
  bytes = λ a. 0;
  env = some paged;
}

sample_page :
    (a : ℕ)
    → 0xC040_0000 ≤ a
    → a < page_ceil 0xC040_2800
    → walk paged.mem paged.dir a ≡ some (16 + a / 2 ^ 12 % 2 ^ 10, a % 2 ^ 12)
unfolding walk
sample_page a lo hi =
    let table : a / 2 ^ 22 ≡ 769 = omega (arith, lo, hi) in
    let entry : ltb (a / 2 ^ 12 % 2 ^ 10) 16 ≡ true = ground (arith, lo, hi) in
    rw (table, entry) refl

pub sample-IsBacked : IsBacked sample paged
sample-IsBacked = record {
  memory = refl;
  sound = paged-Sound;
  above = omega arith;
  pages = λ a lo hi. (16 + a / 2 ^ 12 % 2 ^ 10, sample_page a lo hi);
}

pub giving_back : IsGivingBack 2 4096 sample
giving_back = record {
  whole = omega arith;
  signed = omega arith;
  enough = omega arith;
  within = omega arith;
  heap = omega arith;
  above = omega arith;
  high = omega arith;
}

abbrev pub same : Running → Running
same e = e

pub heap_page : walk paged.mem paged.dir 0xC040_1000 ≡ some (17, 0)
unfolding walk
heap_page = refl

abbrev pub ram : Ram
ram = record { vm = paged; word = λ f i. 0 }

pub three_pages : Stocked 3 stocked
three_pages = record { live = refl; rest = omega arith }

-- Six free pages from 0x120000 on, of which the image takes the first four.
abbrev pub six_pages : List MmapEntry
six_pages = record { available = true; addr_high = 0; addr_low = 0x12_0000; len_low = 0x6000 } ∷ []

abbrev pub at_start : Frames
at_start = pmm_frames_init six_pages 0x10_0000 0x12_3456 dark.frames

pub first_free : FirstFree at_start 0 (1024 * 1024) 292
unfolding pmm_frames_init free_entries free_entry free_range use_range bitmap_set bitmap_unset
    bitmap_test all_below
first_free = record {
  lower = omega arith;
  upper = omega arith;
  is_free = refl;
  before = record { used = λ b l u. all_below_lem 292 (λ b. bitmap_test b at_start) refl b u };
}

pub second_free : FirstFree (bitmap_set 292 at_start) 0 (1024 * 1024) 293
unfolding pmm_frames_init free_entries free_entry free_range use_range bitmap_set bitmap_unset
    bitmap_test all_below
second_free = record {
  lower = omega arith;
  upper = omega arith;
  is_free = refl;
  before = record {
    used = λ b l u. all_below_lem 293 (λ b. bitmap_test b (bitmap_set 292 at_start)) refl b u;
  };
}

pub sample-IsHeap : IsHeap sample (vacant 10224 ∷ [])
sample-IsHeap = record {
  chain = (record { eom = refl; free = refl; next = refl }, record { eom = refl; free = refl });
  ends = refl;
  high = omega arith;
  small = omega arith;
}

-- The page at `a` of the heap is in frame 16 + i, the tables are in the frames 1 and 2.
sample_frame :
    (a f : ℕ)
    → Leads sample paged a f
    → (f ≡ 16 + a / 2 ^ 12 % 2 ^ 10) × (a / 2 ^ 12 % 2 ^ 10 < 16) × (a / 2 ^ 22 ≡ 769)
sample_frame a f l =
    let below : a < page_ceil 0xC040_2800 = l.below in
    let from : 0xC040_0000 ≤ a = l.from in
    let is : 16 + a / 2 ^ 12 % 2 ^ 10 ≡ f = some_frame (sym (sample_page a from below) ∙ l.leads) in
    (sym is, omega (arith, from, below), omega (arith, from, below))

pub sample-IsApart : IsApart sample paged
sample-IsApart = record {
  given = λ a f l. let (e, small, _) = sample_frame a f l in given_out f (omega (arith, e, small));
  no_table = λ a f l.
      let (e, small, _) = sample_frame a f l in
      record {
        not_dir = λ (d : 1 ≡ f). omega (arith, d, e);
        not_table = λ j table d. elim (paged_table j table) [
          | inl at ↦ let d1 : 1 ≡ f = rw (at) at d in omega (arith, d1, e)
          | inr at ↦ let d2 : 2 ≡ f = rw (at) at d in omega (arith, d2, e)
        ];
      };
  distinct = λ a b f l k.
      let (e, i, x) = sample_frame a f l in
      let (d, j, y) = sample_frame b f k in omega (arith, e, d, i, j, x, y);
}

pub sample-IsRunning : IsRunning sample
sample-IsRunning = record {
  blocks = vacant 10224 ∷ [];
  memory = paged;
  heap = sample-IsHeap;
  backed = sample-IsBacked;
  apart = sample-IsApart;
  below = omega arith;
}

-- one request, which the free block serves
pub first_request :
    (r : ℕ × Machine Running) × (kmalloc (kernel_env same same) enough_fuel 100 sample ≡ some r)
first_request =
    let (r, v', e, backed, apart, below, cases) =
      kmalloc-mapped same same (λ v. refl) (λ v. refl) enough_fuel 100 sample paged
        (vacant 10224 ∷ []) sample-IsBacked sample-IsApart sample-IsHeap (omega arith) (omega arith)
        (omega arith) in
    (r, e)
