-- ===== src/Paging/Boot/Tests.antt =====
-- The start of paging on a machine with two free pages, behind the first megabyte.
use cho_os.Prelude.{
  ◌⊎◌, ◌≤◌, ◌<◌, ◌*◌, arith, ◌*◌, ◌≡◌, refl, true, List, [], ◌∷◌, arith, all_below, all_below_lem,
}
use cho_os.Paging.Frames.{
  Frames, MmapEntry, bitmap_set, bitmap_unset, bitmap_test, pmm_frames_init, free_entries,
  free_entry, free_range, use_range,
}
use cho_os.Paging.FirstFree.{FirstFree, only_free}
use cho_os.Paging.Protected.{pmm_frames_init-protects}
use cho_os.Paging.Vmm.{Vm, zero_entry}
use cho_os.Paging.Boot.{started, multiboot_bootloader_magic, pmm_directory_init}
use cho_os.Paging.Boot.Directory.{Booted, pmm_directory_init-Booted}

abbrev unset : Frames
unset = record { bitmap = λ i. 0; pre_frames = λ i. 0; allocate = 1; pframe = 0 }

abbrev pub dark : Vm
dark = record { mem = λ f i. zero_entry; dir = 0; frames = unset; flushed = [] }

abbrev pub two_pages : List MmapEntry
two_pages = record { available = true; addr_high = 0; addr_low = 0x10_0000; len_low = 0x2000 } ∷ []

abbrev at_start : Frames
at_start = pmm_frames_init two_pages 0 0 unset

pub first_page : FirstFree at_start 0 (1024 * 1024) 256
unfolding pmm_frames_init free_entries free_entry free_range use_range bitmap_set bitmap_unset
    bitmap_test all_below
first_page = record {
  lower = omega arith;
  upper = omega arith;
  is_free = refl;
  before = record { used = λ b l u. all_below_lem 256 (λ b. bitmap_test b at_start) refl b u };
}

pub second_page : FirstFree (bitmap_set 256 at_start) 0 (1024 * 1024) 257
unfolding pmm_frames_init free_entries free_entry free_range use_range bitmap_set bitmap_unset
    bitmap_test all_below
second_page = record {
  lower = omega arith;
  upper = omega arith;
  is_free = refl;
  before = record {
    used = λ b l u. all_below_lem 257 (λ b. bitmap_test b (bitmap_set 256 at_start)) refl b u;
  };
}

pmm_directory_init-Booted_example :
    (s' : Vm) × (pmm_directory_init multiboot_bootloader_magic 0x40 two_pages 0 0 dark ≡ started s')
    × (s'.dir ≡ 256)
    × Booted s'
pmm_directory_init-Booted_example =
    pmm_directory_init-Booted 0x40 two_pages 0 0 dark 256 257 refl first_page second_page
      (omega arith) (omega arith)

pmm_frames_init-protects_example : (256 * 4096 ≤ 0x10_0000) × ((256 < 0) ⊎ (0 < 256))
pmm_frames_init-protects_example =
    pmm_frames_init-protects two_pages 0 0 unset 0x10_0000 (bitmap_set 256 at_start)
      (only_free at_start 256 first_page) (λ (e : 0x10_0000 ≡ 0). omega (arith, e))
