-- ===== src/Paging/Tests.antt =====
-- The frame allocator at concrete inputs.
use cho_os.Paging.Release.{pmm_free_page-pmm_alloc_frame_int}
use cho_os.Paging.Cache.Fresh.{IsCached, Served, pmm_alloc_page-Served}
use cho_os.Prelude.{
  all_below, all_below_lem, ℕ, zero, suc, ◌+◌, ◌*◌, ◌/◌, ◌<◌, ◌≡◌, ◌≢◌, refl, arith, ◌⊎◌, inl, inr,
  ap, true, ◌==◌, if◌then◌else◌,
}
use cho_os.Paging.Frames.{
  Frames, full_word, bitmap_set, bitmap_test, pmm_alloc_frame_int, pmm_alloc_page, pmm_free_page,
}
use cho_os.Paging.FirstFree.{
  AllUsed, FirstFree, pmm_alloc_frame_int-first, pmm_alloc_page-loses, words-AllUsed,
}

-- Frame 31 alone is free, and the cache is used up.
abbrev nearly_full : Frames
nearly_full = record {
  bitmap = λ i. if i == 0 then 0x7FFF_FFFF else full_word;
  pre_frames = λ i. 0;
  allocate = 0;
  pframe = 20;
}

full_after : (i : ℕ) → (bitmap_set 31 nearly_full).bitmap i ≡ full_word
unfolding bitmap_set
full_after zero = refl
full_after (suc i) = ground arith

nearly_full-FirstFree : FirstFree nearly_full 0 (1024 * 1024) 31
unfolding bitmap_test all_below
nearly_full-FirstFree = record {
  lower = omega arith;
  upper = omega arith;
  is_free = refl;
  before = record { used = λ b l u. all_below_lem 31 (λ b. bitmap_test b nearly_full) refl b u };
}

pmm_alloc_frame_int-first_example :
    (AllUsed nearly_full 0 (1024 * 1024) × (pmm_alloc_frame_int nearly_full ≡ (0, nearly_full)))
    ⊎ ((b : ℕ) × FirstFree nearly_full 0 (1024 * 1024) b
        × (pmm_alloc_frame_int nearly_full ≡ (b * 4096, bitmap_set b nearly_full)))
pmm_alloc_frame_int-first_example = pmm_alloc_frame_int-first nearly_full

pmm_alloc_page-loses_example :
    ((pmm_alloc_page nearly_full).0 ≡ 0)
    × ((pmm_alloc_page nearly_full).1.bitmap ≡ (bitmap_set 31 nearly_full).bitmap)
pmm_alloc_page-loses_example =
    pmm_alloc_page-loses nearly_full 31 refl nearly_full-FirstFree (omega arith)
      (words-AllUsed (bitmap_set 31 nearly_full) full_after (1024 * 1024))

first_in_use : bitmap_test 0 nearly_full ≡ true
unfolding bitmap_test
first_in_use = refl

-- The page that is free has an address that is not zero.
nearly_full-serves : (pmm_alloc_frame_int nearly_full).0 ≢ 0
nearly_full-serves e = elim (pmm_alloc_frame_int-first nearly_full) [
  | inl (all, none_left) ↦
      absurd (cc (all.used 31 (omega arith) (omega arith), nearly_full-FirstFree.is_free))
  | inr (zero, first, at) ↦ absurd (cc (first.is_free, first_in_use))
  | inr (suc b, first, at) ↦
      let page : (pmm_alloc_frame_int nearly_full).0 ≡ suc b * 4096 = ap (λ r. r.0) at in
      absurd (omega (arith, page, e))
]

pmm_free_page-pmm_alloc_frame_int_example :
    bitmap_test 31
      (pmm_free_page (pmm_alloc_frame_int nearly_full).0 (pmm_alloc_frame_int nearly_full).1)
    ≡ bitmap_test 31 nearly_full
pmm_free_page-pmm_alloc_frame_int_example =
    pmm_free_page-pmm_alloc_frame_int nearly_full (pmm_alloc_frame_int nearly_full).1
      (pmm_alloc_frame_int nearly_full).0 refl nearly_full-serves 31

-- All frames are in use, and twenty pages wait in the cache.
abbrev pub stocked : Frames
stocked = record {
  bitmap = λ i. full_word;
  pre_frames = λ i. (100 + i) * 4096;
  allocate = 0;
  pframe = 0;
}

pub stocked-used : (b : ℕ) → b < 1024 * 1024 → bitmap_test b stocked ≡ true
stocked-used b small = (words-AllUsed stocked (λ i. refl) (1024 * 1024)).used b (omega arith) small

pub stocked-IsCached : IsCached stocked
stocked-IsCached = record {
  within = omega arith;
  page = λ i w. record { pos = omega arith; aligned = omega arith; small = omega (arith, w.2) };
  in_use = λ i w. stocked-used ((100 + i) * 4096 / 4096) (omega (arith, w.2));
  differ = λ i j w lt top e. omega (arith, lt, e);
}

pmm_alloc_page-Served_example : Served stocked (pmm_alloc_page stocked)
pmm_alloc_page-Served_example = pmm_alloc_page-Served stocked stocked-IsCached
