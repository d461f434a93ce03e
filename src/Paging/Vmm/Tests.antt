-- ===== src/Paging/Vmm/Tests.antt =====
-- Mapping and unmapping pages at concrete inputs.
use cho_os.Prelude.{ℕ, ◌≡◌, refl, some, Bool-cases, inl, inr, ◌==◌, if◌then◌else◌, [], arith}
use cho_os.Paging.Frames.{Frames, pmm_alloc_page, check_spent, next_cached}
use cho_os.Paging.Vmm.{Vm, zero_entry, vmm_page_map, vmm_page_unmap, vmm_page_map_range}
use cho_os.Paging.Vmm.Entries.{WellFormed}
use cho_os.Paging.Vmm.Create.{Unused}
use cho_os.Paging.Vmm.Map.{Maps, vmm_page_map-Maps}
use cho_os.Paging.Vmm.Unmap.{Unmaps, vmm_page_unmap-Unmaps}
use cho_os.Paging.Vmm.Range.{vmm_page_map_range-Maps}

-- an allocator that has the page at `page` in its cache
abbrev cached : ℕ → Frames
cached page = record { bitmap = λ i. 0; pre_frames = λ i. page; allocate = 0; pframe = 0 }

-- The directory in frame 1 has its last entry only.
abbrev bare : ℕ → Vm
bare page = record {
  mem = λ f i.
      if f == 1
      then (if i == 1023 then record zero_entry { present = 1; frame = 1 } else zero_entry)
      else zero_entry;
  dir = 1;
  frames = cached page;
  flushed = [];
}

bare-WellFormed : (page : ℕ) → WellFormed (bare page)
bare-WellFormed page = record {
  recursive = record { present = refl; itself = refl };
  apart = λ j ne h. ground arith;
}

page-Unused : Unused (pmm_alloc_page (bare 0x5000).frames).0 (bare 0x5000)
unfolding pmm_alloc_page check_spent next_cached
page-Unused = record {
  valid = refl;
  not_dir = λ (e : 5 ≡ 1). omega (arith, e);
  not_table = λ j h. elim (Bool-cases (j == 1023)) [
    | inl last ↦ rw last λ (e : 1 ≡ 5). omega (arith, e)
    | inr other ↦ rw other λ (e : 0 ≡ 5). omega (arith, e)
  ];
}

vmm_page_map-Maps_example :
    (s' : Vm) × (vmm_page_map 0x9000 0x40_3000 2 (bare 0x5000) ≡ some (0, s'))
    × Maps 0x9000 0x40_3000 2 (bare 0x5000) s'
vmm_page_map-Maps_example =
    vmm_page_map-Maps 0x9000 0x40_3000 2 (bare 0x5000) (omega arith) (λ e. ground arith)
      (bare-WellFormed 0x5000) (λ h. page-Unused)

vmm_page_unmap-Unmaps_example :
    (code : ℕ) × (s' : Vm) × (vmm_page_unmap 0x40_3000 (bare 0) ≡ some (code, s'))
    × Unmaps 0x40_3000 code (bare 0) s'
vmm_page_unmap-Unmaps_example =
    vmm_page_unmap-Unmaps 0x40_3000 (bare 0) (omega arith) (λ e. ground arith) (bare-WellFormed 0)

vmm_page_map_range-Maps_example :
    (s' : Vm) × (vmm_page_map_range 0x9000 0x40_3000 4 2 (bare 0x5000) ≡ some (0, s'))
    × Maps 0x9000 0x40_3000 2 (bare 0x5000) s'
vmm_page_map_range-Maps_example =
    vmm_page_map_range-Maps 0x9000 0x40_3000 2 3 (bare 0x5000) (omega arith) (λ e. ground arith)
      (bare-WellFormed 0x5000) (λ h. page-Unused)
