-- ===== src/Paging/Vmm/Range.antt =====
-- What `vmm_page_map_range` maps.
use cho_os.Prelude.{
  ℕ, zero, suc, ◌/◌, ◌^◌, ◌<◌, ◌≡◌, ◌≢◌, refl, ap, ◌∙◌, true, false, some, ◌==◌, if◌then◌else◌,
  Bool-cases, inl, inr,
}
use cho_os.Memory.Machine.{◌>>=◌}
use cho_os.Paging.Frames.{pmm_alloc_page}
use cho_os.Paging.Vmm.{
  Page, Vm, walk, create_table, map_under, vmm_page_map, vmm_page_map_range, enomem,
}
use cho_os.Paging.Vmm.Walk.{load-get_pde_ptr}
use cho_os.Paging.Vmm.Entries.{pde_of, WellFormed}
use cho_os.Paging.Vmm.Create.{Unused}
use cho_os.Paging.Vmm.Map.{Maps, set_entry-Maps, vmm_page_map-Maps}

-- the pages after the first one
again :
    (phys virt flags count : ℕ) (s : Vm)
    → virt < 2 ^ 32
    → virt / 2 ^ 22 ≢ 1023
    → WellFormed s
    → ((pde_of s virt).present == 0) ≡ false
    → (s0 : Vm) → Maps phys virt flags s0 s
    → (s' : Vm) × (vmm_page_map_range phys virt count flags s ≡ some (0, s'))
      × Maps phys virt flags s0 s'
unfolding vmm_page_map_range vmm_page_map map_under
again phys virt flags zero s small user wf table s0 before = (s, refl, before)
again phys virt flags (suc count) s small user wf table s0 before =
    let found =
      ap (λ o. o >>= map_under phys virt flags s) (load-get_pde_ptr s virt small wf.recursive) in
    let (s1, e, maps, kept, _, _) = set_entry-Maps phys virt flags s small user wf table in
    let once : vmm_page_map phys virt flags s ≡ some (0, s1) = found ∙ rw (map_under, table) e in
    let next : (a : ℕ) → pde_of s1 a ≡ pde_of s a = (λ a. kept (a / 2 ^ 22)) in
    let after : Maps phys virt flags s0 s1 = record {
      mapped = maps.mapped;
      others = λ a window out.
          maps.others a window out ∙ before.others a window (rw (next a, next virt) at out);
      rights = maps.rights;
      flushes = maps.flushes;
      sound = maps.sound;
    } in
    let (s', e', all) =
      again phys virt flags count s1 small user maps.sound
        (ap (λ (p : Page). p.present == 0) (next virt) ∙ table) s0 after in
    (
      s',
      ap
            (λ o. o >>= λ r.
              if r.0 == 0 then vmm_page_map_range phys virt count flags (r.1) else some (1, r.1))
            once
          ∙ e',
      all,
    )

-- A translation has a page table.
pub table-present :
    (s : Vm) (a : ℕ) (x : ℕ × ℕ) → walk s.mem s.dir a ≡ some x → ((pde_of s a).present == 0) ≡ false
unfolding walk
table-present s a x e = elim (Bool-cases ((pde_of s a).present == 0)) [
  | inr table ↦ table
  | inl absent ↦ absurd (cc (rw (walk, absent) at e))
]

-- `vmm_page_map_range` for one or more pages returns 0 under the conditions of `vmm_page_map`, and
-- what it has done is what `vmm_page_map` promises for the first page: the pages behind it translate
-- as before, whatever the count.
pub vmm_page_map_range-Maps :
    (phys virt flags count : ℕ) (s : Vm)
    → virt < 2 ^ 32
    → virt / 2 ^ 22 ≢ 1023
    → WellFormed s
    → (((pde_of s virt).present == 0) ≡ true → Unused (pmm_alloc_page s.frames).0 s)
    → (s' : Vm) × (vmm_page_map_range phys virt (suc count) flags s ≡ some (0, s'))
      × Maps phys virt flags s s'
unfolding vmm_page_map_range
vmm_page_map_range-Maps phys virt flags count s small user wf room =
    let (s1, once, maps) = vmm_page_map-Maps phys virt flags s small user wf room in
    let table = table-present s1 virt _ (maps.mapped virt refl) in
    let (s', e, all) = again phys virt flags count s1 small user maps.sound table s maps in
    (
      s',
      ap
            (λ o. o >>= λ r.
              if r.0 == 0 then vmm_page_map_range phys virt count flags (r.1) else some (1, r.1))
            once
          ∙ e,
      all,
    )

-- Without a page table and without a page for it, only the allocator has moved on.
pub vmm_page_map-enomem :
    (phys virt flags : ℕ) (s : Vm)
    → virt < 2 ^ 32
    → WellFormed s
    → ((pde_of s virt).present == 0) ≡ true
    → (pmm_alloc_page s.frames).0 ≡ 0
    → vmm_page_map phys virt flags s
      ≡ some (enomem, record s { frames = (pmm_alloc_page s.frames).1 })
unfolding vmm_page_map map_under create_table
vmm_page_map-enomem phys virt flags s small wf absent full =
    ap (λ o. o >>= map_under phys virt flags s) (load-get_pde_ptr s virt small wf.recursive)
    ∙ rw (map_under, absent, create_table, full) refl

-- Where the address has no page table and `pmm_alloc_page` has no page, `vmm_page_map` returns ENOMEM
-- and `vmm_page_map_range`, for one or more pages, 1; neither changes a table or flushes a page.
pub vmm_page_map_range-enomem :
    (phys virt flags count : ℕ) (s : Vm)
    → virt < 2 ^ 32
    → WellFormed s
    → ((pde_of s virt).present == 0) ≡ true
    → (pmm_alloc_page s.frames).0 ≡ 0
    → (s' : Vm) × (vmm_page_map phys virt flags s ≡ some (enomem, s'))
      × (vmm_page_map_range phys virt (suc count) flags s ≡ some (1, s'))
      × (s'.mem ≡ s.mem)
      × (s'.dir ≡ s.dir)
      × (s'.flushed ≡ s.flushed)
unfolding vmm_page_map_range
vmm_page_map_range-enomem phys virt flags count s small wf absent full =
    let s' : Vm = record s { frames = (pmm_alloc_page s.frames).1 } in
    let once = vmm_page_map-enomem phys virt flags s small wf absent full in
    (
      s',
      once,
      ap
          (λ o. o >>= λ r.
            if r.0 == 0 then vmm_page_map_range phys virt count flags (r.1) else some (1, r.1))
          once,
      refl,
      refl,
      refl,
    )
