-- ===== src/Kernel/Mapping.antt =====
-- `vmm_page_map` above the kernel's first page table, with the allocator behind it.
use cho_os.Prelude.{
  ℕ, ◌/◌, ◌%◌, ◌^◌, ◌<◌, ◌≡◌, ◌≢◌, refl, true, false, none, some, ◌==◌, ◌&&◌, ◌⊎◌, inl, inr, arith,
  Bool-cases, ap, sym, ◌∙◌, subst,
}
use cho_os.Paging.Frames.{pmm_alloc_page}
use cho_os.Paging.Cache.Fresh.{GivenOut, pmm_alloc_page-Served}
use cho_os.Kernel.Apart.{NewTables}
use cho_os.Paging.Vmm.{Vm, Page, walk, vmm_page_map, enomem}
use cho_os.Paging.Vmm.Entries.{pde_of, index_of}
use cho_os.Paging.Vmm.Map.{Maps, Linked, vmm_page_map-Linked}
use cho_os.Paging.Vmm.Range.{vmm_page_map-enomem, table-present}
use cho_os.Kernel.Tables.{IsUpper, Sound, frame_of, Served-Unused, Sound-same, Sound-linked}

-- The page of `virt`, and it alone outside the window of the tables, has got the frame `f`.
pub record Mapped (virt f : ℕ) (v v' : Vm) : Type 0 where
  pub here : (a : ℕ) → a / 2 ^ 12 ≡ virt / 2 ^ 12 → walk v'.mem v'.dir a ≡ some (f, a % 2 ^ 12)
  pub others :
      (a : ℕ)
      → a / 2 ^ 22 ≢ 1023
      → a / 2 ^ 12 ≢ virt / 2 ^ 12
      → walk v'.mem v'.dir a ≡ walk v.mem v.dir a
  pub sound : Sound v'
  pub keeps : (b : ℕ) → GivenOut v.frames b → GivenOut v'.frames b
  pub tables : NewTables v v'

-- what the call has done to the tables and the allocator
Linked-Sound :
    (phys virt flags : ℕ) (v v' : Vm)
    → Sound v
    → (((pde_of v virt).present == 0) ≡ true → (pmm_alloc_page v.frames).0 ≢ 0)
    → Maps phys virt flags v v'
    → Linked virt v v'
    → Sound v' × ((b : ℕ) → GivenOut v.frames b → GivenOut v'.frames b)
Linked-Sound phys virt flags v v' s room maps l = elim l.table [
  | inl (table, same, frames) ↦ (
    Sound-same v v' s l.dir
        (λ j. elim (Bool-cases (j == virt / 2 ^ 22)) [
          | inl e ↦ let at : j ≡ virt / 2 ^ 22 = ground arith in rw at same
          | inr ne ↦ l.entries j (ground arith)
        ])
        frames maps.sound,
    λ b g. subst (λ f. GivenOut f b) (sym frames) g,
  )
  | inr (absent, new, frames) ↦
      let served = pmm_alloc_page-Served v.frames s.cached in
      let ne = room absent in
      (
        Sound-linked v v' (virt / 2 ^ 22) (pmm_alloc_page v.frames).0 (pmm_alloc_page v.frames).1 s
            l.dir l.entries (new ∙ frame_of _ (served.page ne)) frames served ne maps.sound,
        λ b g. subst (λ f. GivenOut f b) (sym frames) (served.keeps b g),
      )
]

Linked-NewTables :
    (virt : ℕ) (v v' : Vm)
    → Sound v
    → (((pde_of v virt).present == 0) ≡ true → (pmm_alloc_page v.frames).0 ≢ 0)
    → Linked virt v v'
    → NewTables v v'
Linked-NewTables virt v v' s room l = record {
  dir = l.dir;
  old = λ j table g. elim (Bool-cases (j == virt / 2 ^ 22)) [
    | inr ne ↦
        let e = l.entries j (ground arith) in (j, rw e at table, ap (λ (p : Page). p.frame) (sym e))
    | inl here ↦
        let at : j ≡ virt / 2 ^ 22 = ground arith in
        elim l.table [
          | inl (_, same, _) ↦
              let e : v'.mem v'.dir j ≡ v.mem v.dir j = rw at same in
              (j, rw e at table, ap (λ (p : Page). p.frame) (sym e))
          | inr (absent, new, _) ↦
              let served = pmm_alloc_page-Served v.frames s.cached in
              let ne = room absent in
              let frame : (v'.mem v'.dir j).frame ≡ (pmm_alloc_page v.frames).0 / 4096 =
                ap (λ k. (v'.mem v'.dir k).frame) at ∙ new ∙ frame_of _ (served.page ne) in
              absurd (served.fresh ne (subst (GivenOut v.frames) frame g))
        ]
  ];
}

-- An address without a page table has no translation.
pub walk-absent : (v : Vm) (a : ℕ) → ((pde_of v a).present == 0) ≡ true → walk v.mem v.dir a ≡ none
unfolding walk
walk-absent v a absent = rw (walk, absent) refl

pub other_page :
    (a b : ℕ) → a / 2 ^ 22 ≡ b / 2 ^ 22 → a / 2 ^ 12 ≢ b / 2 ^ 12 → index_of a ≢ index_of b
other_page a b upper ne e = ne (omega (arith, upper, e))

-- An address of another page uses another entry, or none.
Linked-others :
    (phys virt flags : ℕ) (v v' : Vm)
    → IsUpper (virt / 2 ^ 22)
    → Sound v'
    → Maps phys virt flags v v'
    → Linked virt v v'
    → (a : ℕ) → a / 2 ^ 22 ≢ 1023
    → a / 2 ^ 12 ≢ virt / 2 ^ 12
    → walk v'.mem v'.dir a ≡ walk v.mem v.dir a
Linked-others phys virt flags v v' upper s maps l a window ne =
    elim (Bool-cases (a / 2 ^ 22 == virt / 2 ^ 22)) [
      | inl same ↦
          let e : a / 2 ^ 22 ≡ virt / 2 ^ 22 = ground arith in
          let index : (index_of a == index_of virt) ≡ false =
            ground (arith, other_page a virt e ne) in
          maps.others a window (rw index (ground arith))
      | inr apart ↦
          let o : a / 2 ^ 22 ≢ virt / 2 ^ 22 = ground arith in
          elim (Bool-cases ((pde_of v' a).present == 0)) [
            | inl absent ↦
                walk-absent v' a absent
                ∙ sym (walk-absent v a (rw (← l.entries (a / 2 ^ 22) o) absent))
            | inr table ↦
                let virt_table = table-present v' virt _ (maps.mapped virt refl) in
                let differ =
                  s.own (virt / 2 ^ 22) (a / 2 ^ 22) upper (λ e. o (sym e)) virt_table table in
                let frames : ((pde_of v' a).frame == (pde_of v' virt).frame) ≡ false =
                  ground (arith, differ) in
                maps.others a window (rw frames refl)
          ]
    ]

-- Where the address has a page table, or the allocator a page for it, the call succeeds.
pub vmm_page_map-Mapped :
    (phys virt flags : ℕ) (v : Vm)
    → virt < 2 ^ 32
    → IsUpper (virt / 2 ^ 22)
    → Sound v
    → (((pde_of v virt).present == 0) ≡ true → (pmm_alloc_page v.frames).0 ≢ 0)
    → (v' : Vm) × (vmm_page_map phys virt flags v ≡ some (0, v'))
      × Mapped virt (phys / 2 ^ 12 % 2 ^ 20) v v'
      × Linked virt v v'
vmm_page_map-Mapped phys virt flags v small upper s room =
    let user : virt / 2 ^ 22 ≢ 1023 = omega (arith, upper) in
    let served = pmm_alloc_page-Served v.frames s.cached in
    let (v', e, maps, linked) = vmm_page_map-Linked phys virt flags v small user s.tables (λ absent.
      Served-Unused v (pmm_alloc_page v.frames).1 (pmm_alloc_page v.frames).0 s served
        (room absent)) in
    let (sound, keeps) = Linked-Sound phys virt flags v v' s room maps linked in
    (
      v',
      e,
      record {
        here = maps.mapped;
        others = Linked-others phys virt flags v v' upper sound maps linked;
        sound = sound;
        keeps = keeps;
        tables = Linked-NewTables virt v v' s room linked;
      },
      linked,
    )

-- `vmm_page_map` of an address above the first page table either maps its page or runs out of memory.
pub vmm_page_map-cases :
    (phys virt flags : ℕ) (v : Vm)
    → virt < 2 ^ 32
    → IsUpper (virt / 2 ^ 22)
    → Sound v
    → ((v' : Vm) × (vmm_page_map phys virt flags v ≡ some (0, v'))
        × Mapped virt (phys / 2 ^ 12 % 2 ^ 20) v v')
      ⊎ (vmm_page_map phys virt flags v
          ≡ some (enomem, record v { frames = (pmm_alloc_page v.frames).1 }))
vmm_page_map-cases phys virt flags v small upper s =
    elim (Bool-cases (((pde_of v virt).present == 0) && ((pmm_alloc_page v.frames).0 == 0))) [
      | inl out ↦
          inr (vmm_page_map-enomem phys virt flags v small s.tables (ground arith) (ground arith))
      | inr room ↦
          let (v', e, maps, _) =
            vmm_page_map-Mapped phys virt flags v small upper s (λ absent. ground (arith, room)) in
          inl (v', e, maps)
    ]
