-- ===== src/Paging/Vmm/Map.antt =====
-- What `vmm_page_map` does to the translations of all addresses.
use cho_os.Prelude.{
  ℕ, ◌/◌, ◌%◌, ◌^◌, ◌<◌, ◌≡◌, ◌≢◌, refl, ap, ◌∙◌, true, false, some, ◌==◌, if◌then◌else◌, List, ◌∷◌,
  arith, Bool-cases, ◌⊎◌, inl, inr,
}
use cho_os.Memory.Machine.{◌>>=◌}
use cho_os.Paging.Frames.{pmm_alloc_page}
use cho_os.Paging.Vmm.{
  Page, Vm, walk, put_page, set_entry, map_under, vmm_page_map, tlb_flush, flag,
}
use cho_os.Paging.Vmm.Walk.{load-get_pde_ptr}
use cho_os.Paging.Vmm.Entries.{
  pde_of, index_of, WellFormed, shares, upper_same, update-entry, walk-others, walk-changed,
  WellFormed-put,
}
use cho_os.Paging.Vmm.Create.{Unused, create_table_lem}

-- The page of `virt` is mapped, and it alone but for the window through which the tables are reached,
-- the last 4 MiB.
pub record Maps (phys virt flags : ℕ) (s s' : Vm) : Type 0 where
  pub mapped :
      (a : ℕ)
      → a / 2 ^ 12 ≡ virt / 2 ^ 12
      → walk s'.mem s'.dir a ≡ some (phys / 2 ^ 12 % 2 ^ 20, a % 2 ^ 12)
  pub others :
      (a : ℕ)
      → a / 2 ^ 22 ≢ 1023
      → shares s' a virt ≡ false
      → walk s'.mem s'.dir a ≡ walk s.mem s.dir a
  pub rights :
      let pte = s'.mem (pde_of s' virt).frame (index_of virt) in
      (pte.rw_bit ≡ flag 1 flags) × (pte.user ≡ flag 2 flags)
  pub flushes : (rest : List ℕ) × (s'.flushed ≡ virt ∷ rest)
  pub sound : WellFormed s'

-- The entry of an existing page table is filled in.
pub set_entry-Maps :
    (phys virt flags : ℕ) (s : Vm)
    → virt < 2 ^ 32
    → virt / 2 ^ 22 ≢ 1023
    → WellFormed s
    → ((pde_of s virt).present == 0) ≡ false
    → (s' : Vm) × (set_entry phys virt flags s ≡ some (0, s'))
      × Maps phys virt flags s s'
      × ((j : ℕ) → s'.mem s'.dir j ≡ s.mem s.dir j)
      × (s'.dir ≡ s.dir)
      × (s'.frames ≡ s.frames)
unfolding set_entry tlb_flush
set_entry-Maps phys virt flags s small user wf table =
    let f = (pde_of s virt).frame in
    let i = index_of virt in
    let ne : f ≢ s.dir = wf.apart (virt / 2 ^ 22) user table in
    let top : (s.dir == f) ≡ false = ground arith in
    let frame : (f == f) ≡ true = ground arith in
    let index : (i == i) ≡ true = ground arith in
    let fill = (λ (p : Page). record p {
      frame = phys / 2 ^ 12 % 2 ^ 20;
      present = 1;
      rw_bit = flag 1 flags;
      user = flag 2 flags;
    }) in
    let v = fill (s.mem f i) in
    let s' : Vm = record s { mem = put_page s.mem f i v; flushed = virt ∷ s.flushed } in
    (
      s',
      ap (λ o. o >>= λ s1. some (0, tlb_flush virt s1))
          (update-entry s virt fill small wf.recursive table),
      record {
        mapped = λ a e.
            let same = upper_same a virt e in
            let at : index_of a ≡ i = ap (λ (k : ℕ). k % 2 ^ 10) e in
            walk-changed s.mem s.dir f i a v ne (rw same table) (rw same refl) at;
        others = λ a window out. walk-others s.mem s.dir f i a v ne (rw top at out);
        rights = rw (top, frame, index) (refl, refl);
        flushes = (s.flushed, refl);
        sound = WellFormed-put s f i v (virt ∷ s.flushed) ne wf;
      },
      λ j. rw top refl,
      refl,
      refl,
    )

-- What has become of the directory: nothing, where there was a page table, or the one new entry.
pub record Linked (virt : ℕ) (s s' : Vm) : Type 0 where
  pub dir : s'.dir ≡ s.dir
  pub entries : (j : ℕ) → j ≢ virt / 2 ^ 22 → s'.mem s'.dir j ≡ s.mem s.dir j
  pub table :
      (((pde_of s virt).present == 0) ≡ false)
        × (pde_of s' virt ≡ pde_of s virt)
        × (s'.frames ≡ s.frames)
      ⊎ (((pde_of s virt).present == 0) ≡ true)
        × ((pde_of s' virt).frame ≡ (pmm_alloc_page s.frames).0 / 2 ^ 12 % 2 ^ 20)
        × (s'.frames ≡ (pmm_alloc_page s.frames).1)

pub vmm_page_map-Linked :
    (phys virt flags : ℕ) (s : Vm)
    → virt < 2 ^ 32
    → virt / 2 ^ 22 ≢ 1023
    → WellFormed s
    → (((pde_of s virt).present == 0) ≡ true → Unused (pmm_alloc_page s.frames).0 s)
    → (s' : Vm) × (vmm_page_map phys virt flags s ≡ some (0, s'))
      × Maps phys virt flags s s'
      × Linked virt s s'
unfolding vmm_page_map map_under
vmm_page_map-Linked phys virt flags s small user wf room =
    let found =
      ap (λ o. o >>= map_under phys virt flags s) (load-get_pde_ptr s virt small wf.recursive) in
    elim (Bool-cases ((pde_of s virt).present == 0)) [
      | inr table ↦
          let (s', e, maps, kept, dir, frames) =
            set_entry-Maps phys virt flags s small user wf table in
          (
            s',
            found ∙ rw (map_under, table) e,
            maps,
            record {
              dir = dir;
              entries = λ j ne. kept j;
              table = inl (table, kept (virt / 2 ^ 22), frames);
            },
          )
      | inl absent ↦
          let r = pmm_alloc_page s.frames in
          let (s1, e1, made, new, frames1) =
            create_table_lem virt (r.0) (r.1) s small user wf absent (room absent) in
          let (s', e, maps, kept, dir, frames) =
            set_entry-Maps phys virt flags s1 small user made.sound made.table in
          (
            s',
            found
                ∙ rw (map_under, absent)
                    (ap
                        (λ o.
                          o >>= λ r. if r.0 == 0 then set_entry phys virt flags (r.1) else some r)
                        e1
                      ∙ e),
            record {
              mapped = maps.mapped;
              others = λ a out shared. maps.others a out shared ∙ made.same a out;
              rights = maps.rights;
              flushes = maps.flushes;
              sound = maps.sound;
            },
            record {
              dir = dir ∙ made.dir;
              entries = λ j ne. kept j ∙ made.entries j ne;
              table = inr (
                absent,
                ap (λ (p : Page). p.frame) (kept (virt / 2 ^ 22)) ∙ new,
                frames ∙ frames1,
              );
            },
          )
    ]

-- `vmm_page_map` of an address below the window returns 0, with no page fault, where the last entry
-- of the directory and no other points back to the directory, and, if the address has no page table
-- yet, `pmm_alloc_page` gives a page that is none of the tables. Every address of the page then
-- translates to the given frame, with the rights that the flags say; an address outside the window
-- translates as before, unless it uses the same entry of the same table; the page is flushed last, and
-- the directory is still in order.
pub vmm_page_map-Maps :
    (phys virt flags : ℕ) (s : Vm)
    → virt < 2 ^ 32
    → virt / 2 ^ 22 ≢ 1023
    → WellFormed s
    → (((pde_of s virt).present == 0) ≡ true → Unused (pmm_alloc_page s.frames).0 s)
    → (s' : Vm) × (vmm_page_map phys virt flags s ≡ some (0, s')) × Maps phys virt flags s s'
vmm_page_map-Maps phys virt flags s small user wf room =
    let (s', e, maps, _) = vmm_page_map-Linked phys virt flags s small user wf room in (s', e, maps)
