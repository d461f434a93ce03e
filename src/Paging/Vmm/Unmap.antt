-- ===== src/Paging/Vmm/Unmap.antt =====
-- What `vmm_page_unmap` does to the translations of all addresses.
use cho_os.Prelude.{
  ℕ, ◌-◌, ◌/◌, ◌%◌, ◌^◌, ◌<◌, ◌≡◌, ◌≢◌, refl, ap, ◌∙◌, true, false, none, some, ◌==◌, ◌||◌,
  if◌then◌else◌, ◌∷◌, Bool-cases, inl, inr, arith,
}
use cho_os.Memory.Machine.{◌>>=◌}
use cho_os.Paging.Vmm.{
  Page, Vm, walk, put_page, vmm_page_unmap, unmap_under, clear_entry, tlb_flush,
}
use cho_os.Paging.Vmm.Walk.{load-get_pde_ptr, load-get_pte_ptr}
use cho_os.Paging.Vmm.Entries.{
  pde_of, index_of, WellFormed, shares, upper_same, update-entry, walk-others, walk-changed,
  WellFormed-put,
}

-- No address of the page translates any more, and no other entry of a table has changed.
pub record Unmaps (virt code : ℕ) (s s' : Vm) : Type 0 where
  pub status : code ≡ (if (pde_of s virt).present == 0 then 2 ^ 32 - 1 else 0)
  pub gone : (a : ℕ) → a / 2 ^ 12 ≡ virt / 2 ^ 12 → walk s'.mem s'.dir a ≡ none
  pub others : (a : ℕ) → shares s a virt ≡ false → walk s'.mem s'.dir a ≡ walk s.mem s.dir a
  pub sound : WellFormed s'
  pub directory : (s'.dir ≡ s.dir) × ((j : ℕ) → s'.mem s'.dir j ≡ s.mem s.dir j)
  pub frames : s'.frames ≡ s.frames
  pub idle : ((pde_of s virt).present == 0) ≡ true → s' ≡ s

-- without a page table, or without an entry in it
walk-absent :
    (s : Vm) (virt a : ℕ)
    → (let pde = pde_of s virt in
        (pde.present == 0) || ((s.mem pde.frame (index_of virt)).present == 0))
      ≡ true
    → a / 2 ^ 12 ≡ virt / 2 ^ 12
    → walk s.mem s.dir a ≡ none
unfolding walk
walk-absent s virt a absent e =
    let upper = upper_same a virt e in
    let at : index_of a ≡ index_of virt = ap (λ (k : ℕ). k % 2 ^ 10) e in
    rw (walk, upper, at, absent) refl

-- `vmm_page_unmap` of an address below the window returns -1 and changes nothing if there is no page
-- table for it, and 0 otherwise, with no page fault, where the last entry of the directory and no other
-- points back to the directory. No address of its page translates any more, every address that uses
-- another entry translates as before, the entries of the directory and the frame allocator are as they
-- were, and the directory is still in order.
pub vmm_page_unmap-Unmaps :
    (virt : ℕ) (s : Vm)
    → virt < 2 ^ 32
    → virt / 2 ^ 22 ≢ 1023
    → WellFormed s
    → (code : ℕ) × (s' : Vm) × (vmm_page_unmap virt s ≡ some (code, s')) × Unmaps virt code s s'
unfolding vmm_page_unmap unmap_under clear_entry tlb_flush
vmm_page_unmap-Unmaps virt s small user wf =
    let found = ap (λ o. o >>= unmap_under virt s) (load-get_pde_ptr s virt small wf.recursive) in
    elim (Bool-cases ((pde_of s virt).present == 0)) [
      | inl absent ↦ (
        2 ^ 32 - 1,
        s,
        found ∙ rw (unmap_under, absent) refl,
        record {
          status = rw absent refl;
          gone = λ a e. walk-absent s virt a (rw absent refl) e;
          others = λ a out. refl;
          sound = wf;
          directory = (refl, λ j. refl);
          frames = refl;
          idle = λ h. refl;
        },
      )
      | inr table ↦
          let f = (pde_of s virt).frame in
          let i = index_of virt in
          let ne : f ≢ s.dir = wf.apart (virt / 2 ^ 22) user table in
          let top : (s.dir == f) ≡ false = ground arith in
          let entry =
            ap (λ o. o >>= clear_entry virt s) (load-get_pte_ptr s virt small wf.recursive table) in
          elim (Bool-cases ((s.mem f i).present == 0)) [
            | inl empty ↦ (
              0,
              s,
              found ∙ rw (unmap_under, table) (entry ∙ rw (clear_entry, empty) refl),
              record {
                status = rw table refl;
                gone = λ a e. walk-absent s virt a (rw (table, empty) refl) e;
                others = λ a out. refl;
                sound = wf;
                directory = (refl, λ j. refl);
                frames = refl;
                idle = λ h. refl;
              },
            )
            | inr there ↦
                let clear = (λ (p : Page). record p { present = 0; frame = 0 }) in
                let v = clear (s.mem f i) in
                (
                  0,
                  record s { mem = put_page s.mem f i v; flushed = virt ∷ s.flushed },
                  found
                      ∙ rw (unmap_under, table)
                          (entry
                            ∙ rw (clear_entry, there)
                                (ap (λ o. o >>= λ s1. some (0, tlb_flush virt s1))
                                  (update-entry s virt clear small wf.recursive table))),
                  record {
                    status = rw table refl;
                    gone = λ a e.
                        let same = upper_same a virt e in
                        let at : index_of a ≡ i = ap (λ (k : ℕ). k % 2 ^ 10) e in
                        walk-changed s.mem s.dir f i a v ne (rw same table) (rw same refl) at;
                    others = λ a out. walk-others s.mem s.dir f i a v ne out;
                    sound = WellFormed-put s f i v (virt ∷ s.flushed) ne wf;
                    directory = (refl, λ j. rw top refl);
                    frames = refl;
                    idle = λ h. absurd (cc (table, h));
                  },
                )
          ]
    ]
