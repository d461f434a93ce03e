-- ===== src/Kernel/SelfTest/Passes.antt =====
-- The tests of the page tables pass, and what the first one leaves mapped.
use cho_os.Prelude.{
  ℕ, ◌/◌, ◌^◌, ◌≡◌, refl, true, false, Option, none, some, ◌==◌, if◌then◌else◌, inl, inr, arith,
  Bool-cases, ap, ◌∙◌,
}
use cho_os.Memory.Machine.{◌>>=◌, minus_one}
use cho_os.Paging.Frames.{pmm_alloc_page}
use cho_os.Paging.Cache.Fresh.{GivenOut, pmm_alloc_page-Served}
use cho_os.Paging.Vmm.{Vm, Page, walk, load, get_pte_ptr}
use cho_os.Paging.Vmm.Entries.{pde_of, index_of}
use cho_os.Paging.Vmm.Walk.{load-get_pte_ptr}
use cho_os.Paging.Vmm.Range.{table-present}
use cho_os.Paging.Vmm.Unmap.{vmm_page_unmap-Unmaps}
use cho_os.Kernel.Tables.{IsUpper, Sound, Sound-alloc}
use cho_os.Kernel.Unmapped.{Tree, unmapped-Tree, unmapped-others}
use cho_os.Kernel.SelfTest.{
  Ram, read, unmap_page, virt_a, virt_b, pattern_word, aliased, drop_aliases, check_aliases,
  test_vmm_aliasing, check_unmapped, check_unmapping, test_vmm_unmap_virt,
}
use cho_os.Kernel.SelfTest.Aliases.{
  Stocked, Stocked-alloc, Aliased, unmap_page_lem, read_lem, aliased-Aliased,
}

-- a frame that both addresses lead to, and its word
record Shared (f : ℕ) (r : Ram) : Type 0 where
  tree : Tree r.vm
  at_a : walk r.vm.mem r.vm.dir virt_a ≡ some (f, 0)
  at_b : walk r.vm.mem r.vm.dir virt_b ≡ some (f, 0)
  written : r.word f 0 ≡ pattern_word

Aliased-Shared : (f : ℕ) (r : Ram) → Aliased f r → Shared f r
Aliased-Shared f r a = record {
  tree = record { tables = a.sound.tables; own = a.sound.own };
  at_a = a.at_a virt_a refl;
  at_b = a.at_b virt_b refl;
  written = a.written;
}

read_a : (f : ℕ) (r : Ram) → Shared f r → read virt_a r ≡ some pattern_word
read_a f r s = read_lem virt_a f 0 r s.at_a ∙ ap some s.written

read_b : (f : ℕ) (r : Ram) → Shared f r → read virt_b r ≡ some pattern_word
read_b f r s = read_lem virt_b f 0 r s.at_b ∙ ap some s.written

-- Unmapping the address that is the word itself leaves both.
unmap_word :
    (f : ℕ) (r : Ram)
    → Shared f r
    → (code : ℕ) × (r' : Ram) × (unmap_page pattern_word r ≡ some (code, r')) × Shared f r'
unmap_word f r s =
    let (code, v, e, u) =
      vmm_page_unmap-Unmaps pattern_word r.vm (omega arith) (λ w. omega (arith, w)) s.tree.tables in
    let upper : IsUpper (pattern_word / 2 ^ 22) = (omega arith, omega arith) in
    let stays = unmapped-others pattern_word code r.vm v upper s.tree u in
    (
      code,
      record r { vm = v },
      unmap_page_lem pattern_word code r v e,
      record {
        tree = unmapped-Tree pattern_word code r.vm v s.tree u;
        at_a = stays virt_a (λ w. omega (arith, w)) ∙ s.at_a;
        at_b = stays virt_b (λ w. omega (arith, w)) ∙ s.at_b;
        written = s.written;
      },
    )

check_aliases-Shared :
    (f : ℕ) (r : Ram) → Shared f r → (r' : Ram) × (check_aliases r ≡ some (0, r')) × Shared f r'
unfolding check_aliases drop_aliases
check_aliases-Shared f r s =
    let (c1, r1, e1, s1) = unmap_word f r s in
    let (c2, r2, e2, s2) = unmap_word f r1 s1 in
    (
      r2,
      ap (λ o. o >>= λ b. if b == pattern_word then drop_aliases r else some (minus_one, r))
            (read_b f r s)
          ∙ ap
              (λ o. o >>= λ b. unmap_page b r >>= λ t1.
                read virt_a t1.1 >>= λ a. unmap_page a t1.1 >>= λ t2. some (0, t2.1))
              (read_b f r s)
          ∙ ap
              (λ o.
                o >>= λ t1. read virt_a t1.1 >>= λ a. unmap_page a t1.1 >>= λ t2. some (0, t2.1))
              e1
          ∙ ap (λ o. o >>= λ a. unmap_page a r1 >>= λ t2. some (0, t2.1)) (read_a f r1 s1)
          ∙ ap (λ o. o >>= λ t2. some (0, t2.1)) e2,
      s2,
    )

-- the page that a test begins with
module _ (r : Ram) (s : Sound r.vm) (stock : Stocked 3 r.vm.frames) where
  after_alloc : Ram
  after_alloc =
      let v : Vm = record (r.vm) { frames = (pmm_alloc_page r.vm.frames).1 } in record r { vm = v }

  begin_aliased :
      (r' : Ram) × (aliased (pmm_alloc_page r.vm.frames).0 after_alloc ≡ some r')
      × Aliased ((pmm_alloc_page r.vm.frames).0 / 4096) r'
  unfolding after_alloc
  begin_aliased =
      let served = pmm_alloc_page-Served r.vm.frames s.cached in
      let (ne, rest) = Stocked-alloc 2 r.vm.frames s.cached stock in
      aliased-Aliased (pmm_alloc_page r.vm.frames).0 after_alloc
        (Sound-alloc r.vm (pmm_alloc_page r.vm.frames).0 (pmm_alloc_page r.vm.frames).1 s served)
        (served.page ne) rest

  -- With three pages in the cache of the allocator, `test_vmm_aliasing` passes, with no page fault, where
  -- no frame that holds a table is free or waits in the cache. It unmaps neither of its two addresses,
  -- which lead to one frame afterwards, that was not given out before.
  pub test_vmm_aliasing-leaves :
      (f : ℕ) × (r' : Ram) × (test_vmm_aliasing r ≡ some (0, r'))
      × (walk r'.vm.mem r'.vm.dir virt_a ≡ some (f, 0))
      × (walk r'.vm.mem r'.vm.dir virt_b ≡ some (f, 0))
      × (GivenOut r.vm.frames f → ⊥)
  unfolding test_vmm_aliasing after_alloc
  test_vmm_aliasing-leaves =
      let page = (pmm_alloc_page r.vm.frames).0 in
      let served = pmm_alloc_page-Served r.vm.frames s.cached in
      let (ne, rest) = Stocked-alloc 2 r.vm.frames s.cached stock in
      let some_page : (page == 0) ≡ false = ground (arith, ne) in
      let (ra, ea, a) = begin_aliased in
      let (r', e, t) = check_aliases-Shared (page / 4096) ra (Aliased-Shared (page / 4096) ra a) in
      (
        page / 4096,
        r',
        rw some_page (ap (λ o. o >>= check_aliases) ea ∙ e),
        t.at_a,
        t.at_b,
        served.fresh ne,
      )

-- an address with a page table but no translation
pte-absent :
    (v : Vm) (a : ℕ)
    → ((pde_of v a).present == 0) ≡ false
    → walk v.mem v.dir a ≡ none
    → ((v.mem (pde_of v a).frame (index_of a)).present == 0) ≡ true
unfolding walk
pte-absent v a table e = elim (Bool-cases ((v.mem (pde_of v a).frame (index_of a)).present == 0)) [
  | inl absent ↦ absent
  | inr present ↦ absurd (cc (rw (walk, table, present) at e))
]

-- `virt_b` is unmapped, and the assertions behind it hold.
check_unmapping-Shared :
    (f : ℕ) (r : Ram)
    → Shared f r
    → (r' : Ram) × (check_unmapping r ≡ some (0, r'))
      × (walk r'.vm.mem r'.vm.dir virt_a ≡ some (f, 0))
      × (walk r'.vm.mem r'.vm.dir virt_b ≡ none)
      × (r'.word f 0 ≡ pattern_word)
unfolding check_unmapping check_unmapped
check_unmapping-Shared f r s =
    let (code, v, e, u) =
      vmm_page_unmap-Unmaps virt_b r.vm (omega arith) (λ w. omega (arith, w)) s.tree.tables in
    let upper : IsUpper (virt_b / 2 ^ 22) = (omega arith, omega arith) in
    let table = table-present r.vm virt_b (f, 0) s.at_b in
    let zero_code : code ≡ 0 = u.status ∙ rw table refl in
    let tree = unmapped-Tree virt_b code r.vm v s.tree u in
    let gone = u.gone virt_b refl in
    let at_a =
      unmapped-others virt_b code r.vm v upper s.tree u virt_a (λ w. omega (arith, w)) ∙ s.at_a in
    let table' : ((pde_of v virt_b).present == 0) ≡ false =
      rw (u.directory.1 (virt_b / 2 ^ 22)) table in
    let pte = v.mem (pde_of v virt_b).frame (index_of virt_b) in
    let off : (pte.present == 1) ≡ false = ground (arith, pte-absent v virt_b table' gone) in
    let r' : Ram = record r { vm = v } in
    let entry = load-get_pte_ptr v virt_b (omega arith) tree.tables.recursive table' in
    let last : Option Page → Option (ℕ × Ram) =
      (λ o. o >>= λ p. if p.present == 1 then some (minus_one, r') else some (0, r')) in
    (
      r',
      ap
            (λ o. o >>= λ b.
              if b == pattern_word
              then (unmap_page virt_b r >>= check_unmapped)
              else some (minus_one, r))
            (read_b f r s)
          ∙ ap (λ o. o >>= check_unmapped)
              (unmap_page_lem virt_b code r v e ∙ ap (λ c. some (c, r')) zero_code)
          ∙ ap
              (λ o. o >>= λ a.
                if a == pattern_word
                then last (load (get_pte_ptr virt_b) v)
                else some (minus_one, r'))
              (read_lem virt_a f 0 r' at_a ∙ ap some s.written)
          ∙ ap last entry
          ∙ rw off refl,
      at_a,
      gone,
      s.written,
    )

-- With three pages in the cache of the allocator, `test_vmm_unmap_virt` passes, with no page fault, where
-- no frame that holds a table is free or waits in the cache: of its two addresses for one frame the
-- second does not translate afterwards, and the first still does and reads the word.
pub test_vmm_unmap_virt-passes :
    (r : Ram)
    → Sound r.vm
    → Stocked 3 r.vm.frames
    → (f : ℕ) × (r' : Ram) × (test_vmm_unmap_virt r ≡ some (0, r'))
      × (walk r'.vm.mem r'.vm.dir virt_a ≡ some (f, 0))
      × (walk r'.vm.mem r'.vm.dir virt_b ≡ none)
      × (r'.word f 0 ≡ pattern_word)
unfolding test_vmm_unmap_virt after_alloc
test_vmm_unmap_virt-passes r s stock =
    let page = (pmm_alloc_page r.vm.frames).0 in
    let (ne, rest) = Stocked-alloc 2 r.vm.frames s.cached stock in
    let some_page : (page == 0) ≡ false = ground (arith, ne) in
    let (ra, ea, a) = begin_aliased r s stock in
    let (r', e, at_a, gone, word) =
      check_unmapping-Shared (page / 4096) ra (Aliased-Shared (page / 4096) ra a) in
    (page / 4096, r', rw some_page (ap (λ o. o >>= check_unmapping) ea ∙ e), at_a, gone, word)
