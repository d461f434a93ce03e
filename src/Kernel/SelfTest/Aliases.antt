-- ===== src/Kernel/SelfTest/Aliases.antt =====
-- Two addresses for one frame, as the kernel's tests make them.
use cho_os.Prelude.{
  ℕ, suc, ◌+◌, ◌/◌, ◌%◌, ◌^◌, ◌≤◌, ◌≡◌, ◌≢◌, refl, false, some, ◌==◌, ◌&&◌, if◌then◌else◌, inl, inr,
  arith, ap, sym, ◌∙◌, subst,
}
use cho_os.Memory.Machine.{◌>>=◌}
use cho_os.Paging.Frames.{Frames, pmm_alloc_page, check_spent, next_cached}
use cho_os.Paging.Cache.Fresh.{IsPage, IsCached}
use cho_os.Paging.Vmm.{Vm, walk, vmm_page_map, vmm_page_unmap}
use cho_os.Paging.Vmm.Map.{Linked}
use cho_os.Kernel.Tables.{Sound, frame_of}
use cho_os.Kernel.Mapping.{vmm_page_map-Mapped}
use cho_os.Kernel.SelfTest.{
  Ram, read, write, map_page, unmap_page, virt_a, virt_b, pattern_word, aliased,
}

-- The cache has `n` pages at least.
pub record Stocked (n : ℕ) (f : Frames) : Type 0 where
  pub live : (f.allocate == 1) ≡ false
  pub rest : f.pframe + n ≤ 20

pub Stocked-alloc :
    (n : ℕ) (f : Frames)
    → IsCached f
    → Stocked (suc n) f
    → ((pmm_alloc_page f).0 ≢ 0) × Stocked n (pmm_alloc_page f).1
unfolding pmm_alloc_page check_spent next_cached
Stocked-alloc n f c s =
    let more : (f.pframe == 20) ≡ false = ground (arith, s.rest) in
    let page = c.page f.pframe (s.live, omega arith, omega (arith, s.rest)) in
    let pos = page.pos in
    rw (more, s.live)
      (λ e. omega (arith, e, pos), record { live = s.live; rest = omega (arith, s.rest) })

Stocked-less : (n : ℕ) (f : Frames) → Stocked (suc n) f → Stocked n f
Stocked-less n f s = record { live = s.live; rest = omega (arith, s.rest) }

-- A mapping takes one page at most.
Stocked-map :
    (n virt : ℕ) (v v' : Vm)
    → IsCached v.frames
    → Stocked (suc n) v.frames
    → Linked virt v v'
    → Stocked n v'.frames
Stocked-map n virt v v' c s l = elim l.table [
  | inl (table, same, frames) ↦ subst (Stocked n) (sym frames) (Stocked-less n v.frames s)
  | inr (absent, new, frames) ↦ subst (Stocked n) (sym frames) (Stocked-alloc n v.frames c s).1
]

-- Both addresses lead to the frame `f`, which holds the word.
pub record Aliased (f : ℕ) (r : Ram) : Type 0 where
  pub sound : Sound r.vm
  pub at_a :
      (x : ℕ) → x / 2 ^ 12 ≡ virt_a / 2 ^ 12 → walk r.vm.mem r.vm.dir x ≡ some (f, x % 2 ^ 12)
  pub at_b :
      (x : ℕ) → x / 2 ^ 12 ≡ virt_b / 2 ^ 12 → walk r.vm.mem r.vm.dir x ≡ some (f, x % 2 ^ 12)
  pub written : r.word f 0 ≡ pattern_word

map_page_lem :
    (phys virt status : ℕ) (r : Ram) (v : Vm)
    → vmm_page_map phys virt 3 r.vm ≡ some (status, v)
    → map_page phys virt r ≡ some (record r { vm = v })
unfolding map_page
map_page_lem phys virt status r v e = ap (λ o. o >>= λ s. some (record r { vm = s.1 })) e

pub unmap_page_lem :
    (virt status : ℕ) (r : Ram) (v : Vm)
    → vmm_page_unmap virt r.vm ≡ some (status, v)
    → unmap_page virt r ≡ some (status, record r { vm = v })
unfolding unmap_page
unmap_page_lem virt status r v e = ap (λ o. o >>= λ s. some (s.0, record r { vm = s.1 })) e

pub read_lem :
    (ptr f x : ℕ) (r : Ram)
    → walk r.vm.mem r.vm.dir ptr ≡ some (f, x)
    → read ptr r ≡ some (r.word f x)
unfolding read
read_lem ptr f x r e = ap (λ o. o >>= λ at. some (r.word at.0 at.1)) e

-- With two pages in the cache for page tables, both mappings succeed, and nothing faults.
pub aliased-Aliased :
    (page : ℕ) (r : Ram)
    → Sound r.vm
    → IsPage page
    → Stocked 2 r.vm.frames
    → (r' : Ram) × (aliased page r ≡ some r') × Aliased (page / 4096) r'
unfolding aliased write
aliased-Aliased page r s p stock =
    let f = page / 4096 in
    let frame = frame_of page p in
    let (v1, e1, m1, l1) =
      vmm_page_map-Mapped page virt_a 3 r.vm (omega arith) (omega arith, omega arith) s
        (λ absent. (Stocked-alloc 1 r.vm.frames s.cached stock).0) in
    let stock1 = Stocked-map 1 virt_a r.vm v1 s.cached stock l1 in
    let (v2, e2, m2, l2) =
      vmm_page_map-Mapped page virt_b 3 v1 (omega arith) (omega arith, omega arith) m1.sound
        (λ absent. (Stocked-alloc 0 v1.frames m1.sound.cached stock1).0) in
    let a_here = (λ (x : ℕ) (e : x / 2 ^ 12 ≡ virt_a / 2 ^ 12).
      m2.others x (λ w. omega (arith, e, w)) (λ o. omega (arith, e, o))
      ∙ m1.here x e
      ∙ ap (λ g. some (g, x % 2 ^ 12)) frame) in
    let r2 : Ram = record r { vm = v2 } in
    let r' : Ram = record r2 {
      word = λ g i. if (g == f) && (i == 0) then pattern_word else r.word g i;
    } in
    (
      r',
      ap (λ o. o >>= λ r1. map_page page virt_b r1 >>= λ r2. write virt_a pattern_word r2)
            (map_page_lem page virt_a 0 r v1 e1)
          ∙ ap (λ o. o >>= λ r2. write virt_a pattern_word r2)
              (map_page_lem page virt_b 0 (record r { vm = v1 }) v2 e2)
          ∙ ap
              (λ o. o >>= λ at. some (record r2 {
                word = λ g i. if (g == at.0) && (i == at.1) then pattern_word else r.word g i;
              }))
              (a_here virt_a refl),
      record {
        sound = m2.sound;
        at_a = a_here;
        at_b = λ x e. m2.here x e ∙ ap (λ g. some (g, x % 2 ^ 12)) frame;
        written = ground arith;
      },
    )
