-- ===== src/Kernel/Shrink.antt =====
-- `sbrk` with a negative argument on the allocator and the page tables.
use cho_os.Prelude.{
  ℕ, zero, suc, ◌+◌, ◌-◌, ◌*◌, ◌/◌, ◌%◌, ◌^◌, ◌≤◌, ◌<◌, ◌≡◌, refl, true, false, some, ltb, leb,
  ◌==◌, arith, ap, sym, ◌∙◌, subst, subst₂, sub32,
}
use cho_os.Memory.Machine.{Machine, page_size, minus_one, ◌>>=◌}
use cho_os.Memory.Brk.{v2p, unmap_pages, decrement_brk, sbrk}
use cho_os.Paging.Frames.{pmm_free_page}
use cho_os.Paging.Vmm.{Vm, vmm_page_unmap}
use cho_os.Paging.Vmm.Unmap.{vmm_page_unmap-Unmaps}
use cho_os.Kernel.Env.{Running, free_on, unmap_on, kernel_env}
use cho_os.Kernel.Tables.{IsUpper}
use cho_os.Kernel.Break.{IsBacked}
use cho_os.Kernel.Unmapped.{
  Tree, unmapped-Tree, unmapped-others, Tree-frames, Shrunk-none, Shrunk-suc, Shrunk,
}

module _ (lock unlock : Running → Running) where
  one_round :
      (fuel new top addr code : ℕ) (m : Machine Running) (v v2 : Vm)
      → sub32 top page_size ≡ addr
      → leb new addr ≡ true
      → vmm_page_unmap addr (record v { frames = pmm_free_page (v2p addr) v.frames })
        ≡ some (code, v2)
      → unmap_pages
          (kernel_env lock unlock)
          (suc fuel)
          new
          (record m { program_break_point = top; env = some v })
        ≡ unmap_pages
            (kernel_env lock unlock)
            fuel
            new
            (record m { program_break_point = addr; env = some v2 })
  unfolding unmap_pages free_on unmap_on
  one_round fuel new top addr code m v v2 at more e = rw (at, more, e) refl

  ended :
      (fuel decrement new : ℕ) (m m' : Machine Running)
      → sub32 m.program_break_point decrement ≡ new
      → ltb new m.heap_start ≡ false
      → unmap_pages (kernel_env lock unlock) fuel new m ≡ some m'
      → decrement_brk (kernel_env lock unlock) fuel decrement m ≡ some (m.program_break_point, m')
  unfolding decrement_brk
  ended fuel decrement new m m' at low e =
      rw (at, low) (ap (λ o. o >>= λ m2. some (m.program_break_point, m2)) e)

  -- The loop, which goes on while a whole page lies between the break and where it is to be.
  unmap_pages-Shrunk :
      (n fuel rest : ℕ) (m : Machine Running) (top : ℕ) (v : Vm)
      → n < fuel
      → rest < 4096
      → 769 * 2 ^ 22 + n * 4096 + rest ≤ top
      → top ≤ 1023 * 2 ^ 22
      → Tree v
      → (v' : Vm) × (unmap_pages
            (kernel_env lock unlock)
            fuel
            (top - n * 4096 - rest)
            (record m { program_break_point = top; env = some v })
          ≡ some (record m { program_break_point = top - n * 4096; env = some v' }))
        × Shrunk top n v v'
  unfolding unmap_pages free_on unmap_on
  unmap_pages-Shrunk n zero rest m top v enough small room high t = absurd (omega arith)
  unmap_pages-Shrunk zero (suc fuel) rest m top v enough small room high t =
      let done : leb (top - 0 * 4096 - rest) (sub32 top page_size) ≡ false = ground arith in
      let still : top ≡ top - 0 * 4096 = omega arith in
      (
        v,
        rw done (ap (λ p. some (record m { program_break_point = p; env = some v })) still),
        Shrunk-none top v t,
      )
  unmap_pages-Shrunk (suc n) (suc fuel) rest m top v enough small room high t =
      let addr : sub32 top page_size ≡ top - 4096 = omega arith in
      let more : leb (top - suc n * 4096 - rest) (top - 4096) ≡ true = ground arith in
      let v1 : Vm = record v { frames = pmm_free_page (v2p (top - 4096)) v.frames } in
      let t1 = Tree-frames v v1.frames t in
      let upper : IsUpper ((top - 4096) / 2 ^ 22) = (omega arith, omega arith) in
      let (code, v2, e, u) =
        vmm_page_unmap-Unmaps (top - 4096) v1 (omega arith) (omega (arith, upper)) t1.tables in
      let t2 = unmapped-Tree (top - 4096) code v1 v2 t1 u in
      let (v', e', s) =
        unmap_pages-Shrunk n fuel rest m (top - 4096) v2 (omega arith) small (omega arith)
          (omega arith) t2 in
      let to : top - 4096 - n * 4096 ≡ top - suc n * 4096 = omega arith in
      (
        v',
        one_round fuel (top - suc n * 4096 - rest) top (top - 4096) code m v v2 addr more e
            ∙ subst
                (λ p.
                  unmap_pages (kernel_env lock unlock) fuel (p - rest)
                    (record m { program_break_point = top - 4096; env = some v2 })
                  ≡ some (record m { program_break_point = p; env = some v' }))
                to e',
        Shrunk-suc top n code v v1 v2 v' (omega arith) high refl u
            (unmapped-others (top - 4096) code v1 v2 upper t1 u) s,
      )

  decrement_brk-Shrunk :
      (fuel decrement : ℕ) (m : Machine Running) (v : Vm)
      → decrement / 4096 < fuel
      → IsBacked m v
      → decrement ≤ m.program_break_point
      → m.heap_start ≤ m.program_break_point - decrement
      → 0xC040_0000 ≤ m.program_break_point - decrement
      → m.program_break_point ≤ 1023 * 2 ^ 22
      → (v' : Vm) × (decrement_brk (kernel_env lock unlock) fuel decrement m
          ≡ some (
            m.program_break_point,
            record m {
              program_break_point = m.program_break_point - decrement / 4096 * 4096;
              env = some v';
            },
          ))
        × Shrunk m.program_break_point (decrement / 4096) v v'
  decrement_brk-Shrunk fuel decrement m v enough b within above room high =
      let top = m.program_break_point in
      let n = decrement / 4096 in
      let to : sub32 top decrement ≡ top - decrement = omega arith in
      let low : ltb (top - decrement) m.heap_start ≡ false = ground arith in
      let split : top - n * 4096 - decrement % 4096 ≡ top - decrement = omega arith in
      let same : record m { program_break_point = top; env = some v } ≡ m =
        ap (λ e. record m { env = e }) (sym b.memory) in
      let (v', e, s) =
        unmap_pages-Shrunk n fuel (decrement % 4096) m top v enough (omega arith) (omega arith) high
          (record { tables = b.sound.tables; own = b.sound.own }) in
      let loop : unmap_pages (kernel_env lock unlock) fuel (top - decrement) m
          ≡ some (record m { program_break_point = top - n * 4096; env = some v' }) =
        subst₂
          (λ p k.
            unmap_pages (kernel_env lock unlock) fuel p k
            ≡ some (record m { program_break_point = top - n * 4096; env = some v' }))
          split same e in
      (v', ended fuel decrement (top - decrement) m _ to low loop, s)

  pub sbrk-negative :
      (fuel decrement : ℕ) (m : Machine Running)
      → 0 < decrement
      → decrement ≤ 2 ^ 31
      → sbrk (kernel_env lock unlock) fuel (2 ^ 32 - decrement) m
        ≡ decrement_brk (kernel_env lock unlock) fuel decrement m
  unfolding sbrk
  sbrk-negative fuel decrement m pos signed =
      let some_less : (2 ^ 32 - decrement == 0) ≡ false = ground arith in
      let negative : ltb (2 ^ 32 - decrement) (2 ^ 31) ≡ false = ground arith in
      let back : sub32 0 (2 ^ 32 - decrement) ≡ decrement = omega arith in
      rw (some_less, negative, back) refl

  pub decrement_brk-refused :
      (fuel decrement : ℕ) (m : Machine Running)
      → sub32 m.program_break_point decrement < m.heap_start
      → decrement_brk (kernel_env lock unlock) fuel decrement m ≡ some (minus_one, m)
  unfolding decrement_brk
  decrement_brk-refused fuel decrement m low =
      let below : ltb (sub32 m.program_break_point decrement) m.heap_start ≡ true = ground arith in
      rw below refl

  -- `sbrk` of a negative number of bytes, with more fuel than pages are given back, for a heap whose
  -- pages all have frames and whose break stays in the heap and behind the kernel's first 4 MiB, ends
  -- with no page fault and returns the old break. The break is lower by the whole pages of the request.
  -- As many pages, counted from the one below that of the old break, translate no more; every other
  -- address translates as before. The frames that are marked free by it are those that V2P makes of the
  -- pages, whichever frames the pages had: every other frame keeps its mark.
  pub sbrk-Shrunk :
      (fuel decrement : ℕ) (m : Machine Running) (v : Vm)
      → 0 < decrement
      → decrement ≤ 2 ^ 31
      → decrement / 4096 < fuel
      → IsBacked m v
      → decrement ≤ m.program_break_point
      → m.heap_start ≤ m.program_break_point - decrement
      → 0xC040_0000 ≤ m.program_break_point - decrement
      → m.program_break_point ≤ 1023 * 2 ^ 22
      → (v' : Vm) × (sbrk (kernel_env lock unlock) fuel (2 ^ 32 - decrement) m
          ≡ some (
            m.program_break_point,
            record m {
              program_break_point = m.program_break_point - decrement / 4096 * 4096;
              env = some v';
            },
          ))
        × Shrunk m.program_break_point (decrement / 4096) v v'
  sbrk-Shrunk fuel decrement m v pos signed enough b within heap above high =
      let (v', e, s) = decrement_brk-Shrunk fuel decrement m v enough b within heap above high in
      (v', sbrk-negative fuel decrement m pos signed ∙ e, s)
