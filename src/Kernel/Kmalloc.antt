-- ===== src/Kernel/Kmalloc.antt =====
-- `kmalloc` on the allocator and the page tables.
use cho_os.Prelude.{
  ℕ, ◌+◌, ◌*◌, ◌%◌, ◌^◌, ◌≤◌, ◌<◌, ◌≡◌, refl, false, Option, some, ◌==◌, ◌⊎◌, inl, inr, List,
  length, arith, ap, ◌∙◌, subst, add32,
}
use cho_os.Memory.Machine.{Machine, ◌>>=◌, header_size, minus_one}
use cho_os.Memory.Brk.{sbrk, page_ceil}
use cho_os.Memory.Heap.{
  align, fit, last, out_of_fuel, find_fit, set_free, set_next, set_metadata, heap_block_split,
  extend, kmalloc_grow, kmalloc,
}
use cho_os.Memory.Heap
use cho_os.Memory.Heap.Spans
use cho_os.Memory.Heap.Spans.{Span, place, place_offset, place-inside}
use cho_os.Memory.Heap.Chain.{IsHeap}
use cho_os.Memory.Heap.Fit.{hit, miss, find_fit-Search}
use cho_os.Memory.Heap.Split.{heap_block_split-block}
use cho_os.Memory.Heap.Kmalloc.{Served, Denied, kmalloc-fit, kmalloc-last, kmalloc_refines}
use cho_os.Paging.Vmm.{Vm, walk}
use cho_os.Kernel.Env.{Running, kernel_env}
use cho_os.Kernel.Break.{IsBacked, Requested, sbrk-Requested}
use cho_os.Kernel.Separate.{IsApart, IsApart-same, Survived-IsApart, Extended-IsApart}

-- Headers and payload do not matter to it.
pub IsBacked-same :
    (m m' : Machine Running) (v : Vm)
    → IsBacked m v
    → m'.env ≡ some v
    → m'.program_break_point ≡ m.program_break_point
    → m'.heap_start ≡ m.heap_start
    → IsBacked m' v
IsBacked-same m m' v b env to start = record {
  memory = env;
  sound = b.sound;
  above = omega (arith, b.above, to);
  pages = λ a lo hi. b.pages a (omega (arith, lo, start)) (subst (λ p. a < page_ceil p) to hi);
}

module _ (lock unlock : Running → Running) (locks : (v : Vm) → lock (some v) ≡ some v)
    (unlocks : (v : Vm) → unlock (some v) ≡ some v) where
  -- What `kmalloc` makes of the answer of `sbrk`.
  extend-IsBacked :
      (n node : ℕ) (m : Machine Running) (v : Vm) (o : Option (ℕ × Machine Running))
      → IsBacked m v
      → IsApart m v
      → m.program_break_point + n ≤ 1023 * 2 ^ 22
      → Requested m n v o
      → (r : ℕ × Machine Running) × (v' : Vm) × ((o >>= λ x.
            some (extend (kernel_env lock unlock) node x))
          ≡ some r)
        × IsBacked r.1 v'
        × IsApart r.1 v'
        × (r.1.program_break_point ≤ m.program_break_point + n)
  unfolding extend Heap.unlock set_metadata set_next
  extend-IsBacked n node m v o b0 a0 to (inl (v', e, x)) =
      let valid : (m.program_break_point == minus_one) ≡ false = ground (arith, to) in
      (
        _,
        v',
        ap (λ a. a >>= λ x. some (extend (kernel_env lock unlock) node x)) e,
        rw valid (IsBacked-same _ _ v' x.heap (unlocks v') refl refl),
        rw valid (IsApart-same _ _ v' (Extended-IsApart m n v v' b0 to a0 x) refl refl),
        rw valid (omega arith),
      )
  extend-IsBacked n node m v o b0 a0 to (inr (v', e, b, kept)) = (
    _,
    v',
    ap (λ a. a >>= λ x. some (extend (kernel_env lock unlock) node x)) e,
    IsBacked-same _ _ v' b (unlocks v') refl refl,
    IsApart-same _ _ v' (Survived-IsApart m v v' (omega (arith, to)) a0 kept) refl refl,
    omega arith,
  )

  -- Either way `kmalloc` leaves a heap whose pages all have frames.
  kmalloc-IsBacked :
      (fuel size : ℕ) (m : Machine Running) (v : Vm) (ss : List Span)
      → IsBacked m v
      → IsApart m v
      → IsHeap m ss
      → length ss < fuel
      → size < 2 ^ 30
      → m.program_break_point + size + 24 ≤ 1023 * 2 ^ 22
      → (r : ℕ × Machine Running) × (v' : Vm) × (kmalloc (kernel_env lock unlock) fuel size m
          ≡ some r)
        × IsBacked r.1 v'
        × IsApart r.1 v'
        × (r.1.program_break_point ≤ 1023 * 2 ^ 22)
  unfolding kmalloc_grow Heap.lock Heap.unlock set_free
  kmalloc-IsBacked fuel size m v ss b apart h enough small to =
      let n = align size in
      let locked : Machine Running = record m { env = lock m.env } in
      let free : lock m.env ≡ some v = ap lock b.memory ∙ locks v in
      let bl = IsBacked-same m locked v b free refl refl in
      let al = IsApart-same m locked v apart refl refl in
      elim (find_fit-Search fuel n m.heap_start ss locked h.chain (omega (arith, h.ends, h.small))
        enough) [
          | hit pre k post e misses le at ↦
              let node = m.heap_start + Spans.total pre in
              let same = heap_block_split-block locked node n in
              (
                _,
                v,
                kmalloc-fit (kernel_env lock unlock) fuel size _ m at,
                IsBacked-same locked _ v bl
                    (ap (λ (x : Machine Running). unlock x.env) same ∙ ap unlock free ∙ unlocks v)
                    (ap (λ (x : Machine Running). x.program_break_point) same)
                    (ap (λ (x : Machine Running). x.heap_start) same),
                IsApart-same locked _ v al
                    (ap (λ (x : Machine Running). x.program_break_point) same)
                    (ap (λ (x : Machine Running). x.heap_start) same),
                omega (arith, to, ap (λ (x : Machine Running). x.program_break_point) same),
              )
          | miss misses at ↦
              let sum : add32 n header_size ≡ n + header_size = omega arith in
              let node = m.heap_start + Spans.total ss in
              let finish =
                (λ (x : ℕ × Machine Running). some (extend (kernel_env lock unlock) node x)) in
              let grow : kmalloc_grow (kernel_env lock unlock) fuel n node locked
                  ≡ (sbrk (kernel_env lock unlock) fuel (n + header_size) locked >>= finish) =
                ap (λ k. sbrk (kernel_env lock unlock) fuel k locked >>= finish) sum in
              let (r, v', e, b', a', top) =
                extend-IsBacked (n + header_size) (m.heap_start + Spans.total ss) locked v _ bl al
                  (omega (arith, to))
                  (sbrk-Requested lock unlock fuel (n + header_size) locked v (omega arith)
                    (omega arith) bl (omega arith)) in
              (
                r,
                v',
                kmalloc-last (kernel_env lock unlock) fuel size _ m at ∙ grow ∙ e,
                b',
                a',
                omega (arith, top, to),
              )
        ]

  pub kmalloc-mapped :
      (fuel size : ℕ) (m : Machine Running) (v : Vm) (ss : List Span)
      → IsBacked m v
      → IsApart m v
      → IsHeap m ss
      → length ss < fuel
      → size < 2 ^ 30
      → m.program_break_point + size + 24 ≤ 1023 * 2 ^ 22
      → (r : ℕ × Machine Running) × (v' : Vm) × (kmalloc (kernel_env lock unlock) fuel size m
          ≡ some r)
        × IsBacked r.1 v'
        × IsApart r.1 v'
        × (r.1.program_break_point ≤ 1023 * 2 ^ 22)
        × ((Served (kernel_env lock unlock) m ss (align size) r
              × ((a : ℕ)
                  → r.0 ≤ a
                  → a < r.0 + size
                  → (f : ℕ) × (walk v'.mem v'.dir a ≡ some (f, a % 2 ^ 12))))
            ⊎ Denied (kernel_env lock unlock) m ss (align size) r)
  kmalloc-mapped fuel size m v ss b apart h enough small to =
      let (r, v', e, b', a', top) = kmalloc-IsBacked fuel size m v ss b apart h enough small to in
      let (q, e', cases) =
        kmalloc_refines (kernel_env lock unlock) fuel size m ss h enough (omega arith) in
      let same : q ≡ r = cc in
      (
        r,
        v',
        e,
        b',
        a',
        top,
        elim (subst
            (λ x.
              Served (kernel_env lock unlock) m ss (align size) x
              ⊎ Denied (kernel_env lock unlock) m ss (align size) x)
            same cases) [
              | inl served ↦ inl (
                served,
                λ a lo hi.
                    let (p, heap, keeps) = served in
                    let inside = place-inside (align size) ss in
                    b'.pages a (omega (arith, lo, p, keeps.start))
                      (omega (arith, hi, p, keeps.start, inside, heap.ends, top)),
              )
              | inr denied ↦ inr denied
            ],
      )
