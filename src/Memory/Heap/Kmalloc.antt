-- ===== src/Memory/Heap/Kmalloc.antt =====
-- `kmalloc` against the abstract allocator: first fit, a split, and growth at the end.
use cho_os.Prelude.{
  ℕ, ◌+◌, ◌-◌, ◌≤◌, ◌<◌, ◌≡◌, refl, ap, ◌∙◌, ◌^◌, ◌⊎◌, inl, inr, true, false, List, [], ◌∷◌, ◌++◌,
  ltb, arith, Bool-cases, sub32, add32, ◌==◌, subst, some, length, sym,
}
use mathlib.Core.List.{append-nil}
use cho_os.Memory.Machine.{Env, Machine, header_size, kernel_virt_offset, minus_one}
use cho_os.Memory.Brk.Grow.{Grown, Refused, sbrk-cases}
use cho_os.Memory.Heap.{
  align, fit, last, find_fit, set_free, set_next, set_metadata, heap_block_split, lock, unlock,
  extend, kmalloc_grow, kmalloc,
}
use cho_os.Memory.Heap.Spans.{
  Span, used, vacant, carve, place, place_offset, place-append, place-NoFit, total, total-append,
  total-carve, NoFit,
}
use cho_os.Memory.Heap.Chain.{Chain, IsHeap, Chain-split, Chain-join, Below, Links-Below}
use cho_os.Memory.Heap.Fit.{hit, miss, find_fit-Search}
use cho_os.Memory.Heap.Split.{
  split_span, set_free-Chain, heap_block_split-Chain, heap_block_split-block,
}

-- What a machine keeps through an allocation: where the heap begins, and the payload bytes.
pub record Keeps {E : Type 0} (m m' : Machine E) : Type 0 where
  pub start : m'.heap_start ≡ m.heap_start
  pub bytes : (a : ℕ) → m'.bytes a ≡ m.bytes a

pub IsHeap-env :
    {E : Type 0} (m : Machine E) (e : E) (ss : List Span)
    → IsHeap m ss
    → IsHeap (record m { env = e }) ss
IsHeap-env m e ss h = record { chain = h.chain; ends = h.ends; high = h.high; small = h.small }

-- Taking the block: the split, and the store to `free`.
allot-Chain :
    {E : Type 0} (m : Machine E) (b n size : ℕ) (post : List Span)
    → Chain m.block b (vacant size ∷ post)
    → kernel_virt_offset ≤ b
    → b + (header_size + size) < 2 ^ 32
    → align n ≡ n
    → n ≤ size
    → let m' = set_free b false (heap_block_split b n m) in
      Chain m'.block b (carve n size post) × Below b m.block m'.block
allot-Chain m b n size post c high small aligned le =
    let (c1, below1) =
      heap_block_split-Chain m b (vacant size) post n c high small (omega arith) le in
    let m1 = heap_block_split b n m in
    let finish =
      λ (k : ℕ) (rest : List Span) (e : split_span n (vacant size) post ≡ vacant k ∷ rest)
          (e' : carve n size post ≡ used k ∷ rest).
        let (c2, below2) =
          set_free-Chain m1 b (vacant k) rest false (subst (Chain m1.block b) e c1) in
        let both : Chain (set_free b false m1).block b (carve n size post)
            × Below b m.block (set_free b false m1).block =
          (
            subst (Chain (set_free b false m1).block b) (sym e') c2,
            λ q lt. below2 q lt ∙ below1 q lt,
          ) in
        both in
    elim (Bool-cases (ltb size (n + 24))) [
      | inl tight ↦ finish size post (rw (aligned, tight)) (rw tight)
      | inr split ↦
          finish n (vacant (size - n - header_size) ∷ post) (rw (aligned, split)) (rw split)
    ]

module _ {E : Type 0} (env : Env E) where
  -- The request was served from `place n ss`: the pointer is behind the header of the new block.
  abbrev pub Served : Machine E → List Span → ℕ → ℕ × Machine E → Type 0
  Served m ss n (p, m') =
      (p ≡ m.heap_start + place_offset n ss + header_size) × IsHeap m' (place n ss) × Keeps m m'

  -- NULL, with the blocks as they were; no free block would have served the request.
  abbrev pub Denied : Machine E → List Span → ℕ → ℕ × Machine E → Type 0
  Denied m ss n (p, m') = (p ≡ 0) × NoFit n ss × IsHeap m' ss × Keeps m m'

  -- the machine after growth by `n` bytes at `node`
  grow-IsHeap :
      (m : Machine E) (node n : ℕ) (ss : List Span) (e : E)
      → IsHeap m ss
      → node ≡ m.heap_start + total ss
      → node + header_size + n + header_size < 2 ^ 32
      → let top = node + (header_size + n) in
        let m1 = record m {
          program_break_point = m.program_break_point + (n + header_size);
          env = e;
        } in
        let m3 = set_metadata top true false 0 (set_metadata node false false top m1) in
        IsHeap (set_next node top m3) (ss ++ (used n ∷ []))
  unfolding set_metadata set_next
  grow-IsHeap m node n ss e h at small = record {
    chain =
        Chain-join _ m.heap_start node ss (used n ∷ []) (omega arith)
          (Links-Below m.block _ m.heap_start node ss (omega arith) (λ q lt. ground arith)
            (Chain-split m.block m.heap_start node ss [] (omega arith)
              (subst (Chain m.block m.heap_start) (sym (append-nil ss)) h.chain)).0)
          (
            record { eom = ground arith; free = ground arith; next = ground arith },
            record { eom = ground arith; free = ground arith },
          );
    ends = omega (arith, h.ends, total-append ss (used n ∷ []));
    high = h.high;
    small = omega (arith, h.ends);
  }

  extend-Grown :
      (n : ℕ) (m m1 : Machine E) (p : ℕ) (ss : List Span)
      → IsHeap m ss
      → NoFit n ss
      → m.program_break_point + n + 16 < 2 ^ 32
      → Grown env m (n + header_size) (p, m1)
      → Served m ss n (extend env (m.heap_start + total ss) (p, m1))
  unfolding extend unlock set_metadata set_next
  extend-Grown n m m1 p ss h misses small (ep, e, em) =
      let valid : (m.program_break_point == minus_one) ≡ false = ground (arith, h.small) in
      let top : sub32 (m.program_break_point + (n + header_size)) header_size
          ≡ m.heap_start + total ss + (header_size + n) =
        omega (arith, h.ends) in
      rw (ep, em, valid, top, (place-NoFit n ss misses).0, (place-NoFit n ss misses).1)
        (
          omega (arith, h.ends),
          IsHeap-env _ _ _
              (grow-IsHeap m (m.heap_start + total ss) n ss e h refl (omega (arith, h.ends))),
          record { start = refl; bytes = λ a. refl },
        )

  extend-Refused :
      (n : ℕ) (m m1 : Machine E) (p : ℕ) (ss : List Span)
      → IsHeap m ss
      → NoFit n ss
      → Refused env m (n + header_size) (p, m1)
      → Denied m ss n (extend env (m.heap_start + total ss) (p, m1))
  unfolding extend unlock
  extend-Refused n m m1 p ss h misses (ep, (e, em)) =
      rw (ep, em) (refl, misses, IsHeap-env m _ ss h, record { start = refl; bytes = λ a. refl })

  grow-cases :
      (fuel n : ℕ) (m : Machine E) (ss : List Span)
      → IsHeap m ss
      → NoFit n ss
      → m.program_break_point + n + 16 < 2 ^ 32
      → (r : ℕ × Machine E) × (kmalloc_grow env fuel n (m.heap_start + total ss) m ≡ some r)
        × (Served m ss n r ⊎ Denied m ss n r)
  unfolding kmalloc_grow
  grow-cases fuel n m ss h misses small =
      let (r, e, cases) =
        sbrk-cases env m (n + header_size) fuel (omega arith) (omega (arith, h.ends, h.high))
          (omega arith) in
      let sum : add32 n header_size ≡ n + header_size = omega arith in
      (
        extend env (m.heap_start + total ss) r,
        rw (sum, e),
        elim cases [
          | inl grown ↦ inl (extend-Grown n m r.1 r.0 ss h misses small grown)
          | inr refused ↦ inr (extend-Refused n m r.1 r.0 ss h misses refused)
        ],
      )

  pub kmalloc-fit :
      (fuel size node : ℕ) (m : Machine E)
      → find_fit fuel (align size) m.heap_start (lock env m) ≡ fit node
      → kmalloc env fuel size m
        ≡ some (
          add32 node header_size,
          unlock env (set_free node false (heap_block_split node (align size) (lock env m))),
        )
  unfolding kmalloc
  kmalloc-fit fuel size node m e = rw (e, kmalloc)

  pub kmalloc-last :
      (fuel size node : ℕ) (m : Machine E)
      → find_fit fuel (align size) m.heap_start (lock env m) ≡ last node
      → kmalloc env fuel size m ≡ kmalloc_grow env fuel (align size) node (lock env m)
  unfolding kmalloc
  kmalloc-last fuel size node m e = rw (e, kmalloc)

  allot-Served :
      (m : Machine E) (n size : ℕ) (pre post : List Span)
      → IsHeap m (pre ++ (vacant size ∷ post))
      → NoFit n pre
      → n ≤ size
      → align n ≡ n
      → let node = m.heap_start + total pre in
        Served m
          (pre ++ (vacant size ∷ post))
          n
          (add32 node header_size, unlock env (set_free node false (heap_block_split node n m)))
  unfolding unlock set_free
  allot-Served m n size pre post h misses le aligned =
      let node = m.heap_start + total pre in
      let (list, offset) = place-append n size pre post misses le in
      let len = total-append pre (vacant size ∷ post) in
      let (links, c) = Chain-split m.block m.heap_start node pre _ refl h.chain in
      let (c', below) =
        allot-Chain m node n size post c (omega (arith, h.high))
          (omega (arith, h.ends, h.small, len)) aligned le in
      let chain =
        Chain-join (set_free node false (heap_block_split node n m)).block m.heap_start node pre _
          refl (Links-Below m.block _ m.heap_start node pre (omega arith) below links) c' in
      let m' = set_free node false (heap_block_split node n m) in
      let same = heap_block_split-block m node n in
      let start = ap (λ (x : Machine E). x.heap_start) same in
      let break_ = ap (λ (x : Machine E). x.program_break_point) same in
      rw (list, offset)
        (
          omega (arith, h.ends, h.small, len),
          record {
            chain = subst (λ a. Chain m'.block a (pre ++ carve n size post)) (sym start) chain;
            ends = omega (
              arith,
              start,
              break_,
              h.ends,
              len,
              total-append pre (carve n size post),
              total-carve n size post le,
            );
            high = omega (arith, start, h.high);
            small = omega (arith, break_, h.small);
          },
          record { start = start; bytes = λ a. ap (λ (x : Machine E). x.bytes a) same },
        )

  -- taking the lock changes nothing that `Served` and `Denied` speak of
  from_locked :
      (m : Machine E) (ss : List Span) (n : ℕ) (r : ℕ × Machine E)
      → Served (lock env m) ss n r ⊎ Denied (lock env m) ss n r
      → Served m ss n r ⊎ Denied m ss n r
  unfolding lock
  from_locked m ss n r (inl (p, heap, k)) =
      inl (p, heap, record { start = k.start; bytes = k.bytes })
  from_locked m ss n r (inr (p, misses, heap, k)) =
      inr (p, misses, heap, record { start = k.start; bytes = k.bytes })

  -- On a well-formed heap, with more fuel than it has blocks, `kmalloc` of a size that leaves the
  -- break inside the address space returns, and does what first fit does with the aligned size:
  -- the pointer is behind the header of the placed block, the chain in memory is that of the new
  -- list, and no payload byte is written; or it returns NULL with the blocks as they were, and
  -- that only where no free block has the room.
  pub kmalloc_refines :
      (fuel size : ℕ) (m : Machine E) (ss : List Span)
      → IsHeap m ss
      → length ss < fuel
      → m.program_break_point + size + 24 < 2 ^ 32
      → (r : ℕ × Machine E) × (kmalloc env fuel size m ≡ some r)
        × (Served m ss (align size) r ⊎ Denied m ss (align size) r)
  unfolding kmalloc lock
  kmalloc_refines fuel size m ss h enough small =
      let n = align size in
      let locked = IsHeap-env m (env.lock_scheduler m.env) ss h in
      elim (find_fit-Search fuel n m.heap_start ss (lock env m) h.chain
        (omega (arith, h.ends, h.small)) enough) [
          | hit pre k post e misses le at ↦
              let heap = subst (IsHeap (lock env m)) e locked in
              (
                _,
                kmalloc-fit fuel size _ m at,
                from_locked m ss n _ (
                    inl
                      (rw e (allot-Served (lock env m) n k pre post heap misses le (omega arith)))),
              )
          | miss misses at ↦
              let (r, e, cases) = grow-cases fuel n (lock env m) ss locked misses (omega arith) in
              (r, kmalloc-last fuel size _ m at ∙ e, from_locked m ss n r cases)
        ]
