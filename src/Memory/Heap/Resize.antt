-- ===== src/Memory/Heap/Resize.antt =====
-- `krealloc`: in place where the block has the room, otherwise by a copy into a new block.
use cho_os.Prelude.{
  ℕ, ◌+◌, ◌-◌, ◌≤◌, ◌<◌, ◌≡◌, refl, ◌∙◌, ◌^◌, ◌⊎◌, inl, inr, true, false, List, [], ◌∷◌, ◌++◌, ltb,
  leb, if◌then◌else◌, arith, Bool-cases, sub32, ◌==◌, subst, some, length, length-append,
}
use cho_os.Libc.Strings.{memmove}
use cho_os.Libc.Strings.Copy.{within, memmove_lem}
use cho_os.Memory.Machine.{Env, Machine, header_size}
use cho_os.Memory.Heap.{align, lock, unlock, heap_block_split, kfree, krealloc}
use cho_os.Memory.Heap.Spans.{
  Span, used, carve, fits, total, total-append, total-carve, place, place_offset, release,
}
use cho_os.Memory.Heap.Chain.{IsHeap, Chain-split}
use cho_os.Memory.Heap.Fit.{available_space-Heads}
use cho_os.Memory.Heap.Split.{split_span, heap_block_split-Chain, heap_block_split-block}
use cho_os.Memory.Heap.Kmalloc.{Keeps, IsHeap-env, Served, kmalloc_refines}
use cho_os.Memory.Heap.Kfree.{kfree_refines, retail-IsHeap}

total-split_span :
    (size k : ℕ) (post : List Span)
    → size ≤ align size
    → total (split_span size (used k) post) ≡ header_size + k + total post
total-split_span size k post le = ground arith

carve-append : (n size : ℕ) (xs ys : List Span) → carve n size (xs ++ ys) ≡ carve n size xs ++ ys
carve-append n size xs ys = elim (Bool-cases (ltb size (n + 24))) [
  | inl tight ↦ rw tight
  | inr split ↦ rw split
]

length-carve : (n size : ℕ) (xs : List Span) → length (carve n size xs) ≤ length xs + 2
length-carve n size xs = elim (Bool-cases (ltb size (n + 24))) [
  | inl tight ↦ rw tight (omega arith)
  | inr split ↦ rw split (omega arith)
]

-- Placing a block leaves a used one where it is.
place-keeps :
    (n k : ℕ) (pre post : List Span)
    → (pre' : List Span) × (post' : List Span) × (place n (pre ++ (used k ∷ post))
        ≡ pre' ++ (used k ∷ post'))
      × (total pre' ≡ total pre)
      × (length pre' ≤ length pre + 1)
unfolding place
place-keeps n k [] post = ([], place n post, refl, refl, omega arith)
place-keeps n k (s ∷ pre) post = elim (Bool-cases (fits n s)) [
  | inl serves ↦ (
    carve n s.size pre,
    post,
    rw serves (carve-append n s.size pre (used k ∷ post)),
    total-carve n s.size pre (ground arith),
    omega (arith, length-carve n s.size pre),
  )
  | inr skip ↦
      let (pre', post', e, len, count) = place-keeps n k pre post in
      (s ∷ pre', post', rw (skip, e), omega (arith, len), omega arith)
]

module _ {E : Type 0} (env : Env E) where
  -- On a well-formed heap, where a used block has the room, `krealloc` of it to a positive size
  -- returns the same pointer: the block is split at that size, and no payload byte changes.
  pub krealloc_in_place :
      (fuel size k : ℕ) (m : Machine E) (pre post : List Span)
      → IsHeap m (pre ++ (used k ∷ post))
      → 0 < size
      → size ≤ k
      → let ptr = m.heap_start + total pre + header_size in
        (m' : Machine E) × (krealloc env fuel ptr size m ≡ some (ptr, m'))
        × IsHeap m' (pre ++ split_span size (used k) post)
        × Keeps m m'
  unfolding krealloc lock unlock
  krealloc_in_place fuel size k m pre post h pos room =
      let node = m.heap_start + total pre in
      let ptr = node + header_size in
      let len = total-append pre (used k ∷ post) in
      let inside : node + header_size + k < 2 ^ 32 = omega (arith, len, h.ends, h.small) in
      let at : sub32 ptr header_size ≡ node = omega arith in
      let (_, c) = Chain-split m.block m.heap_start node pre (used k ∷ post) refl h.chain in
      let lm = lock env m in
      let space = available_space-Heads lm node (used k) c.0 (omega arith) in
      let some_ptr : (ptr == 0) ≡ false = ground arith in
      let some_size : (size == 0) ≡ false = ground arith in
      let has : leb size k ≡ true = ground arith in
      let (h1, k1) =
        retail-IsHeap lm (heap_block_split node size lm) node pre (used k ∷ post)
          (split_span size (used k) post) (IsHeap-env m _ _ h) refl
          (heap_block_split-block lm node size)
          (heap_block_split-Chain lm node (used k) post size c (omega (arith, h.high)) (omega arith)
            (omega (arith, h.high)) room)
          (total-split_span size k post (omega (arith, h.high))) in
      (
        unlock env (heap_block_split node size lm),
        rw (some_ptr, some_size, at, space, has),
        IsHeap-env _ _ _ h1,
        record { start = k1.start; bytes = k1.bytes },
      )

  -- NULL, with the blocks and the bytes as they were.
  abbrev pub Kept : Machine E → List Span → ℕ × Machine E → Type 0
  Kept m ss (p, m') = (p ≡ 0) × IsHeap m' ss × Keeps m m'

  -- A block for `n` bytes was placed and the old one, of `k` bytes behind `ptr`, released; the first `k`
  -- bytes of the new one, which has the room, are what the old one held, and no other byte has changed.
  pub record Moved (m : Machine E) (ss : List Span) (n k ptr : ℕ) (r : ℕ × Machine E) : Type 0 where
    pub before : List Span
    pub after : List Span
    pub placed : place n ss ≡ before ++ (used k ∷ after)
    pub same_place : m.heap_start + total before + header_size ≡ ptr
    pub pointer : r.0 ≡ m.heap_start + place_offset n ss + header_size
    pub heap : IsHeap r.1 (release before k after)
    pub room : k ≤ n
    pub bytes :
        (a : ℕ) → r.1.bytes a ≡ (if within r.0 k a then m.bytes (ptr + (a - r.0)) else m.bytes a)

  -- the part of `krealloc` behind a successful `kmalloc`
  move :
      (fuel size k : ℕ) (m : Machine E) (pre post : List Span) (p : ℕ) (m1 : Machine E)
      → length pre + 1 < fuel
      → k ≤ align size
      → let ss = pre ++ (used k ∷ post) in
        let ptr = m.heap_start + total pre + header_size in
        Served env (lock env m) ss (align size) (p, m1)
        → (m2 : Machine E) × (kfree env fuel ptr (record m1 { bytes = memmove p ptr k m1.bytes })
            ≡ some m2)
          × Moved m ss (align size) k ptr (p, unlock env m2)
  unfolding lock unlock
  move fuel size k m pre post p m1 enough room (at, heap, keeps) =
      let n = align size in
      let ptr = m.heap_start + total pre + header_size in
      let (pre', post', placed, len, count) = place-keeps n k pre post in
      let m3 = record m1 { bytes = memmove p ptr k m1.bytes } in
      let heap1 = subst (IsHeap m1) placed heap in
      let heap3 : IsHeap m3 (pre' ++ (used k ∷ post')) = record {
        chain = heap1.chain;
        ends = heap1.ends;
        high = heap1.high;
        small = heap1.small;
      } in
      let (m2, e, heap2, keeps2) = kfree_refines env fuel k m3 pre' post' heap3 (omega arith) in
      let same : m3.heap_start + total pre' + header_size ≡ ptr = omega (arith, keeps.start, len) in
      (
        m2,
        subst (λ a. kfree env fuel a m3 ≡ some m2) same e,
        record {
          before = pre';
          after = post';
          placed = placed;
          same_place = omega (arith, len);
          pointer = at;
          heap = IsHeap-env m2 _ _ heap2;
          room = room;
          bytes = λ a.
              keeps2.bytes a ∙ memmove_lem p ptr k m1.bytes a ∙ (elim (Bool-cases (within p k a)) [
                | inl new ↦ rw (new, keeps.bytes (ptr + (a - p))) refl
                | inr old ↦ rw (old, keeps.bytes a) refl
              ]);
        },
      )

  -- On a well-formed heap, with fuel for one block more than it has, where a used block lacks the
  -- room, `krealloc` of it to a size that leaves the break inside the address space returns;
  -- either with NULL, blocks and bytes as they were, or with a new block, placed by first fit, that has
  -- room for the bytes of the old one and begins with them; the old block is released, and no payload
  -- byte but those copied is written.
  pub krealloc_moves :
      (fuel size k : ℕ) (m : Machine E) (pre post : List Span)
      → let ss = pre ++ (used k ∷ post) in
        let ptr = m.heap_start + total pre + header_size in
        IsHeap m ss
        → k < size
        → length ss + 1 < fuel
        → m.program_break_point + size + 24 < 2 ^ 32
        → (r : ℕ × Machine E) × (krealloc env fuel ptr size m ≡ some r)
          × (Kept m ss r ⊎ Moved m ss (align size) k ptr r)
  unfolding krealloc lock unlock move
  krealloc_moves fuel size k m pre post h more enough small =
      let node = m.heap_start + total pre in
      let ss = pre ++ (used k ∷ post) in
      let len = total-append pre (used k ∷ post) in
      let at : sub32 (node + header_size) header_size ≡ node =
        omega (arith, len, h.ends, h.small) in
      let (_, c) = Chain-split m.block m.heap_start node pre (used k ∷ post) refl h.chain in
      let lm = lock env m in
      let space =
        available_space-Heads lm node (used k) c.0 (omega (arith, len, h.ends, h.small)) in
      let some_ptr : (node + header_size == 0) ≡ false = ground arith in
      let some_size : (size == 0) ≡ false = ground arith in
      let lacks : leb size k ≡ false = ground arith in
      let (r, e, cases) =
        kmalloc_refines env fuel size lm ss (IsHeap-env m _ ss h) (omega arith) small in
      elim cases [
        | inl served ↦
            let valid : (r.0 == 0) ≡ false = ground (arith, served.0, h.high) in
            let (m2, freed, moved) =
              move fuel size k m pre post r.0 r.1 (omega (arith, length-append pre (used k ∷ post)))
                (omega (arith, more, small)) served in
            (
              (r.0, unlock env m2),
              rw (some_ptr, some_size, at, space, lacks, e, valid, freed),
              inr moved,
            )
        | inr (null, misses, heap, keeps) ↦ (
          (0, unlock env r.1),
          rw (some_ptr, some_size, at, space, lacks, e, null),
          inl (refl, IsHeap-env r.1 _ ss heap, record { start = keeps.start; bytes = keeps.bytes }),
        )
      ]
