-- ===== src/Memory/Heap/Split.antt =====
-- `heap_block_split`, `heap_block_merge_down` and a store to `free`, as moves on the list of blocks.
use cho_os.Prelude.{
  ℕ, ◌+◌, ◌-◌, ◌≤◌, ◌<◌, ◌≡◌, refl, ap, ◌^◌, inl, inr, Bool, true, false, List, ◌∷◌, ltb,
  if◌then◌else◌, arith, Bool-cases, add32, ◌==◌, subst,
}
use cho_os.Memory.Machine.{Machine, header_size, kernel_virt_offset, put_block}
use cho_os.Memory.Heap.{
  align, set_free, set_next, set_metadata, available_space, heap_block_split, heap_block_merge_down,
}
use cho_os.Memory.Heap.Spans.{Span, vacant, joined}
use cho_os.Memory.Heap.Chain.{Blocks, Heads, Chain, Chain-put, Below}
use cho_os.Memory.Heap.Fit.{available_space-Heads}

-- What `heap_block_split` does to a block: the part behind the first `size` bytes becomes a free
-- block, unless too little is left. The test is made with the aligned size.
abbrev pub split_span : ℕ → Span → List Span → List Span
split_span size s rest =
    if ltb s.size (align size + 24)
    then s ∷ rest
    else record { size = size; free = s.free } ∷ vacant (s.size - size - header_size) ∷ rest

-- A split writes headers and nothing else.
if-block :
    {E : Type 0} (t : Bool) (m : Machine E) (h : Blocks)
    → let m' = if t then m else record m { block = h } in m' ≡ record m { block = m'.block }
if-block true m h = refl
if-block false m h = refl

pub heap_block_split-block :
    {E : Type 0} (m : Machine E) (b size : ℕ)
    → heap_block_split b size m ≡ record m { block = (heap_block_split b size m).block }
unfolding heap_block_split set_next set_metadata
heap_block_split-block m b size = if-block (ltb _ _) m _

module _ {E : Type 0} (m : Machine E) (b : ℕ) (s : Span) (rest : List Span) where
  pub set_free-Chain :
      (f : Bool)
      → Chain m.block b (s ∷ rest)
      → Chain (set_free b f m).block b (record { size = s.size; free = f } ∷ rest)
        × Below b m.block (set_free b f m).block
  unfolding set_free
  set_free-Chain f c = (
    (
      record {
        eom = ground (arith, c.0.eom);
        free = ground arith;
        next = ground (arith, c.0.next);
      },
      Chain-put m.block (b + (header_size + s.size)) b _ rest (omega arith) c.1,
    ),
    λ q lt. ground arith,
  )

  -- the guard of `heap_block_split`, with no wrap in sight
  split_test :
      (size : ℕ)
      → Heads m.block b s
      → kernel_virt_offset ≤ b
      → b + (header_size + s.size) < 2 ^ 32
      → size ≤ s.size
      → ltb (available_space b m) (add32 (add32 (align size) header_size) 16)
        ≡ ltb s.size (align size + 24)
  split_test size h high small room =
      rw (available_space-Heads m b s h small) (ap (ltb s.size) (omega arith))

  -- the memory with a free block that begins behind the first `size` bytes
  cut : ℕ → Blocks
  cut size =
      let h = m.block b in
      put_block
        (put_block m.block (b + (header_size + size))
          (record { next = h.next; eom = false; free = true }))
        b (record { next = b + (header_size + size); eom = h.eom; free = h.free })

  heap_block_split-cut :
      (size : ℕ)
      → Heads m.block b s
      → kernel_virt_offset ≤ b
      → b + (header_size + s.size) < 2 ^ 32
      → size ≤ s.size
      → heap_block_split b size m
        ≡ (if ltb s.size (align size + 24) then m else record m { block = cut size })
  unfolding heap_block_split set_next set_metadata cut
  heap_block_split-cut size h high small room =
      let at : add32 (add32 b header_size) size ≡ b + (header_size + size) = omega arith in
      let apart : (b == b + (header_size + size)) ≡ false = ground arith in
      rw (split_test size h high small room, at, apart, heap_block_split)

  cut-Chain :
      (size : ℕ)
      → Chain m.block b (s ∷ rest)
      → size + 24 ≤ s.size
      → Chain
          (cut size)
          b
          (record { size = size; free = s.free } ∷ vacant (s.size - size - header_size) ∷ rest)
  unfolding cut
  cut-Chain size c room =
      let end : b + (header_size + s.size)
          ≡ b + (header_size + size) + (header_size + (s.size - size - header_size)) =
        omega arith in
      (
        record {
          eom = ground (arith, c.0.eom);
          free = ground (arith, c.0.free);
          next = ground arith;
        },
        (
          record { eom = ground arith; free = ground arith; next = ground (arith, c.0.next) },
          Chain-put _ _ b _ rest (omega arith) (
              Chain-put m.block _ (b + (header_size + size)) _ rest (omega arith)
                (subst (λ t. Chain m.block t rest) end c.1)),
        ),
      )

  pub heap_block_split-Chain :
      (size : ℕ)
      → Chain m.block b (s ∷ rest)
      → kernel_virt_offset ≤ b
      → b + (header_size + s.size) < 2 ^ 32
      → size ≤ align size
      → size ≤ s.size
      → Chain (heap_block_split b size m).block b (split_span size s rest)
        × Below b m.block (heap_block_split b size m).block
  unfolding cut
  heap_block_split-Chain size c high small le room =
      let eq = heap_block_split-cut size c.0 high small room in
      elim (Bool-cases (ltb s.size (align size + 24))) [
        | inl tight ↦ rw (eq, tight) (c, λ q lt. refl)
        | inr split ↦ rw (eq, split) (cut-Chain size c (ground arith), λ q lt. ground arith)
      ]

module _ {E : Type 0} (m : Machine E) (b : ℕ) (s t : Span) (rest : List Span) where
  pub merge_down-Chain :
      Chain m.block b (s ∷ t ∷ rest)
      → Chain (heap_block_merge_down b m).block b (joined s t ∷ rest)
        × Below b m.block (heap_block_merge_down b m).block
  unfolding heap_block_merge_down set_next
  merge_down-Chain c =
      let end : b + (header_size + s.size) + (header_size + t.size)
          ≡ b + (header_size + (joined s t).size) =
        omega arith in
      (
        (
          record {
            eom = ground (arith, c.0.eom);
            free = ground (arith, c.0.free);
            next = rw (c.0.next, c.1.0.next) (ground arith);
          },
          Chain-put m.block _ b _ rest (omega arith) (subst (λ a. Chain m.block a rest) end c.1.1),
        ),
        λ q lt. ground arith,
      )
