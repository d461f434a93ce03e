-- ===== src/Memory/Heap/Fit.antt =====
-- `kmalloc`'s walk is a first-fit search of the blocks.
use cho_os.Prelude.{
  ℕ, zero, suc, ◌+◌, ◌≤◌, ◌<◌, ◌≡◌, ap, ◌∙◌, ◌^◌, inl, inr, false, List, [], ◌∷◌, ◌++◌,
  if◌then◌else◌, arith, length, Bool-cases,
}
use cho_os.Memory.Machine.{Machine, header_size}
use cho_os.Memory.Heap.{Walk, fit, last, find_fit, available_space}
use cho_os.Memory.Heap.Spans.{Span, vacant, fits, total, NoFit}
use cho_os.Memory.Heap.Chain.{Heads, Chain}

-- the first block that serves `n` bytes, or that none of them does
pub data Search (n a : ℕ) (ss : List Span) (w : Walk) : Type 0 where
  hit :
      (pre : List Span) (size : ℕ) (post : List Span)
      → ss ≡ pre ++ (vacant size ∷ post)
      → NoFit n pre
      → n ≤ size
      → w ≡ fit (a + total pre)
      → Search n a ss w
  miss : NoFit n ss → w ≡ last (a + total ss) → Search n a ss w

-- The room that the header shows is the block's size.
pub available_space-Heads :
    {E : Type 0} (m : Machine E) (a : ℕ) (s : Span)
    → Heads m.block a s
    → a + (header_size + s.size) < 2 ^ 32
    → available_space a m ≡ s.size
unfolding available_space
available_space-Heads m a s h small = rw (h.eom, h.next) (omega arith)

Search-cons :
    (n a : ℕ) (s : Span) (ss : List Span) (w : Walk)
    → fits n s ≡ false
    → Search n (a + (header_size + s.size)) ss w
    → Search n a (s ∷ ss) w
Search-cons n a s ss w skip (hit pre size post e misses le at) =
    hit (s ∷ pre) size post (ap (λ (t : List Span). s ∷ t) e) (skip, misses) le
      (at ∙ ap fit (omega arith))
Search-cons n a s ss w skip (miss misses at) = miss (skip, misses) (at ∙ ap last (omega arith))

find_fit-cons :
    {E : Type 0} (fuel n a : ℕ) (s : Span) (m : Machine E)
    → Heads m.block a s
    → a + (header_size + s.size) < 2 ^ 32
    → find_fit (suc fuel) n a m
      ≡ (if fits n s then fit a else find_fit fuel n (a + (header_size + s.size)) m)
unfolding find_fit
find_fit-cons fuel n a s m h small =
    rw (available_space-Heads m a s h small, h.eom, h.free, h.next, find_fit)

pub find_fit-Search :
    {E : Type 0} (fuel n a : ℕ) (ss : List Span) (m : Machine E)
    → Chain m.block a ss
    → a + total ss < 2 ^ 32
    → length ss < fuel
    → Search n a ss (find_fit fuel n a m)
unfolding find_fit
find_fit-Search zero n a ss m c small enough = absurd (omega arith)
find_fit-Search (suc fuel) n a [] m c small enough =
    miss tt (rw (c.eom, find_fit) (ap last (omega arith)))
find_fit-Search (suc fuel) n a (s ∷ ss) m c small enough =
    let step = find_fit-cons fuel n a s m c.0 (omega arith) in
    elim (Bool-cases (fits n s)) [
      | inl serves ↦
          rw (step, serves)
            (hit [] s.size ss (ground arith) tt (ground arith) (ap fit (omega arith)))
      | inr skip ↦
          rw (step, skip)
            (Search-cons n a s ss _ skip (
              find_fit-Search fuel n (a + (header_size + s.size)) ss m c.1 (omega arith)
                (omega arith)))
    ]
