-- ===== src/Memory/Heap/Chain.antt =====
-- The representation: when the headers in memory spell a list of blocks.
use cho_os.Prelude.{
  ℕ, ◌+◌, ◌≤◌, ◌<◌, ◌≡◌, ap, ◌∙◌, ◌≢◌, true, false, List, [], ◌∷◌, ◌++◌, arith, subst, ◌^◌,
}
use cho_os.Memory.Machine.{HeapBlock, Machine, header_size, kernel_virt_offset, put_block}
use cho_os.Memory.Heap.Spans.{Span, total}

abbrev pub Blocks : Type 0
Blocks = ℕ → HeapBlock

-- The header at `a` is that of the block `s`, and leads to its end.
pub record Heads (m : Blocks) (a : ℕ) (s : Span) : Type 0 where
  pub eom : (m a).eom ≡ false
  pub free : (m a).free ≡ s.free
  pub next : (m a).next ≡ a + (header_size + s.size)

-- The headers from `a` on are those of the blocks.
abbrev pub Links : Blocks → ℕ → List Span → Type 0
Links m a [] = Unit
Links m a (s ∷ ss) = Heads m a s × Links m (a + (header_size + s.size)) ss

-- The end-of-memory block: in use, with no successor.
pub record Ends (m : Blocks) (a : ℕ) : Type 0 where
  pub eom : (m a).eom ≡ true
  pub free : (m a).free ≡ false

abbrev pub Chain : Blocks → ℕ → List Span → Type 0
Chain m a [] = Ends m a
Chain m a (s ∷ ss) = Heads m a s × Chain m (a + (header_size + s.size)) ss

-- The heap of the machine is the list of blocks.
pub record IsHeap {E : Type 0} (m : Machine E) (ss : List Span) : Type 0 where
  pub chain : Chain m.block m.heap_start ss
  pub ends : m.heap_start + total ss + header_size ≡ m.program_break_point
  pub high : kernel_virt_offset ≤ m.heap_start
  pub small : m.program_break_point < 2 ^ 32

pub Chain-split :
    (m : Blocks) (a b : ℕ) (xs ys : List Span)
    → a + total xs ≡ b
    → Chain m a (xs ++ ys)
    → Links m a xs × Chain m b ys
Chain-split m a b [] ys e c = (tt, subst (λ t. Chain m t ys) (omega arith) c)
Chain-split m a b (x ∷ xs) ys e c =
    let (links, rest) = Chain-split m (a + (header_size + x.size)) b xs ys (omega arith) c.1 in
    ((c.0, links), rest)

pub Chain-join :
    (m : Blocks) (a b : ℕ) (xs ys : List Span)
    → a + total xs ≡ b
    → Links m a xs
    → Chain m b ys
    → Chain m a (xs ++ ys)
Chain-join m a b [] ys e l c = subst (λ t. Chain m t ys) (omega arith) c
Chain-join m a b (x ∷ xs) ys e l c =
    (l.0, Chain-join m (a + (header_size + x.size)) b xs ys (omega arith) l.1 c)

-- A store below the blocks, or past them, keeps them.
pub Heads-put :
    (m : Blocks) (a p : ℕ) (b : HeapBlock) (s : Span)
    → p ≢ a
    → Heads m a s
    → Heads (put_block m p b) a s
Heads-put m a p b s ne h = record {
  eom = ground (arith, h.eom);
  free = ground (arith, h.free);
  next = ground (arith, h.next);
}

-- The two memories have the same headers below `b`.
abbrev pub Below : ℕ → Blocks → Blocks → Type 0
Below b m m' = (q : ℕ) → q < b → m' q ≡ m q

pub Links-Below :
    (m m' : Blocks) (a b : ℕ) (ss : List Span)
    → a + total ss ≤ b
    → Below b m m'
    → Links m a ss
    → Links m' a ss
Links-Below m m' a b [] out same l = tt
Links-Below m m' a b (s ∷ ss) out same l =
    let e : m' a ≡ m a = same a (omega arith) in
    (
      record {
        eom = ap (λ (h : HeapBlock). h.eom) e ∙ l.0.eom;
        free = ap (λ (h : HeapBlock). h.free) e ∙ l.0.free;
        next = ap (λ (h : HeapBlock). h.next) e ∙ l.0.next;
      },
      Links-Below m m' (a + (header_size + s.size)) b ss (omega arith) same l.1,
    )

pub Chain-put :
    (m : Blocks) (a p : ℕ) (b : HeapBlock) (ss : List Span)
    → p < a
    → Chain m a ss
    → Chain (put_block m p b) a ss
Chain-put m a p b [] out c = record { eom = ground (arith, c.eom); free = ground (arith, c.free) }
Chain-put m a p b (s ∷ ss) out c = (
  Heads-put m a p b s (omega arith) c.0,
  Chain-put m (a + (header_size + s.size)) p b ss (omega arith) c.1,
)
