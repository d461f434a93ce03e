-- ===== src/Memory/Heap/Zeroed.antt =====
-- `kcalloc`: an allocation whose bytes are zero.
use cho_os.Prelude.{
  ℕ, ◌+◌, ◌*◌, ◌<◌, ◌≡◌, refl, ◌^◌, ◌⊎◌, inl, inr, false, List, if◌then◌else◌, arith, mul32, ◌==◌,
  some, length,
}
use cho_os.Libc.Strings.Copy.{within, memset_lem}
use cho_os.Memory.Machine.{Env, Machine, header_size}
use cho_os.Memory.Heap.{align, lock, unlock, cleared, kcalloc}
use cho_os.Memory.Heap.Spans.{Span, place, place_offset}
use cho_os.Memory.Heap.Chain.{IsHeap}
use cho_os.Memory.Heap.Kmalloc.{IsHeap-env, Served, Denied, kmalloc_refines}

-- Served like `kmalloc`, with the `bytes` bytes behind the pointer set to zero and no others changed.
abbrev pub ServedZeroed : {E : Type 0} → Machine E → List Span → ℕ → ℕ × Machine E → Type 0
ServedZeroed m ss bytes (p, m') =
    (p ≡ m.heap_start + place_offset (align bytes) ss + header_size)
    × IsHeap m' (place (align bytes) ss)
    × (m'.heap_start ≡ m.heap_start)
    × ((a : ℕ) → m'.bytes a ≡ (if within p bytes a then 0 else m.bytes a))

module _ {E : Type 0} (env : Env E) where
  cleared-Served :
      (m : Machine E) (ss : List Span) (n p : ℕ) (m1 : Machine E)
      → IsHeap m ss
      → Served env (lock env m) ss (align n) (p, m1)
      → ServedZeroed m ss n (cleared env n (p, m1))
  unfolding cleared unlock lock
  cleared-Served m ss n p m1 h (at, heap, k) =
      let valid : (p == 0) ≡ false = ground (arith, h.high) in
      rw valid (
        at,
        record { chain = heap.chain; ends = heap.ends; high = heap.high; small = heap.small },
        k.start,
        λ a. ground (arith, memset_lem p 0 n m1.bytes a, k.bytes a),
      )

  cleared-Denied :
      (m : Machine E) (ss : List Span) (n p : ℕ) (m1 : Machine E)
      → Denied env (lock env m) ss (align n) (p, m1)
      → Denied env m ss (align n) (cleared env n (p, m1))
  unfolding cleared unlock lock
  cleared-Denied m ss n p m1 (at, misses, heap, k) =
      rw at (refl, misses, IsHeap-env m1 _ ss heap, record { start = k.start; bytes = k.bytes })

  -- On a well-formed heap, with more fuel than it has blocks, and for a product that leaves the
  -- break inside the address space, `kcalloc` returns; it does what first fit does for the product
  -- of its arguments and clears the block, or returns NULL with blocks and bytes as they were
  -- where nothing fits.
  pub kcalloc_refines :
      (fuel nmemb size : ℕ) (m : Machine E) (ss : List Span)
      → IsHeap m ss
      → length ss < fuel
      → m.program_break_point + nmemb * size + 24 < 2 ^ 32
      → (r : ℕ × Machine E) × (kcalloc env fuel nmemb size m ≡ some r)
        × (ServedZeroed m ss (nmemb * size) r ⊎ Denied env m ss (align (nmemb * size)) r)
  unfolding kcalloc lock
  kcalloc_refines fuel nmemb size m ss h enough small =
      let n = nmemb * size in
      let product : mul32 nmemb size ≡ n = omega arith in
      let (r, e, cases) =
        kmalloc_refines env fuel n (lock env m) ss (IsHeap-env m _ ss h) enough small in
      (
        cleared env n r,
        rw (product, e),
        elim cases [
          | inl served ↦ inl (cleared-Served m ss n r.0 r.1 h served)
          | inr denied ↦ inr (cleared-Denied m ss n r.0 r.1 denied)
        ],
      )
