-- ===== src/Memory/Heap/Tests.antt =====
-- The allocator on a small heap: four blocks and the end of memory.
use cho_os.Prelude.{
  ℕ, ◌+◌, ◌-◌, ◌*◌, ◌≡◌, ◌⊎◌, refl, true, false, List, [], ◌∷◌, ◌++◌, some, ◌==◌, if◌then◌else◌,
  arith,
}
use cho_os.Memory.Machine.{Env, Machine, HeapBlock}
use cho_os.Memory.Brk.{sbrk}
use cho_os.Memory.Brk.Grow.{sbrk-wraps}
use cho_os.Memory.Heap.{align, kmalloc, kfree, kcalloc, krealloc}
use cho_os.Memory.Heap.Spans.{Span, used, vacant, release}
use cho_os.Memory.Heap.Chain.{IsHeap}
use cho_os.Memory.Heap.Split.{split_span}
use cho_os.Memory.Heap.Kmalloc.{Served, Denied, Keeps, kmalloc_refines}
use cho_os.Memory.Heap.Kfree.{kfree_refines}
use cho_os.Memory.Heap.Zeroed.{ServedZeroed, kcalloc_refines}
use cho_os.Memory.Heap.Resize.{Kept, Moved, krealloc_in_place, krealloc_moves}

-- A kernel around the heap that counts the locks it holds, and has every page it is asked for.
abbrev counting : Env ℕ
counting = record {
  lock_scheduler = λ n. n + 1;
  unlock_scheduler = λ n. n - 1;
  pmm_alloc_page = λ n. (4096, n);
  pmm_free_page = λ p n. n;
  vmm_page_map = λ p v f n. (0, n);
  vmm_page_unmap = λ v n. (0, n);
}

abbrev spans : List Span
spans = used 32 ∷ vacant 64 ∷ used 16 ∷ vacant 200 ∷ []

abbrev headers : ℕ → HeapBlock
headers a =
    if a == 0xC020_0000
    then record { next = 0xC020_0028; eom = false; free = false }
    else if a == 0xC020_0028
    then record { next = 0xC020_0070; eom = false; free = true }
    else if a == 0xC020_0070
    then record { next = 0xC020_0088; eom = false; free = false }
    else if a == 0xC020_0088
    then record { next = 0xC020_0158; eom = false; free = true }
    else record { next = 0; eom = true; free = false }

abbrev sample : Machine ℕ
sample = record {
  heap_start = 0xC020_0000;
  program_break_point = 0xC020_0160;
  block = headers;
  bytes = λ a. 7;
  env = 0;
}

sample-IsHeap : IsHeap sample spans
sample-IsHeap = record {
  chain = ground arith;
  ends = refl;
  high = omega arith;
  small = omega arith;
}

sbrk-wraps_example :
    sbrk counting 9 0x4000_0000 sample
    ≡ some (0xC020_0160, record sample { program_break_point = 0x0020_0160 })
sbrk-wraps_example =
    sbrk-wraps counting sample 0x4000_0000 9 (omega arith) (omega arith) (omega arith)

kmalloc_refines_example :
    (r : ℕ × Machine ℕ) × (kmalloc counting 9 33 sample ≡ some r)
    × (Served counting sample spans 40 r ⊎ Denied counting sample spans 40 r)
kmalloc_refines_example =
    kmalloc_refines counting 9 33 sample spans sample-IsHeap (omega arith) (omega arith)

kfree_refines_example :
    (m' : Machine ℕ) × (kfree counting 9 (0xC020_0000 + 112 + 8) sample ≡ some m')
    × IsHeap m' (release (used 32 ∷ vacant 64 ∷ []) 16 (vacant 200 ∷ []))
    × Keeps sample m'
kfree_refines_example =
    kfree_refines counting 9 16 sample (used 32 ∷ vacant 64 ∷ []) (vacant 200 ∷ []) sample-IsHeap
      (omega arith)

kcalloc_refines_example :
    (r : ℕ × Machine ℕ) × (kcalloc counting 9 4 20 sample ≡ some r)
    × (ServedZeroed sample spans (4 * 20) r ⊎ Denied counting sample spans (align (4 * 20)) r)
kcalloc_refines_example =
    kcalloc_refines counting 9 4 20 sample spans sample-IsHeap (omega arith) (omega arith)

krealloc_in_place_example :
    (m' : Machine ℕ) × (krealloc counting 9 (0xC020_0000 + 0 + 8) 5 sample ≡ some (0xC020_0008, m'))
    × IsHeap m' ([] ++ split_span 5 (used 32) (vacant 64 ∷ used 16 ∷ vacant 200 ∷ []))
    × Keeps sample m'
krealloc_in_place_example =
    krealloc_in_place counting 9 5 32 sample [] (vacant 64 ∷ used 16 ∷ vacant 200 ∷ [])
      sample-IsHeap (omega arith) (omega arith)

krealloc_moves_example :
    (r : ℕ × Machine ℕ) × (krealloc counting 9 (0xC020_0000 + 112 + 8) 50 sample ≡ some r)
    × (Kept counting sample spans r ⊎ Moved counting sample spans 56 16 (0xC020_0000 + 112 + 8) r)
krealloc_moves_example =
    krealloc_moves counting 9 50 16 sample (used 32 ∷ vacant 64 ∷ []) (vacant 200 ∷ [])
      sample-IsHeap (omega arith) (omega arith) (omega arith)
