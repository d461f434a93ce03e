-- ===== src/Kernel/Runs.antt =====
-- Every run of `kmalloc` and `kfree` on the allocator and the page tables.
use cho_os.Prelude.{ℕ, ◌+◌, ◌*◌, ◌^◌, ◌≤◌, ◌<◌, ◌≡◌, Option, none, some, List, ◌∷◌, ◌++◌}
use cho_os.Memory.Machine.{Env, Machine, header_size}
use cho_os.Memory.Heap
use cho_os.Memory.Heap.{kmalloc, kfree}
use cho_os.Memory.Heap.Spans.{Span, used, total}
use cho_os.Memory.Heap.Chain.{IsHeap}
use cho_os.Paging.Vmm.{Vm}
use cho_os.Kernel.Env.{Running, kernel_env}
use cho_os.Kernel.Break.{IsBacked}
use cho_os.Kernel.Separate.{IsApart}

-- More than there are headers in the address space.
abbrev pub enough_fuel : ℕ
enough_fuel = 2 ^ 29

-- What a call of `kfree` leaves of the rest of the kernel.
abbrev Kept : {E : Type 0} → E → ℕ → Option (Machine E) → Type 0
Kept e to none = Unit
Kept e to (some m) = (m.env ≡ e) × (m.program_break_point ≡ to)

-- A machine that runs: a chain of blocks whose pages have frames of their own, given out, that hold no
-- page table.
pub record IsRunning (m : Machine Running) : Type 0 where
  pub blocks : List Span
  pub memory : Vm
  pub heap : IsHeap m blocks
  pub backed : IsBacked m memory
  pub apart : IsApart m memory
  pub below : m.program_break_point ≤ 1023 * 2 ^ 22

-- The pointer is that of a block in use.
pub record IsBlock (m : Machine Running) (ptr : ℕ) : Type 0 where
  pub size : ℕ
  pub before : List Span
  pub behind : List Span
  pub heap : IsHeap m (before ++ (used size ∷ behind))
  pub at : ptr ≡ m.heap_start + total before + header_size

-- One call: of `kmalloc` with a size that fits below the window of the tables, or of `kfree` with a
-- pointer to a block in use.
pub data Step (lock unlock : Running → Running) (m m' : Machine Running) : Type 0 where
  allocated :
      (size p : ℕ)
      → size < 2 ^ 30
      → m.program_break_point + size + 24 ≤ 1023 * 2 ^ 22
      → kmalloc (kernel_env lock unlock) enough_fuel size m ≡ some (p, m')
      → Step lock unlock m m'
  freed :
      (ptr : ℕ)
      → IsBlock m ptr
      → kfree (kernel_env lock unlock) enough_fuel ptr m ≡ some m'
      → Step lock unlock m m'

pub data Reach (lock unlock : Running → Running) (m : Machine Running)
    : Machine Running → Type 0 where
  start : Reach lock unlock m m
  next :
      (m1 m2 : Machine Running)
      → Reach lock unlock m m1
      → Step lock unlock m1 m2
      → Reach lock unlock m m2
