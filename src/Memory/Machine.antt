-- ===== src/Memory/Machine.antt =====
-- The state that memory_manager/ works on, and what it calls of the rest of the kernel.
use cho_os.Prelude.{ℕ, Bool, ◌==◌, if◌then◌else◌, Option, none, some}
use cho_os.Libc.Bytes.{Bytes}

-- The calls that memory_manager/ makes of the scheduler, of paging/allocators.c and of vmm.c, on a
-- state `E` of their own. A page is the number that stands for its pointer, 0 for NULL; the status
-- of `vmm_page_map` and `vmm_page_unmap` is 0 for success.
pub record Env (E : Type 0) : Type 0 where
  pub lock_scheduler : E → E
  pub unlock_scheduler : E → E
  pub pmm_alloc_page : E → ℕ × E
  pub pmm_free_page : ℕ → E → E
  pub vmm_page_map : ℕ → ℕ → ℕ → E → ℕ × E
  pub vmm_page_unmap : ℕ → E → ℕ × E

-- `struct HeapBlock`, the header in front of each block
pub record HeapBlock : Type 0 where
  pub next : ℕ
  pub eom : Bool
  pub free : Bool

-- The globals of heap.c and the memory: the header that stands at an address, kept apart from the
-- bytes of the payloads.
pub record Machine (E : Type 0) : Type 0 where
  pub heap_start : ℕ
  pub program_break_point : ℕ
  pub block : ℕ → HeapBlock
  pub bytes : Bytes
  pub env : E

abbrev pub page_size : ℕ
page_size = 4096

abbrev pub kernel_virt_offset : ℕ
kernel_virt_offset = 0xC000_0000

-- `(void *)-1`
abbrev pub minus_one : ℕ
minus_one = 0xFFFF_FFFF

-- `sizeof(struct HeapBlock)`
abbrev pub header_size : ℕ
header_size = 8

abbrev pub put_block : (ℕ → HeapBlock) → ℕ → HeapBlock → ℕ → HeapBlock
put_block m p b a = if a == p then b else m a

infixl 5 ◌>>=◌
abbrev pub ◌>>=◌ {ℓ κ} : {A : Type ℓ} {B : Type κ} → Option A → (A → Option B) → Option B
none >>= f = none
some a >>= f = f a
