-- ===== src/Memory/Heap.antt =====
-- memory_manager/heap.c, internal.c and allocators.c: the kernel heap, a chain of blocks from
-- `heap_start` to the end-of-memory block just below the program break. A loop along the chain
-- takes fuel; `none` is a call that has not returned when the fuel is used up.
pub mod Spans
pub mod Chain
pub mod Fit
pub mod Split
pub mod Kmalloc
pub mod Kfree
pub mod Init
pub mod Zeroed
pub mod Resize
mod Tests
use cho_os.Prelude.{
  ℕ, zero, suc, ◌*◌, ◌/◌, ◌%◌, Bool, true, false, ◌&&◌, Option, none, some, ltb, leb, ◌==◌,
  if◌then◌else◌, add32, sub32, mul32,
}
use cho_os.Libc.Strings.{memset, memmove}
use cho_os.Memory.Machine.{
  Env, Machine, page_size, kernel_virt_offset, minus_one, header_size, put_block, ◌>>=◌,
}
use cho_os.Memory.Brk.{sbrk, page_floor}

-- `ALIGN(size)`: `(size + 7) & ~7` on `size_t`
abbrev pub align : ℕ → ℕ
align size = add32 size 7 / 8 * 8

abbrev pub minimum_allocation_bytes : ℕ
minimum_allocation_bytes = 16

-- Where the walk of `kmalloc` stops: at the first free block with room, or at the last block.
pub data Walk : Type 0 where
  fit : ℕ → Walk
  last : ℕ → Walk
  out_of_fuel : Walk

module _ {E : Type 0} where
  unfoldable pub set_metadata : ℕ → Bool → Bool → ℕ → Machine E → Machine E
  set_metadata dst eom free next m = record m {
    block = put_block m.block dst (record { next = next; eom = eom; free = free });
  }

  -- `block->next = next`
  unfoldable pub set_next : ℕ → ℕ → Machine E → Machine E
  set_next p next m =
      let b = m.block p in record m { block = put_block m.block p (record b { next = next }) }

  -- `block->free = free`
  unfoldable pub set_free : ℕ → Bool → Machine E → Machine E
  set_free p free m =
      let b = m.block p in record m { block = put_block m.block p (record b { free = free }) }

  pub available_space : ℕ → Machine E → ℕ
  available_space p m = let b = m.block p in if b.eom then 0 else sub32 (sub32 b.next p) header_size

  unfoldable pub heap_block_merge_down : ℕ → Machine E → Machine E
  unfolding set_next
  heap_block_merge_down p m = set_next p (m.block (m.block p).next).next m

  pub heap_block_split : ℕ → ℕ → Machine E → Machine E
  unfolding set_next set_metadata available_space
  heap_block_split p size m =
      let aligned_size = align size in
      let new_block = add32 (add32 p header_size) size in
      if ltb (available_space p m) (add32 (add32 aligned_size header_size) minimum_allocation_bytes)
      then m
      else set_next p new_block (set_metadata new_block false true (m.block p).next m)

  -- the search loop of `kmalloc`
  pub find_fit : ℕ → ℕ → ℕ → Machine E → Walk
  unfolding available_space
  find_fit zero aligned_size node m = out_of_fuel
  find_fit (suc fuel) aligned_size node m =
      let b = m.block node in
      let rest = find_fit fuel aligned_size b.next m in
      if b.eom
      then last node
      else if b.free && leb aligned_size (available_space node m)
      then fit node
      else rest

  -- the search loop of `kfree`: the block whose `next` is `target`
  unfoldable pub find_parent : ℕ → ℕ → ℕ → Machine E → Option ℕ
  find_parent zero target node m = none
  find_parent (suc fuel) target node m =
      let b = m.block node in
      let rest = find_parent fuel target b.next m in if b.next == target then some node else rest

  -- `kernel_end` is the linker's `&_kernel_end`; `none` is the abort.
  pub heap_init : ℕ → Machine E → Option (Machine E)
  unfolding set_metadata
  heap_init kernel_end m =
      let hard_limit_addr = add32 kernel_virt_offset (page_size * 1024) in
      let heap_start_addr =
        if kernel_end % page_size == 0
        then kernel_end
        else page_floor (add32 kernel_end page_size) in
      let heap_end = sub32 hard_limit_addr header_size in
      let m1 = record m { program_break_point = hard_limit_addr } in
      let m2 = set_metadata heap_end true false 0 m1 in
      let m3 = set_metadata heap_start_addr false true heap_end m2 in
      if leb hard_limit_addr heap_start_addr
      then none
      else some (record m3 { heap_start = heap_start_addr })

module _ {E : Type 0} (env : Env E) where
  unfoldable pub lock : Machine E → Machine E
  lock m = record m { env = env.lock_scheduler m.env }

  unfoldable pub unlock : Machine E → Machine E
  unlock m = record m { env = env.unlock_scheduler m.env }

  -- What `kmalloc` does at the end-of-memory block with the result of `sbrk`: it turns that block
  -- into the new allocation, and puts a new one below the break.
  unfoldable pub extend : ℕ → ℕ × Machine E → ℕ × Machine E
  unfolding unlock set_metadata set_next
  extend node (new_block, m1) =
      let new_heap_end = sub32 m1.program_break_point header_size in
      let m2 = set_metadata node false false new_heap_end m1 in
      let m3 = set_metadata new_heap_end true false 0 m2 in
      if new_block == minus_one
      then (0, unlock m1)
      else (add32 node header_size, unlock (set_next node new_heap_end m3))

  unfoldable pub kmalloc_grow : ℕ → ℕ → ℕ → Machine E → Option (ℕ × Machine E)
  unfolding extend
  kmalloc_grow fuel aligned_size node m =
      sbrk env fuel (add32 aligned_size header_size) m >>= λ r. some (extend node r)

  unfoldable pub kmalloc : ℕ → ℕ → Machine E → Option (ℕ × Machine E)
  unfolding lock unlock set_free heap_block_split kmalloc_grow find_fit
  kmalloc fuel size m0 =
      let m = lock m0 in
      let aligned_size = align size in
      elim (find_fit fuel aligned_size m.heap_start m) [
        | fit node ↦ some (
          add32 node header_size,
          unlock (set_free node false (heap_block_split node aligned_size m)),
        )
        | last node ↦ kmalloc_grow fuel aligned_size node m
        | out_of_fuel ↦ none
      ]

  unfoldable pub kfree : ℕ → ℕ → Machine E → Option (Machine E)
  unfolding lock unlock set_free heap_block_merge_down find_parent
  kfree fuel ptr m0 =
      let heap_block = sub32 ptr header_size in
      let m = set_free heap_block true (lock m0) in
      let m1 =
        if (m.block (m.block heap_block).next).free
        then heap_block_merge_down heap_block m
        else m in
      let walked = find_parent fuel heap_block m1.heap_start m1 >>= λ parent.
      some (unlock (if (m1.block parent).free then heap_block_merge_down parent m1 else m1)) in
      if heap_block == m1.heap_start then some (unlock m1) else walked

  -- What `kcalloc` does with the result of `kmalloc`.
  pub cleared : ℕ → ℕ × Machine E → ℕ × Machine E
  unfolding unlock
  cleared bytes (new_block, m1) =
      if new_block == 0
      then (0, unlock m1)
      else (new_block, unlock (record m1 { bytes = memset new_block 0 bytes m1.bytes }))

  pub kcalloc : ℕ → ℕ → ℕ → Machine E → Option (ℕ × Machine E)
  unfolding lock cleared
  kcalloc fuel nmemb size m =
      let bytes = mul32 nmemb size in kmalloc fuel bytes (lock m) >>= λ r. some (cleared bytes r)

  pub krealloc : ℕ → ℕ → ℕ → Machine E → Option (ℕ × Machine E)
  unfolding lock unlock available_space heap_block_split
  krealloc fuel ptr size m0 =
      let m = lock m0 in
      let original_block = sub32 ptr header_size in
      let space = available_space original_block m in
      let moved = kmalloc fuel size m >>= λ (new_block, m1).
      if new_block == 0
      then some (0, unlock m1)
      else (kfree fuel ptr (record m1 { bytes = memmove new_block ptr space m1.bytes }) >>= λ m2.
          some (new_block, unlock m2)) in
      let freed = kfree fuel ptr m >>= λ m1. some (0, unlock m1) in
      let fresh = kmalloc fuel size (unlock m) in
      if ptr == 0
      then fresh
      else if size == 0
      then freed
      else if leb size space
      then some (ptr, unlock (heap_block_split original_block size m))
      else moved
