-- ===== src/Memory/Heap/Init.antt =====
-- `heap_init`: the heap that the kernel starts with.
use cho_os.Prelude.{
  ℕ, ◌+◌, ◌-◌, ◌%◌, ◌≤◌, ◌<◌, ◌≡◌, refl, true, false, [], ◌∷◌, leb, if◌then◌else◌, arith, add32,
  ◌==◌, some,
}
use cho_os.Memory.Machine.{Machine, kernel_virt_offset, page_size, put_block}
use cho_os.Memory.Brk.{page_floor}
use cho_os.Memory.Heap.{set_metadata, heap_init}
use cho_os.Memory.Heap.Spans.{vacant}
use cho_os.Memory.Heap.Chain.{Blocks, Chain, IsHeap}

-- the first page boundary at or above the end of the kernel's image
abbrev pub first_page : ℕ → ℕ
first_page kernel_end =
    if kernel_end % page_size == 0 then kernel_end else page_floor (kernel_end + page_size)

init-Chain :
    (m : Blocks) (a : ℕ)
    → a + 16 ≤ 0xC040_0000
    → let last : ℕ = 0xC03F_FFF8 in
      Chain
        (put_block
          (put_block m last (record { next = 0; eom = true; free = false }))
          a
          (record { next = last; eom = false; free = true }))
        a
        (vacant (0xC040_0000 - a - 16) ∷ [])
init-Chain m a room = (
  record { eom = ground arith; free = ground arith; next = ground arith },
  record { eom = ground arith; free = ground arith },
)

-- For a kernel that ends in the higher half, below its first 4 MB, `heap_init` sets up a heap of one
-- free block, from the first page behind the kernel up to the end of those 4 MB, and touches nothing
-- of what the rest of the kernel keeps.
pub heap_init-IsHeap :
    {E : Type 0} (kernel_end : ℕ) (m : Machine E)
    → kernel_virt_offset ≤ kernel_end
    → first_page kernel_end < 0xC040_0000
    → (m' : Machine E) × (heap_init kernel_end m ≡ some m')
      × IsHeap m' (vacant (0xC040_0000 - first_page kernel_end - 16) ∷ [])
      × (m'.heap_start ≡ first_page kernel_end)
      × (m'.program_break_point ≡ 0xC040_0000)
      × (m'.env ≡ m.env)
unfolding heap_init set_metadata
heap_init-IsHeap kernel_end m high low =
    let a = first_page kernel_end in
    let fits : a + 16 ≤ 0xC040_0000 = ground arith in
    let above : kernel_virt_offset ≤ a = ground arith in
    let room : leb 0xC040_0000 a ≡ false = ground arith in
    let nowrap : add32 kernel_end page_size ≡ kernel_end + page_size = ground arith in
    rw (nowrap, room)
      (
        _,
        refl,
        record {
          chain = init-Chain m.block a fits;
          ends = omega arith;
          high = above;
          small = omega arith;
        },
        refl,
        refl,
        refl,
      )
