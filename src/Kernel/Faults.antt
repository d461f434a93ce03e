-- ===== src/Kernel/Faults.antt =====
-- What giving memory back by `sbrk` leaves behind.
use cho_os.Prelude.{
  ℕ, ◌-◌, ◌*◌, ◌/◌, ◌%◌, ◌^◌, ◌≤◌, ◌<◌, ◌≡◌, ◌≢◌, refl, true, false, none, some, arith, ◌∙◌,
}
use cho_os.Memory.Machine.{Machine}
use cho_os.Memory.Brk.{sbrk}
use cho_os.Paging.Frames.{bitmap_test}
use cho_os.Paging.Cache.Fresh.{GivenOut}
use cho_os.Paging.Vmm.{Vm, walk}
use cho_os.Kernel.Env.{Running, kernel_env}
use cho_os.Kernel.Break.{IsBacked}
use cho_os.Kernel.Unmapped.{IsBelow, is_linear, Shrunk}
use cho_os.Kernel.Shrink.{sbrk-Shrunk}

-- A request that gives whole pages back and stays in the heap, behind the kernel's first 4 MiB.
pub record IsGivingBack (fuel decrement : ℕ) (m : Machine Running) : Type 0 where
  pub whole : 4096 ≤ decrement
  pub signed : decrement ≤ 2 ^ 31
  pub enough : decrement / 4096 < fuel
  pub within : decrement ≤ m.program_break_point
  pub heap : m.heap_start < m.program_break_point - decrement
  pub above : 0xC040_0000 ≤ m.program_break_point - decrement
  pub high : m.program_break_point ≤ 1023 * 2 ^ 22

module _ (lock unlock : Running → Running) where
  given_back :
      (fuel decrement : ℕ) (m : Machine Running) (v : Vm)
      → IsBacked m v
      → IsGivingBack fuel decrement m
      → (v' : Vm) × (sbrk (kernel_env lock unlock) fuel (2 ^ 32 - decrement) m
          ≡ some (
            m.program_break_point,
            record m {
              program_break_point = m.program_break_point - decrement / 4096 * 4096;
              env = some v';
            },
          ))
        × Shrunk m.program_break_point (decrement / 4096) v v'
  given_back fuel decrement m v b g =
      sbrk-Shrunk lock unlock fuel decrement m v (omega (arith, g.whole)) g.signed g.enough b
        g.within (omega (arith, g.heap)) g.above g.high

  -- Take a heap whose pages all have frames and whose break is not at the start of a page and not in the
  -- window of the tables, where the page tables are well formed, the frames that hold them are given out, no two
  -- entries of the directory above the kernel's first 4 MiB share a table, and the pages in the cache of
  -- the allocator are frames in use, all different. A request of `sbrk` that
  -- gives back a page or more and 2^31 bytes at most, and leaves more than the heap's first byte and a
  -- break at 0xC0400000 or above, with more fuel than pages are given back, returns, and leaves the byte
  -- below the new break, which is still in the heap, without a translation.
  pub sbrk-overreaches :
      (fuel decrement : ℕ) (m : Machine Running) (v : Vm)
      → IsBacked m v
      → IsGivingBack fuel decrement m
      → m.program_break_point % 4096 ≢ 0
      → (v' : Vm) × (m' : Machine Running) × (sbrk
            (kernel_env lock unlock)
            fuel
            (2 ^ 32 - decrement)
            m
          ≡ some (m.program_break_point, m'))
        × (m'.env ≡ some v')
        × (m'.heap_start ≤ m'.program_break_point - 1)
        × (walk v'.mem v'.dir (m'.program_break_point - 1) ≡ none)
  sbrk-overreaches fuel decrement m v b g odd =
      let (v', e, s) = given_back fuel decrement m v b g in
      let n = decrement / 4096 in
      (
        v',
        _,
        e,
        refl,
        omega (arith, g.heap, g.whole, g.above),
        s.gone (m.program_break_point - n * 4096 - 1)
            (omega (arith, odd, g.above, g.within), omega (arith, g.whole, g.within)),
      )

  -- Take a heap whose pages all have frames and whose break is not in the window of the tables,
  -- where the page tables are well formed, the frames that hold them are given out, no two
  -- entries of the directory above the kernel's first 4 MiB share a table, and the pages in the cache of
  -- the allocator are frames in use, all different. A request of `sbrk` that gives back
  -- a page or more and 2^31 bytes at most, and leaves more than the heap's first byte and a break at
  -- 0xC0400000 or above, with more fuel than pages are given back, returns. A frame in use, not in that
  -- cache, that one of the pages given back had, and that is not what V2P makes of any of them, stays marked
  -- as in use, although that page translates no more.
  pub sbrk-leaks :
      (fuel decrement a f x : ℕ) (m : Machine Running) (v : Vm)
      → IsBacked m v
      → IsGivingBack fuel decrement m
      → IsBelow m.program_break_point (decrement / 4096) a
      → walk v.mem v.dir a ≡ some (f, x)
      → GivenOut v.frames f
      → is_linear m.program_break_point (decrement / 4096) f ≡ false
      → (v' : Vm) × (m' : Machine Running) × (sbrk
            (kernel_env lock unlock)
            fuel
            (2 ^ 32 - decrement)
            m
          ≡ some (m.program_break_point, m'))
        × (m'.env ≡ some v')
        × (walk v'.mem v'.dir a ≡ none)
        × (bitmap_test f v'.frames ≡ true)
  sbrk-leaks fuel decrement a f x m v b g below mapped given other =
      let (v', e, s) = given_back fuel decrement m v b g in
      (v', _, e, refl, s.gone a below, s.marks f ∙ rw other given.used)
