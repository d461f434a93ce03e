-- ===== src/Kernel/Tests.antt =====
-- The theorems on the parts put together, on a machine with a small heap.
use cho_os.Prelude.{ℕ, ◌-◌, ◌/◌, ◌^◌, ◌≤◌, ◌≡◌, refl, true, none, some, arith}
use cho_os.Memory.Machine.{Machine}
use cho_os.Memory.Brk.{sbrk}
use cho_os.Memory.Heap.{heap_init}
use cho_os.Paging.Frames.{bitmap_test}
use cho_os.Paging.Tests.{stocked}
use cho_os.Paging.Cache.Fresh.{GivenOut}
use cho_os.Paging.Vmm.{Vm, walk}
use cho_os.Paging.Boot.{started, pmm_directory_init}
use cho_os.Paging.Boot.Tests.{dark}
use cho_os.Kernel.Startup.{InHeap, heap_init-overlaps}
use cho_os.Kernel.Sample.{six_pages, first_free, second_free}
use cho_os.Kernel.Env.{Running, kernel_env}
use cho_os.Kernel.Break.{Requested, sbrk-Requested}
use cho_os.Kernel.Separate.{IsApart}
use cho_os.Kernel.Unmapped.{Shrunk}
use cho_os.Kernel.Shrink.{sbrk-Shrunk}
use cho_os.Kernel.Faults.{sbrk-overreaches, sbrk-leaks}
use cho_os.Kernel.SelfTest.{Ram, virt_a, virt_b, test_vmm_aliasing}
use cho_os.Kernel.SelfTest.Passes.{test_vmm_aliasing-leaves}
use cho_os.Kernel.SbrkTest.Rules.{Right}
use cho_os.Kernel.Sample.{
  paged, given_out, paged-Sound, sample, sample-IsBacked, giving_back, same, heap_page, ram,
  three_pages,
}

sbrk-Requested_example : Requested sample 5000 paged (sbrk (kernel_env same same) 0 5000 sample)
sbrk-Requested_example =
    sbrk-Requested same same 0 5000 sample paged (omega arith) (omega arith) sample-IsBacked
      (omega arith)

sbrk-Shrunk_example :
    (v' : Vm) × (sbrk (kernel_env same same) 2 (2 ^ 32 - 4096) sample
      ≡ some (0xC040_2800, record sample { program_break_point = 0xC040_1800; env = some v' }))
    × Shrunk 0xC040_2800 1 paged v'
sbrk-Shrunk_example =
    sbrk-Shrunk same same 2 4096 sample paged (omega arith) (omega arith) (omega arith)
      sample-IsBacked (omega arith) (omega arith) (omega arith) (omega arith)

sbrk-overreaches_example :
    (v' : Vm) × (m' : Machine Running) × (sbrk (kernel_env same same) 2 (2 ^ 32 - 4096) sample
      ≡ some (0xC040_2800, m'))
    × (m'.env ≡ some v')
    × (m'.heap_start ≤ m'.program_break_point - 1)
    × (walk v'.mem v'.dir (m'.program_break_point - 1) ≡ none)
sbrk-overreaches_example =
    sbrk-overreaches same same 2 4096 sample paged sample-IsBacked giving_back
      (λ (e : 0x800 ≡ 0). omega (arith, e))

sbrk-leaks_example :
    (v' : Vm) × (m' : Machine Running) × (sbrk (kernel_env same same) 2 (2 ^ 32 - 4096) sample
      ≡ some (0xC040_2800, m'))
    × (m'.env ≡ some v')
    × (walk v'.mem v'.dir 0xC040_1000 ≡ none)
    × (bitmap_test 17 v'.frames ≡ true)
sbrk-leaks_example =
    sbrk-leaks same same 2 4096 0xC040_1000 17 0 sample paged sample-IsBacked giving_back
      (omega arith, omega arith) heap_page (given_out 17 (omega arith)) refl

test_vmm_aliasing-leaves_example :
    (f : ℕ) × (r' : Ram) × (test_vmm_aliasing ram ≡ some (0, r'))
    × (walk r'.vm.mem r'.vm.dir virt_a ≡ some (f, 0))
    × (walk r'.vm.mem r'.vm.dir virt_b ≡ some (f, 0))
    × (GivenOut stocked f → ⊥)
test_vmm_aliasing-leaves_example = test_vmm_aliasing-leaves ram paged-Sound three_pages

heap_init-overlaps_example :
    (v : Vm) × (m' : Machine Running) × (pmm_directory_init 0x2BAD_B002 0x40 six_pages 0x10_0000
        0x12_3456 dark
      ≡ started v)
    × (heap_init 0xC012_3456 (record sample { env = some v }) ≡ some m')
    × (v.dir ≡ 292)
    × ((v.mem v.dir (m'.heap_start / 2 ^ 22)).frame ≡ 293)
    × InHeap 292 v m'
    × InHeap 293 v m'
    × (IsApart m' v → ⊥)
heap_init-overlaps_example =
    heap_init-overlaps 0x40 six_pages 0x10_0000 0xC012_3456 dark sample 292 293 refl (omega arith)
      (omega arith) (omega arith) first_free second_free (omega arith) (omega arith)
