-- ===== src/Kernel/Env.antt =====
-- The calls that memory_manager/ makes of the rest of the kernel, as paging/allocators.c and vmm.c
-- answer them. A page fault ends the run, and nothing follows it.
use cho_os.Prelude.{ℕ, Option, none, some}
use cho_os.Memory.Machine.{Env}
use cho_os.Paging.Frames
use cho_os.Paging.Vmm
use cho_os.Paging.Vmm.{Vm}

-- the memory, or that a page fault has happened
abbrev pub Running : Type 0
Running = Option Vm

unfoldable pub alloc_on : Running → ℕ × Running
alloc_on none = (0, none)
alloc_on (some v) =
    let (page, frames) = Frames.pmm_alloc_page v.frames in
    (page, some (record v { frames = frames }))

unfoldable pub free_on : ℕ → Running → Running
free_on page none = none
free_on page (some v) = some (record v { frames = Frames.pmm_free_page page v.frames })

-- the status and the memory behind a call of vmm.c
abbrev pub settle : Option (ℕ × Vm) → ℕ × Running
settle none = (0, none)
settle (some (status, v)) = (status, some v)

unfoldable pub map_on : ℕ → ℕ → ℕ → Running → ℕ × Running
map_on phys virt flags none = (0, none)
map_on phys virt flags (some v) = settle (Vmm.vmm_page_map phys virt flags v)

unfoldable pub unmap_on : ℕ → Running → ℕ × Running
unmap_on virt none = (0, none)
unmap_on virt (some v) = settle (Vmm.vmm_page_unmap virt v)

-- The lock of the scheduler, which the break does not use, stays a parameter.
abbrev pub kernel_env : (Running → Running) → (Running → Running) → Env Running
kernel_env lock unlock = record {
  lock_scheduler = lock;
  unlock_scheduler = unlock;
  pmm_alloc_page = alloc_on;
  pmm_free_page = free_on;
  vmm_page_map = map_on;
  vmm_page_unmap = unmap_on;
}
