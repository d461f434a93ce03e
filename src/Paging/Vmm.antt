-- ===== src/Paging/Vmm.antt =====
-- kernel/arch/i386/memory_manager/vmm.c, with vmm.h and the `Page` of paging.h: mapping pages by way
-- of the page tables, which the code reaches at virtual addresses. A page fault is `none`. The tables
-- are physical memory by frame and by entry; each access is translated by them at once, so the
-- flushes of the TLB are recorded and have no other effect.
pub mod Walk
pub mod Entries
pub mod Create
pub mod Map
pub mod Unmap
pub mod Range
mod Tests
use cho_os.Prelude.{
  ℕ, zero, suc, ◌+◌, ◌-◌, ◌*◌, ◌/◌, ◌%◌, ◌^◌, Bool, true, false, Option, none, some, ◌==◌, ◌&&◌,
  ◌||◌, if◌then◌else◌, List, [], ◌∷◌, add32, sub32,
}
use cho_os.Memory.Machine.{◌>>=◌, kernel_virt_offset, page_size}
use cho_os.Paging.Frames.{Frames, pmm_alloc_page}

abbrev pub enomem : ℕ
enomem = 12

abbrev pub pt_base_vaddr : ℕ
pt_base_vaddr = 0xFFC0_0000

abbrev pub pd_base_vaddr : ℕ
pd_base_vaddr = 0xFFFF_F000

-- the bit fields of an entry
pub record Page : Type 0 where
  pub present : ℕ
  pub rw_bit : ℕ
  pub user : ℕ
  pub w_through : ℕ
  pub cache_dis : ℕ
  pub accessed : ℕ
  pub dirty : ℕ
  pub pat : ℕ
  pub global : ℕ
  pub available : ℕ
  pub frame : ℕ

abbrev pub Tables : Type 0
Tables = ℕ → ℕ → Page

abbrev pub put_page : Tables → ℕ → ℕ → Page → Tables
put_page m f i v g j = if (g == f) && (j == i) then v else m g j

-- The tables, the frame of the page directory, the frame allocator, and the addresses flushed, the
-- last one first.
pub record Vm : Type 0 where
  pub mem : Tables
  pub dir : ℕ
  pub frames : Frames
  pub flushed : List ℕ

-- Where the processor finds an address: the frame and the offset.
unfoldable pub walk : Tables → ℕ → ℕ → Option (ℕ × ℕ)
walk m dir va =
    let pde = m dir (va / 2 ^ 22) in
    let pte = m pde.frame (va / 2 ^ 12 % 2 ^ 10) in
    if (pde.present == 0) || (pte.present == 0) then none else some (pte.frame, va % 2 ^ 12)

-- `GET_PTE_PTR`
unfoldable pub get_pte_ptr : ℕ → ℕ
get_pte_ptr addr = pt_base_vaddr + addr / 2 ^ 12 * 4

-- `GET_PDE_PTR`
unfoldable pub get_pde_ptr : ℕ → ℕ
get_pde_ptr addr = pd_base_vaddr + addr / 2 ^ 22 * 4

unfoldable pub tlb_flush : ℕ → Vm → Vm
tlb_flush addr s = record s { flushed = addr ∷ s.flushed }

-- the entry that a pointer points to
unfoldable pub load : ℕ → Vm → Option Page
load ptr s = walk s.mem s.dir ptr >>= λ at. some (s.mem (at.0) (at.1 / 4))

-- assignments to fields of that entry
unfoldable pub update : ℕ → (Page → Page) → Vm → Option Vm
update ptr change s = walk s.mem s.dir ptr >>= λ at.
    some (record s { mem = put_page s.mem (at.0) (at.1 / 4) (change (s.mem (at.0) (at.1 / 4))) })

abbrev pub zero_entry : Page
zero_entry = record {
  present = 0;
  rw_bit = 0;
  user = 0;
  w_through = 0;
  cache_dis = 0;
  accessed = 0;
  dirty = 0;
  pat = 0;
  global = 0;
  available = 0;
  frame = 0;
}

-- `memset(start, 0, PAGE_SIZE)` at the start of a page
unfoldable pub zero_page : ℕ → Vm → Option Vm
zero_page start s = walk s.mem s.dir start >>= λ at.
    some (record s { mem = λ f i. if f == at.0 then zero_entry else s.mem f i })

-- The part of `vmm_page_map` that creates a page table; its status is ENOMEM without a page for it.
unfoldable pub create_table : ℕ → ℕ × Frames → Vm → Option (ℕ × Vm)
unfolding get_pde_ptr get_pte_ptr tlb_flush update zero_page
create_table virt (new_table_phys, frames) s =
    let s1 = record s { frames = frames } in
    let start = get_pte_ptr virt / page_size * page_size in
    let link = (λ (p : Page). record p {
      frame = new_table_phys / 2 ^ 12 % 2 ^ 20;
      present = 1;
      rw_bit = 1;
      user = 1;
    }) in
    if new_table_phys == 0
    then some (enomem, s1)
    else (update (get_pde_ptr virt) link s1 >>= λ s2.
        zero_page start (tlb_flush start s2) >>= λ s3. some (0, s3))

-- `(flags & (1 << k)) ? 1 : 0`
abbrev pub flag : ℕ → ℕ → ℕ
flag k flags = flags / 2 ^ k % 2

-- its part that fills in the entry of the page table
unfoldable pub set_entry : ℕ → ℕ → ℕ → Vm → Option (ℕ × Vm)
unfolding get_pte_ptr tlb_flush update
set_entry phys virt flags s =
    let fill = (λ (p : Page). record p {
      frame = phys / 2 ^ 12 % 2 ^ 20;
      present = 1;
      rw_bit = flag 1 flags;
      user = flag 2 flags;
    }) in
    update (get_pte_ptr virt) fill s >>= λ s1. some (0, tlb_flush virt s1)

-- `vmm_page_map` with the entry of the directory at hand
unfoldable pub map_under : ℕ → ℕ → ℕ → Vm → Page → Option (ℕ × Vm)
unfolding create_table set_entry
map_under phys virt flags s pde =
    if pde.present == 0
    then (create_table virt (pmm_alloc_page s.frames) s >>= λ r.
        if r.0 == 0 then set_entry phys virt flags (r.1) else some r)
    else set_entry phys virt flags s

unfoldable pub vmm_page_map : ℕ → ℕ → ℕ → Vm → Option (ℕ × Vm)
unfolding get_pde_ptr load map_under
vmm_page_map phys virt flags s = load (get_pde_ptr virt) s >>= map_under phys virt flags s

-- `vmm_page_unmap` with the entry of the page table at hand
unfoldable pub clear_entry : ℕ → Vm → Page → Option (ℕ × Vm)
unfolding get_pte_ptr update tlb_flush
clear_entry virt s pte =
    if pte.present == 0
    then some (0, s)
    else (update (get_pte_ptr virt) (λ p. record p { present = 0; frame = 0 }) s >>= λ s1.
        some (0, tlb_flush virt s1))

-- and with the entry of the directory at hand; a status of -1 is its bit pattern
unfoldable pub unmap_under : ℕ → Vm → Page → Option (ℕ × Vm)
unfolding get_pte_ptr load clear_entry
unmap_under virt s pde =
    if pde.present == 0
    then some (2 ^ 32 - 1, s)
    else (load (get_pte_ptr virt) s >>= clear_entry virt s)

unfoldable pub vmm_page_unmap : ℕ → Vm → Option (ℕ × Vm)
unfolding get_pde_ptr load unmap_under
vmm_page_unmap virt s = load (get_pde_ptr virt) s >>= unmap_under virt s

-- The loop of `vmm_page_map_range`, which passes the same addresses each time.
unfoldable pub vmm_page_map_range : ℕ → ℕ → ℕ → ℕ → Vm → Option (ℕ × Vm)
unfolding vmm_page_map
vmm_page_map_range phys_start virt_start zero flags s = some (0, s)
vmm_page_map_range phys_start virt_start (suc count) flags s =
    vmm_page_map phys_start virt_start flags s >>= λ r.
    if r.0 == 0 then vmm_page_map_range phys_start virt_start count flags (r.1) else some (1, r.1)

-- `V2P`
unfoldable pub vmm_virt_to_phys : ℕ → ℕ
vmm_virt_to_phys virt = sub32 virt kernel_virt_offset
