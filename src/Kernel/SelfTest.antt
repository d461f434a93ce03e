-- ===== src/Kernel/SelfTest.antt =====
-- kernel/kernel/test.c: the tests of the page tables. Their messages are left out. A failed assertion
-- returns -1, and a page fault is `none`.
pub mod Aliases
pub mod Passes
pub mod Counted
use cho_os.Prelude.{
  ℕ, ◌+◌, ◌-◌, ◌*◌, ◌/◌, ◌%◌, ◌^◌, Bool, true, false, not, Option, none, some, ◌==◌, ◌&&◌, ◌||◌,
  if◌then◌else◌,
}
use cho_os.Memory.Machine.{◌>>=◌, minus_one}
use cho_os.Paging.Frames.{pmm_alloc_page}
use cho_os.Paging.Vmm.{Vm, walk, load, get_pte_ptr, vmm_page_map, vmm_page_unmap}

-- The page tables, and the words in the other frames by frame and offset.
pub record Ram : Type 0 where
  pub vm : Vm
  pub word : ℕ → ℕ → ℕ

-- `*ptr` and `*ptr = value`
unfoldable pub read : ℕ → Ram → Option ℕ
read ptr r = walk r.vm.mem r.vm.dir ptr >>= λ at. some (r.word at.0 at.1)

unfoldable pub write : ℕ → ℕ → Ram → Option Ram
write ptr value r = walk r.vm.mem r.vm.dir ptr >>= λ at.
    some (record r { word = λ f i. if (f == at.0) && (i == at.1) then value else r.word f i })

-- The calls of vmm.c; what they return is dropped.
unfoldable pub map_page : ℕ → ℕ → Ram → Option Ram
map_page phys virt r = vmm_page_map phys virt 3 r.vm >>= λ s. some (record r { vm = s.1 })

unfoldable pub unmap_page : ℕ → Ram → Option (ℕ × Ram)
unmap_page virt r = vmm_page_unmap virt r.vm >>= λ s. some (s.0, record r { vm = s.1 })

abbrev pub virt_a : ℕ
virt_a = 0xD000_0000

abbrev pub virt_b : ℕ
virt_b = 0xE000_0000

abbrev pub pattern_word : ℕ
pattern_word = 0xDEAD_BEEF

-- what both tests begin with, once they have a page: two pages of one frame, and a word written to it
unfoldable pub aliased : ℕ → Ram → Option Ram
unfolding map_page write
aliased phys_frame r = map_page phys_frame virt_a r >>= λ r1.
    map_page phys_frame virt_b r1 >>= λ r2. write virt_a pattern_word r2

-- The end of `test_vmm_aliasing`, which unmaps the addresses that it reads there.
unfoldable pub drop_aliases : Ram → Option (ℕ × Ram)
unfolding read unmap_page
drop_aliases r = read virt_b r >>= λ b.
    unmap_page b r >>= λ s1. read virt_a s1.1 >>= λ a. unmap_page a s1.1 >>= λ s2. some (0, s2.1)

unfoldable pub check_aliases : Ram → Option (ℕ × Ram)
unfolding read drop_aliases
check_aliases r =
    read virt_b r >>= λ b. if b == pattern_word then drop_aliases r else some (minus_one, r)

unfoldable pub test_vmm_aliasing : Ram → Option (ℕ × Ram)
unfolding aliased check_aliases
test_vmm_aliasing r =
    let (phys_frame, frames) = pmm_alloc_page r.vm.frames in
    let v : Vm = record (r.vm) { frames = frames } in
    let r1 : Ram = record r { vm = v } in
    if phys_frame == 0 then some (minus_one, r1) else (aliased phys_frame r1 >>= check_aliases)

-- The end of `test_vmm_unmap_virt`, behind the call that unmaps: its assertions in turn.
unfoldable pub check_unmapped : ℕ × Ram → Option (ℕ × Ram)
unfolding read
check_unmapped (err, r) =
    let last =
      (load (get_pte_ptr virt_b) r.vm >>= λ entry.
      if entry.present == 1 then some (minus_one, r) else some (0, r)) in
    let second = (read virt_a r >>= λ a. if a == pattern_word then last else some (minus_one, r)) in
    if err == 0 then second else some (minus_one, r)

unfoldable pub check_unmapping : Ram → Option (ℕ × Ram)
unfolding read unmap_page check_unmapped
check_unmapping r = read virt_b r >>= λ b.
    if b == pattern_word then (unmap_page virt_b r >>= check_unmapped) else some (minus_one, r)

unfoldable pub test_vmm_unmap_virt : Ram → Option (ℕ × Ram)
unfolding aliased check_unmapping
test_vmm_unmap_virt r =
    let (phys_frame, frames) = pmm_alloc_page r.vm.frames in
    let v : Vm = record (r.vm) { frames = frames } in
    let r1 : Ram = record r { vm = v } in
    if phys_frame == 0 then some (minus_one, r1) else (aliased phys_frame r1 >>= check_unmapping)

-- the counts of the tests passed and of all tests
pub record Counts : Type 0 where
  pub passed : ℕ
  pub total : ℕ

-- `run_test`: the test's result, with the counts.
unfoldable pub run_test :
    {S : Type 0} → (S → Option (ℕ × S)) → Counts × S → Option (ℕ × (Counts × S))
run_test test_func (n, s) = test_func s >>= λ r.
    let passed = if r.0 == 0 then n.passed + 1 else n.passed in
    some (r.0, (record { passed = passed; total = n.total + 1 }, r.1))

-- `err_out || run_test(...)`
unfoldable pub or_run :
    {S : Type 0} → (S → Option (ℕ × S)) → ℕ × (Counts × S) → Option (ℕ × (Counts × S))
unfolding run_test
or_run test_func (err_out, s) =
    if err_out == 0
    then (run_test test_func s >>= λ r. some (if r.0 == 0 then 0 else 1, r.1))
    else some (1, s)

-- `test_all` for its four tests in the order of the source.
unfoldable pub test_all :
    {S : Type 0}
    → (S → Option (ℕ × S))
    → (S → Option (ℕ × S))
    → (S → Option (ℕ × S))
    → (S → Option (ℕ × S))
    → S
    → Option (ℕ × (Counts × S))
unfolding or_run
test_all aliasing unmap_virt sbrk scheduler s =
    run_test aliasing (record { passed = 0; total = 0 }, s)
    >>= or_run unmap_virt
    >>= or_run sbrk
    >>= or_run scheduler
