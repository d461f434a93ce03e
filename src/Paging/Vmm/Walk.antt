-- ===== src/Paging/Vmm/Walk.antt =====
-- The tables reached through the last entry of the directory, which points back to the directory.
use cho_os.Prelude.{ℕ, ◌*◌, ◌/◌, ◌%◌, ◌^◌, ◌<◌, ◌≡◌, refl, ap, false, some, ◌==◌, arith}
use cho_os.Paging.Vmm.{Vm, walk, get_pte_ptr, get_pde_ptr, load}

-- The last entry of the directory points to the directory.
pub record Recursive (s : Vm) : Type 0 where
  pub present : ((s.mem s.dir 1023).present == 0) ≡ false
  pub itself : (s.mem s.dir 1023).frame ≡ s.dir

-- The pointer to an entry of the directory leads to that entry.
pub walk-get_pde_ptr :
    (s : Vm) (virt : ℕ)
    → virt < 2 ^ 32
    → Recursive s
    → walk s.mem s.dir (get_pde_ptr virt) ≡ some (s.dir, virt / 2 ^ 22 * 4)
unfolding walk get_pde_ptr
walk-get_pde_ptr s virt small r =
    let top : get_pde_ptr virt / 2 ^ 22 ≡ 1023 = omega arith in
    let second : get_pde_ptr virt / 2 ^ 12 % 2 ^ 10 ≡ 1023 = omega arith in
    let offset : get_pde_ptr virt % 2 ^ 12 ≡ virt / 2 ^ 22 * 4 = omega arith in
    rw (walk, top, second, offset, r.itself, r.present)
      (ap (λ f. some (f, virt / 2 ^ 22 * 4)) r.itself)

-- The pointer to an entry of a page table leads to that entry.
pub walk-get_pte_ptr :
    (s : Vm) (virt : ℕ)
    → virt < 2 ^ 32
    → Recursive s
    → ((s.mem s.dir (virt / 2 ^ 22)).present == 0) ≡ false
    → walk s.mem s.dir (get_pte_ptr virt)
      ≡ some ((s.mem s.dir (virt / 2 ^ 22)).frame, virt / 2 ^ 12 % 2 ^ 10 * 4)
unfolding walk get_pte_ptr
walk-get_pte_ptr s virt small r table =
    let top : get_pte_ptr virt / 2 ^ 22 ≡ 1023 = omega arith in
    let second : get_pte_ptr virt / 2 ^ 12 % 2 ^ 10 ≡ virt / 2 ^ 22 = omega arith in
    let offset : get_pte_ptr virt % 2 ^ 12 ≡ virt / 2 ^ 12 % 2 ^ 10 * 4 = omega arith in
    rw (walk, top, second, offset, r.itself, r.present, table) refl

pub load-get_pde_ptr :
    (s : Vm) (virt : ℕ)
    → virt < 2 ^ 32
    → Recursive s
    → load (get_pde_ptr virt) s ≡ some (s.mem s.dir (virt / 2 ^ 22))
unfolding load
load-get_pde_ptr s virt small r =
    let slot : virt / 2 ^ 22 * 4 / 4 ≡ virt / 2 ^ 22 = omega arith in
    rw (load, walk-get_pde_ptr s virt small r, slot) refl

pub load-get_pte_ptr :
    (s : Vm) (virt : ℕ)
    → virt < 2 ^ 32
    → Recursive s
    → ((s.mem s.dir (virt / 2 ^ 22)).present == 0) ≡ false
    → load (get_pte_ptr virt) s
      ≡ some (s.mem (s.mem s.dir (virt / 2 ^ 22)).frame (virt / 2 ^ 12 % 2 ^ 10))
unfolding load
load-get_pte_ptr s virt small r table =
    let slot : virt / 2 ^ 12 % 2 ^ 10 * 4 / 4 ≡ virt / 2 ^ 12 % 2 ^ 10 = omega arith in
    rw (load, walk-get_pte_ptr s virt small r table, slot) refl
