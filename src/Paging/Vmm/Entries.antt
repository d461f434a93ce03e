-- ===== src/Paging/Vmm/Entries.antt =====
-- The entries of the page tables, and the translations that they give.
use cho_os.Prelude.{
  ℕ, ◌*◌, ◌/◌, ◌%◌, ◌^◌, ◌<◌, ◌≡◌, ◌≢◌, refl, ap, ◌∙◌, Bool, true, false, none, some, ◌==◌, ◌&&◌,
  if◌then◌else◌, List, arith,
}
use cho_os.Memory.Machine.{page_size}
use cho_os.Paging.Vmm.{Page, Tables, Vm, walk, get_pte_ptr, get_pde_ptr, update, put_page}
use cho_os.Paging.Vmm.Walk.{Recursive, walk-get_pde_ptr, walk-get_pte_ptr}

-- the directory's entry for an address
abbrev pub pde_of : Vm → ℕ → Page
pde_of s a = s.mem s.dir (a / 2 ^ 22)

abbrev pub index_of : ℕ → ℕ
index_of a = a / 2 ^ 12 % 2 ^ 10

-- The last entry of the directory, and it alone, points to the directory.
pub record WellFormed (s : Vm) : Type 0 where
  pub recursive : Recursive s
  pub apart :
      (j : ℕ) → j ≢ 1023 → ((s.mem s.dir j).present == 0) ≡ false → (s.mem s.dir j).frame ≢ s.dir

-- Two addresses whose entries of the page tables are one, as those of the boot's two mappings are.
abbrev pub shares : Vm → ℕ → ℕ → Bool
shares s a b = ((pde_of s a).frame == (pde_of s b).frame) && (index_of a == index_of b)

pub upper_same : (a b : ℕ) → a / 2 ^ 12 ≡ b / 2 ^ 12 → a / 2 ^ 22 ≡ b / 2 ^ 22
upper_same a b e = omega arith

-- an update of the entry for `virt`
pub update-entry :
    (s : Vm) (virt : ℕ) (change : Page → Page)
    → virt < 2 ^ 32
    → Recursive s
    → ((pde_of s virt).present == 0) ≡ false
    → let f = (pde_of s virt).frame in
      let i = index_of virt in
      update (get_pte_ptr virt) change s
      ≡ some (record s { mem = put_page s.mem f i (change (s.mem f i)) })
unfolding update
update-entry s virt change small r table =
    let slot : index_of virt * 4 / 4 ≡ index_of virt = omega arith in
    rw (update, walk-get_pte_ptr s virt small r table, slot) refl

-- Beside the changed entry, translations stay.
pub walk-others :
    (m : Tables) (dir f i a : ℕ) (v : Page)
    → f ≢ dir
    → (((m dir (a / 2 ^ 22)).frame == f) && (index_of a == i)) ≡ false
    → walk (put_page m f i v) dir a ≡ walk m dir a
unfolding walk
walk-others m dir f i a v ne out =
    let top : (dir == f) ≡ false = ground arith in rw (walk, top, out) refl

-- the translations by the changed entry
pub walk-changed :
    (m : Tables) (dir f i a : ℕ) (v : Page)
    → f ≢ dir
    → ((m dir (a / 2 ^ 22)).present == 0) ≡ false
    → (m dir (a / 2 ^ 22)).frame ≡ f
    → index_of a ≡ i
    → walk (put_page m f i v) dir a ≡ (if v.present == 0 then none else some (v.frame, a % 2 ^ 12))
unfolding walk
walk-changed m dir f i a v ne table e k =
    let top : (dir == f) ≡ false = ground arith in
    let frame : (f == f) ≡ true = ground arith in
    let index : (i == i) ≡ true = ground arith in rw (walk, top, table, e, k, frame, index) refl

-- a change of an entry in a page table
pub WellFormed-put :
    (s : Vm) (f i : ℕ) (v : Page) (flushed : List ℕ)
    → f ≢ s.dir
    → WellFormed s
    → WellFormed (record s { mem = put_page s.mem f i v; flushed = flushed })
WellFormed-put s f i v flushed ne wf =
    let top : (s.dir == f) ≡ false = ground arith in
    record {
      recursive = record {
        present = rw top wf.recursive.present;
        itself = rw top wf.recursive.itself;
      };
      apart = rw top wf.apart;
    }

-- The start of the page table that holds the entry for `virt` is that table's own window.
pub walk-start :
    (s : Vm) (virt : ℕ)
    → virt < 2 ^ 32
    → Recursive s
    → ((pde_of s virt).present == 0) ≡ false
    → walk s.mem s.dir (get_pte_ptr virt / page_size * page_size) ≡ some ((pde_of s virt).frame, 0)
unfolding get_pte_ptr
walk-start s virt small r table =
    let low = virt / 2 ^ 22 * 2 ^ 22 in
    let start : get_pte_ptr virt / page_size * page_size ≡ get_pte_ptr low = omega arith in
    let upper : low / 2 ^ 22 ≡ virt / 2 ^ 22 = omega arith in
    let first : low / 2 ^ 12 % 2 ^ 10 * 4 ≡ 0 = omega arith in
    ap (walk s.mem s.dir) start
    ∙ walk-get_pte_ptr s low (omega arith) r (rw upper table)
    ∙ rw (upper, first) refl

-- The entry of the directory is filled in.
pub update-link :
    (s : Vm) (virt : ℕ) (change : Page → Page)
    → virt < 2 ^ 32
    → Recursive s
    → let d = virt / 2 ^ 22 in
      update (get_pde_ptr virt) change s
      ≡ some (record s { mem = put_page s.mem s.dir d (change (s.mem s.dir d)) })
unfolding update
update-link s virt change small r =
    let slot : virt / 2 ^ 22 * 4 / 4 ≡ virt / 2 ^ 22 = omega arith in
    rw (update, walk-get_pde_ptr s virt small r, slot) refl
