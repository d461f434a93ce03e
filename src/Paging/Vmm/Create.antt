-- ===== src/Paging/Vmm/Create.antt =====
-- The page table that `vmm_page_map` creates.
use cho_os.Prelude.{
  ℕ, ◌*◌, ◌/◌, ◌%◌, ◌^◌, ◌<◌, ◌≡◌, ◌≢◌, refl, ap, ◌∙◌, true, false, some, ◌==◌, if◌then◌else◌, List,
  ◌∷◌, arith, Bool-cases, inl, inr,
}
use cho_os.Memory.Machine.{◌>>=◌, page_size}
use cho_os.Paging.Frames.{Frames}
use cho_os.Paging.Vmm.{
  Page, Tables, Vm, walk, get_pte_ptr, get_pde_ptr, update, zero_page, put_page, zero_entry,
  create_table, tlb_flush,
}
use cho_os.Paging.Vmm.Walk.{Recursive}
use cho_os.Paging.Vmm.Entries.{pde_of, WellFormed, walk-start, update-link}

-- What the code expects of a new page table: it is none of the tables in use.
pub record Unused (page : ℕ) (s : Vm) : Type 0 where
  pub valid : (page == 0) ≡ false
  pub not_dir : page / 2 ^ 12 % 2 ^ 20 ≢ s.dir
  pub not_table :
      (j : ℕ)
      → ((s.mem s.dir j).present == 0) ≡ false
      → (s.mem s.dir j).frame ≢ page / 2 ^ 12 % 2 ^ 20

-- The directory has a new, empty table for `virt`, and every translation outside the window is as
-- before.
pub record Created (virt : ℕ) (s s' : Vm) : Type 0 where
  pub table : ((pde_of s' virt).present == 0) ≡ false
  pub same : (a : ℕ) → a / 2 ^ 22 ≢ 1023 → walk s'.mem s'.dir a ≡ walk s.mem s.dir a
  pub sound : WellFormed s'
  pub dir : s'.dir ≡ s.dir
  pub entries : (j : ℕ) → j ≢ virt / 2 ^ 22 → s'.mem s'.dir j ≡ s.mem s.dir j

-- the tables once the directory has the new one
linked : ℕ → ℕ → Vm → Tables
linked d g s =
    put_page s.mem s.dir d (record (s.mem s.dir d) { frame = g; present = 1; rw_bit = 1; user = 1 })

emptied : ℕ → Tables → Tables
emptied g m f i = if f == g then zero_entry else m f i

-- A walk by the new table ends there, as it did at the missing table.
walk-emptied :
    (s : Vm) (d g a : ℕ)
    → ((s.mem s.dir d).present == 0) ≡ true
    → g ≢ s.dir
    → ((j : ℕ) → ((s.mem s.dir j).present == 0) ≡ false → (s.mem s.dir j).frame ≢ g)
    → WellFormed s
    → a / 2 ^ 22 ≢ 1023
    → walk (emptied g (linked d g s)) s.dir a ≡ walk s.mem s.dir a
unfolding walk emptied linked
walk-emptied s d g a absent ne fresh wf window =
    let top : (s.dir == g) ≡ false = ground arith in
    let dir : (s.dir == s.dir) ≡ true = ground arith in
    let new : (g == g) ≡ true = ground arith in
    elim (Bool-cases (a / 2 ^ 22 == d)) [
      | inl here ↦
          let e : a / 2 ^ 22 ≡ d = ground arith in rw (walk, top, dir, here, new, e, absent) refl
      | inr there ↦ elim (Bool-cases ((s.mem s.dir (a / 2 ^ 22)).present == 0)) [
        | inl gone ↦ rw (walk, top, dir, there, gone) refl
        | inr table ↦
            let other : ((s.mem s.dir (a / 2 ^ 22)).frame == g) ≡ false =
              ground (arith, fresh (a / 2 ^ 22) table) in
            let old : ((s.mem s.dir (a / 2 ^ 22)).frame == s.dir) ≡ false =
              ground (arith, wf.apart (a / 2 ^ 22) window table) in
            rw (walk, top, dir, there, table, other, old) refl
      ]
    ]

WellFormed-emptied :
    (s : Vm) (d g : ℕ) (frames : Frames) (flushed : List ℕ)
    → g ≢ s.dir
    → d ≢ 1023
    → WellFormed s
    → WellFormed (record s { mem = emptied g (linked d g s); frames = frames; flushed = flushed })
unfolding emptied linked
WellFormed-emptied s d g frames flushed ne user wf =
    let top : (s.dir == g) ≡ false = ground arith in
    let dir : (s.dir == s.dir) ≡ true = ground arith in
    let last : (1023 == d) ≡ false = ground arith in
    record {
      recursive = record {
        present = rw (top, dir, last) wf.recursive.present;
        itself = rw (top, dir, last) wf.recursive.itself;
      };
      apart =
          rw (top, dir)
            λ j nj. elim (Bool-cases (j == d)) [
              | inl here ↦ rw here (λ _. ne)
              | inr there ↦ rw there (wf.apart j nj)
            ];
    }

pub create_table_lem :
    (virt page : ℕ) (frames : Frames) (s : Vm)
    → virt < 2 ^ 32
    → virt / 2 ^ 22 ≢ 1023
    → WellFormed s
    → ((pde_of s virt).present == 0) ≡ true
    → Unused page s
    → (s' : Vm) × (create_table virt (page, frames) s ≡ some (0, s'))
      × Created virt s s'
      × ((pde_of s' virt).frame ≡ page / 2 ^ 12 % 2 ^ 20)
      × (s'.frames ≡ frames)
unfolding create_table emptied linked update zero_page tlb_flush
create_table_lem virt page frames s small user wf absent unused =
    let g = page / 2 ^ 12 % 2 ^ 20 in
    let d = virt / 2 ^ 22 in
    let start = get_pte_ptr virt / page_size * page_size in
    let s1 : Vm = record s { frames = frames } in
    let s2 : Vm = record s1 { mem = linked d g s } in
    let dir : (s.dir == s.dir) ≡ true = ground arith in
    let same : (d == d) ≡ true = ground arith in
    let last : (1023 == d) ≡ false = ground arith in
    let top : (s.dir == g) ≡ false = ground (arith, unused.not_dir) in
    let r2 : Recursive s2 = record {
      present = rw (dir, last) wf.recursive.present;
      itself = rw (dir, last) wf.recursive.itself;
    } in
    let s' : Vm = record s1 { mem = emptied g (linked d g s); flushed = start ∷ s.flushed } in
    let table2 : ((pde_of s2 virt).present == 0) ≡ false = rw (dir, same) refl in
    let frame2 : (pde_of s2 virt).frame ≡ g = rw (dir, same) refl in
    let window : walk s2.mem s2.dir start ≡ some (g, 0) =
      walk-start s2 virt small r2 table2 ∙ ap (λ f. some (f, 0)) frame2 in
    let link = (λ (p : Page). record p { frame = g; present = 1; rw_bit = 1; user = 1 }) in
    let upd : update (get_pde_ptr virt) link s1 ≡ some s2 =
      update-link s1 virt link small
        (record { present = wf.recursive.present; itself = wf.recursive.itself }) in
    let zero : zero_page start (tlb_flush start s2) ≡ some s' = rw (zero_page, window) refl in
    (
      s',
      rw (create_table, unused.valid)
          (ap (λ o. o >>= λ q. zero_page start (tlb_flush start q) >>= λ s3. some (0, s3)) upd
            ∙ ap (λ o. o >>= λ s3. some (0, s3)) zero),
      record {
        table = rw (top, dir, same) refl;
        same = λ a out. walk-emptied s d g a absent unused.not_dir unused.not_table wf out;
        sound = WellFormed-emptied s d g frames (start ∷ s.flushed) unused.not_dir user wf;
        dir = refl;
        entries = λ j ne. let other : (j == d) ≡ false = ground arith in rw (top, dir, other) refl;
      },
      rw (top, dir, same) refl,
      refl,
    )
