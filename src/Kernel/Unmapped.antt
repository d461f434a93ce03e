-- ===== src/Kernel/Unmapped.antt =====
-- What unmapping a page, and a row of pages, leaves of the page tables and of the bitmap of frames.
use cho_os.Prelude.{
  ℕ, suc, ◌+◌, ◌-◌, ◌*◌, ◌/◌, ◌^◌, ◌≤◌, ◌<◌, ◌≡◌, ◌≢◌, refl, Bool, false, none, ltb, leb, ◌==◌,
  ◌&&◌, if◌then◌else◌, inl, inr, arith, Bool-cases, ap, sym, ◌∙◌,
}
use cho_os.Memory.Brk.{v2p}
use cho_os.Paging.Frames.{Frames, bitmap_test, bitmap_unset, pmm_free_page}
use cho_os.Paging.Marks.{bitmap_unset-marks}
use cho_os.Paging.Vmm.{Vm, walk}
use cho_os.Paging.Vmm.Entries.{pde_of, index_of, WellFormed}
use cho_os.Paging.Vmm.Unmap.{Unmaps}
use cho_os.Kernel.Tables.{IsUpper, IsTable}
use cho_os.Kernel.Mapping.{walk-absent, other_page}

-- The tables alone, without what the allocator says of their frames.
pub record Tree (v : Vm) : Type 0 where
  pub tables : WellFormed v
  pub own :
      (i j : ℕ)
      → IsUpper i
      → i ≢ j
      → IsTable v i
      → IsTable v j
      → (v.mem v.dir i).frame ≢ (v.mem v.dir j).frame

-- The `n` pages below the one of `top`, by their numbers.
abbrev pub IsBelow : ℕ → ℕ → ℕ → Type 0
IsBelow top n a = (top / 4096 ≤ a / 4096 + n) × (a / 4096 < top / 4096)

-- The frame that `v2p` makes of one of those pages.
abbrev pub is_linear : ℕ → ℕ → ℕ → Bool
is_linear top n c = leb (top / 4096) (c + 0xC_0000 + n) && ltb (c + 0xC_0000) (top / 4096)

-- What unmapping `n` pages below `top` has done.
pub record Shrunk (top n : ℕ) (v v' : Vm) : Type 0 where
  pub gone : (a : ℕ) → IsBelow top n a → walk v'.mem v'.dir a ≡ none
  pub others : (a : ℕ) → (IsBelow top n a → ⊥) → walk v'.mem v'.dir a ≡ walk v.mem v.dir a
  pub marks :
      (c : ℕ)
      → bitmap_test c v'.frames ≡ (if is_linear top n c then false else bitmap_test c v.frames)
  pub tree : Tree v'

pub Tree-frames : (v : Vm) (frames : Frames) → Tree v → Tree (record v { frames = frames })
Tree-frames v frames t = record {
  tables = record {
    recursive = record { present = t.tables.recursive.present; itself = t.tables.recursive.itself };
    apart = t.tables.apart;
  };
  own = t.own;
}

pub unmapped-Tree : (virt code : ℕ) (v v' : Vm) → Tree v → Unmaps virt code v v' → Tree v'
unmapped-Tree virt code v v' t u =
    let entries = u.directory.1 in
    record {
      tables = u.sound;
      own = λ i j upper ne ti tj.
          rw (entries i, entries j)
            (t.own i j upper ne (rw (entries i) at ti) (rw (entries j) at tj));
    }

-- The other pages keep their translations.
pub unmapped-others :
    (virt code : ℕ) (v v' : Vm)
    → IsUpper (virt / 2 ^ 22)
    → Tree v
    → Unmaps virt code v v'
    → (a : ℕ) → a / 2 ^ 12 ≢ virt / 2 ^ 12
    → walk v'.mem v'.dir a ≡ walk v.mem v.dir a
unmapped-others virt code v v' upper t u a ne = elim (Bool-cases (a / 2 ^ 22 == virt / 2 ^ 22)) [
  | inl same ↦
      let e : a / 2 ^ 22 ≡ virt / 2 ^ 22 = ground arith in
      let index : (index_of a == index_of virt) ≡ false = ground (arith, other_page a virt e ne) in
      u.others a (rw index (ground arith))
  | inr apart ↦
      let o : virt / 2 ^ 22 ≢ a / 2 ^ 22 = ground arith in
      elim (Bool-cases ((pde_of v a).present == 0)) [
        | inl absent ↦
            walk-absent v' a (rw (u.directory.1 (a / 2 ^ 22)) absent) ∙ sym (walk-absent v a absent)
        | inr table ↦ elim (Bool-cases ((pde_of v virt).present == 0)) [
          | inr virt_table ↦
              let differ = t.own (virt / 2 ^ 22) (a / 2 ^ 22) upper o virt_table table in
              let frames : ((pde_of v a).frame == (pde_of v virt).frame) ≡ false =
                ground (arith, differ) in
              u.others a (rw frames refl)
          | inl no_table ↦ ap (λ (s : Vm). walk s.mem s.dir a) (u.idle no_table)
        ]
      ]
]

pub Shrunk-none : (top : ℕ) (v : Vm) → Tree v → Shrunk top 0 v v
Shrunk-none top v t = record {
  gone = λ a b. absurd (omega (arith, b));
  others = λ a out. refl;
  marks = λ c. let e : is_linear top 0 c ≡ false = ground arith in rw e refl;
  tree = t;
}

linear_marks :
    (top n c b : ℕ) (now after before : Bool)
    → 4096 ≤ top
    → b + 0xC_0000 ≡ (top - 4096) / 4096
    → after ≡ (if is_linear (top - 4096) n c then false else now)
    → now ≡ (if c == b then false else before)
    → after ≡ (if is_linear top (suc n) c then false else before)
linear_marks top n c b now after before le at e f =
    let page : (top - 4096) / 4096 + 1 ≡ top / 4096 = omega arith in ground arith

-- one page, and then the rest
pub Shrunk-suc :
    (top n code : ℕ) (v v1 v2 v' : Vm)
    → 769 * 2 ^ 22 + suc n * 4096 ≤ top
    → top ≤ 1023 * 2 ^ 22
    → v1 ≡ record v { frames = pmm_free_page (v2p (top - 4096)) v.frames }
    → Unmaps (top - 4096) code v1 v2
    → ((a : ℕ) → a / 2 ^ 12 ≢ (top - 4096) / 2 ^ 12 → walk v2.mem v2.dir a ≡ walk v1.mem v1.dir a)
    → Shrunk (top - 4096) n v2 v'
    → Shrunk top (suc n) v v'
unfolding pmm_free_page
Shrunk-suc top n code v v1 v2 v' room small freed u near rest = record {
  gone = λ a b. elim (Bool-cases (a / 4096 == (top - 4096) / 4096)) [
    | inl here ↦
        let e : a / 4096 ≡ (top - 4096) / 4096 = ground arith in
        rest.others a (λ c. omega (arith, c, e)) ∙ u.gone a e
    | inr below ↦
        let ne : a / 4096 ≢ (top - 4096) / 4096 = ground arith in
        rest.gone a (omega (arith, b), omega (arith, b, ne))
  ];
  others = λ a out.
      rest.others a (λ c. out (omega (arith, c), omega (arith, c)))
      ∙ near a (λ e. out (omega (arith, e), omega (arith, e)))
      ∙ ap (λ (s : Vm). walk s.mem s.dir a) freed;
  marks = λ c.
      let b = v2p (top - 4096) / 4096 in
      let at : b + 0xC_0000 ≡ (top - 4096) / 4096 = omega arith in
      let same : v2.frames ≡ bitmap_unset b v.frames = u.frames ∙ ap (λ (s : Vm). s.frames) freed in
      let now : bitmap_test c v2.frames ≡ (if c == b then false else bitmap_test c v.frames) =
        ap (bitmap_test c) same ∙ bitmap_unset-marks b c v.frames in
      linear_marks top n c b _ _ _ (omega arith) at (rest.marks c) now;
  tree = rest.tree;
}
