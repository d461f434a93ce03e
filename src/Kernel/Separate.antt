-- ===== src/Kernel/Separate.antt =====
-- The heap's pages apart from each other and from the page tables.
use cho_os.Prelude.{
  ℕ, ◌+◌, ◌*◌, ◌/◌, ◌%◌, ◌^◌, ◌≤◌, ◌<◌, ◌≡◌, some, ltb, inl, inr, arith, Bool-cases, sym, ◌∙◌,
  subst,
}
use cho_os.Memory.Machine.{Machine}
use cho_os.Memory.Brk.{page_ceil}
use cho_os.Paging.Cache.Fresh.{GivenOut}
use cho_os.Paging.Vmm.{Vm, walk}
use cho_os.Kernel.Env.{Running}
use cho_os.Kernel.Apart.{NotTable, NotTable-later}
use cho_os.Kernel.Growth.{Backed, Survived, some_frame}
use cho_os.Kernel.Break.{IsBacked, Extended}

-- The address is in a page of the heap, and translates to frame `f`.
pub record Leads (m : Machine Running) (v : Vm) (a f : ℕ) : Type 0 where
  pub from : m.heap_start ≤ a
  pub below : a < page_ceil m.program_break_point
  pub leads : walk v.mem v.dir a ≡ some (f, a % 2 ^ 12)

-- The frames of the heap's pages are given out and hold no page table, and no two pages share one.
pub record IsApart (m : Machine Running) (v : Vm) : Type 0 where
  pub given : (a f : ℕ) → Leads m v a f → GivenOut v.frames f
  pub no_table : (a f : ℕ) → Leads m v a f → NotTable f v
  pub distinct : (a b f : ℕ) → Leads m v a f → Leads m v b f → a / 2 ^ 12 ≡ b / 2 ^ 12

-- Headers and payload do not matter to it.
pub IsApart-same :
    (m m' : Machine Running) (v : Vm)
    → IsApart m v
    → m'.program_break_point ≡ m.program_break_point
    → m'.heap_start ≡ m.heap_start
    → IsApart m' v
IsApart-same m m' v x to start = record {
  given = λ a f l. x.given a f (back a f l);
  no_table = λ a f l. x.no_table a f (back a f l);
  distinct = λ a b f l k. x.distinct a b f (back a f l) (back b f k);
}
  where
    back : (a f : ℕ) → Leads m' v a f → Leads m v a f
    back a f l = record {
      from = omega (arith, l.from, start);
      below = subst (λ p. a < page_ceil p) to l.below;
      leads = l.leads;
    }

pub Survived-IsApart :
    (m : Machine Running) (v v' : Vm)
    → m.program_break_point ≤ 1023 * 2 ^ 22
    → IsApart m v
    → Survived (page_ceil m.program_break_point) v v'
    → IsApart (record m { env = some v' }) v'
Survived-IsApart m v v' to x kept = record {
  given = λ a f l. kept.keeps f (x.given a f (back a f l));
  no_table = λ a f l.
      NotTable-later f v v' kept.tables (x.given a f (back a f l)) (x.no_table a f (back a f l));
  distinct = λ a b f l k. x.distinct a b f (back a f l) (back b f k);
}
  where
    back : (a f : ℕ) → Leads (record m { env = some v' }) v' a f → Leads m v a f
    back a f l =
        let below : a < page_ceil m.program_break_point = l.below in
        record {
          from = l.from;
          below = below;
          leads = sym (kept.others a (λ w. omega arith) below) ∙ l.leads;
        }

pub Extended-IsApart :
    (m : Machine Running) (n : ℕ) (v v' : Vm)
    → IsBacked m v
    → m.program_break_point + n ≤ 1023 * 2 ^ 22
    → IsApart m v
    → Extended m n v v'
    → IsApart (record m { program_break_point = m.program_break_point + n; env = some v' }) v'
Extended-IsApart m n v v' b to x extended = record {
  given = λ a f l. elim (Bool-cases (ltb a low)) [
    | inl old ↦ new.keeps f (x.given a f (back a f l (ground arith)))
    | inr fresh ↦
        let (g, e, _, now) = new.frame a (ground arith) l.below in
        subst (GivenOut v'.frames) (some_frame (sym e ∙ l.leads)) now
  ];
  no_table = λ a f l. elim (Bool-cases (ltb a low)) [
    | inl old ↦
        let k = back a f l (ground arith) in
        NotTable-later f v v' new.tables (x.given a f k) (x.no_table a f k)
    | inr fresh ↦ new.apart a f (a % 2 ^ 12) (ground arith) l.below l.leads
  ];
  distinct = λ a c f l k. elim (Bool-cases (ltb a low)) [
    | inl na ↦ elim (Bool-cases (ltb c low)) [
      | inl nc ↦ x.distinct a c f (back a f l (ground arith)) (back c f k (ground arith))
      | inr fc ↦ absurd (mixed a c f l k (ground arith) (ground arith))
    ]
    | inr fa ↦ elim (Bool-cases (ltb c low)) [
      | inl nc ↦ absurd (mixed c a f k l (ground arith) (ground arith))
      | inr fc ↦
          new.distinct a c f (a % 2 ^ 12) (c % 2 ^ 12) (ground arith) l.below (ground arith) k.below
            l.leads k.leads
    ]
  ];
}
  where
    m' : Machine Running
    m' = record m { program_break_point = m.program_break_point + n; env = some v' }

    low : ℕ
    low = page_ceil m.program_break_point

    new : Backed low (page_ceil (m.program_break_point + n)) v v'
    new = extended.new_pages

    back : (a f : ℕ) → Leads m' v' a f → a < low → Leads m v a f
    back a f l below = record {
      from = l.from;
      below = below;
      leads = sym (new.others a (λ w. omega arith) (inl below)) ∙ l.leads;
    }

    mixed : (a c f : ℕ) → Leads m' v' a f → Leads m' v' c f → a < low → low ≤ c → ⊥
    mixed a c f l k below above =
        let (g, e, fresh, _) = new.frame c above k.below in
        fresh (
          subst (GivenOut v.frames) (sym (some_frame (sym e ∙ k.leads)))
            (x.given a f (back a f l below)))
