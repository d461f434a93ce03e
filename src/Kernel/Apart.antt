-- ===== src/Kernel/Apart.antt =====
-- The frames of the page tables and those that something else has.
use cho_os.Prelude.{ℕ, ◌≡◌, ◌≢◌, refl, sym, ◌∙◌, subst}
use cho_os.Paging.Frames.{Frames}
use cho_os.Paging.Cache.Fresh.{GivenOut}
use cho_os.Paging.Vmm.{Vm}
use cho_os.Kernel.Tables.{IsTable, Sound}

-- The frame holds neither the page directory nor a page table.
pub record NotTable (f : ℕ) (v : Vm) : Type 0 where
  pub not_dir : v.dir ≢ f
  pub not_table : (j : ℕ) → IsTable v j → (v.mem v.dir j).frame ≢ f

-- The tables are in the frames of tables of before, or in frames that were not given out.
pub record NewTables (v v' : Vm) : Type 0 where
  pub dir : v'.dir ≡ v.dir
  pub old :
      (j : ℕ)
      → IsTable v' j
      → GivenOut v.frames (v'.mem v'.dir j).frame
      → (i : ℕ) × IsTable v i × ((v.mem v.dir i).frame ≡ (v'.mem v'.dir j).frame)

pub NewTables-frames : (v : Vm) (frames : Frames) → NewTables v (record v { frames = frames })
NewTables-frames v frames = record { dir = refl; old = λ j table g. (j, table, refl) }

pub NewTables-trans :
    (v v1 v2 : Vm)
    → ((b : ℕ) → GivenOut v.frames b → GivenOut v1.frames b)
    → NewTables v v1
    → NewTables v1 v2
    → NewTables v v2
NewTables-trans v v1 v2 keeps x y = record {
  dir = y.dir ∙ x.dir;
  old = λ j table g.
      let (i, table1, e1) = y.old j table (keeps (v2.mem v2.dir j).frame g) in
      let (k, table0, e0) = x.old i table1 (subst (GivenOut v.frames) (sym e1) g) in
      (k, table0, e0 ∙ e1);
}

-- What was given out and held no table holds none later.
pub NotTable-later :
    (f : ℕ) (v v' : Vm) → NewTables v v' → GivenOut v.frames f → NotTable f v → NotTable f v'
NotTable-later f v v' x g n = record {
  not_dir = λ e. n.not_dir (sym x.dir ∙ e);
  not_table = λ j table e.
      let (i, table0, e0) = x.old j table (subst (GivenOut v.frames) (sym e) g) in
      n.not_table i table0 (e0 ∙ e);
}

-- What was not given out holds no table.
pub fresh-NotTable : (f : ℕ) (v : Vm) → Sound v → (GivenOut v.frames f → ⊥) → NotTable f v
fresh-NotTable f v s new = record {
  not_dir = λ e. new (subst (GivenOut v.frames) e s.dir_given);
  not_table = λ j table e. new (subst (GivenOut v.frames) e (s.given j table));
}
