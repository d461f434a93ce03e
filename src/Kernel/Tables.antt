-- ===== src/Kernel/Tables.antt =====
-- The page tables and the frame allocator together: no frame that holds a table is given out again,
-- and above the first page table of the higher half every table has one entry of the directory.
use cho_os.Prelude.{
  ℕ, ◌/◌, ◌%◌, ◌^◌, ◌≤◌, ◌<◌, ◌≡◌, ◌≢◌, false, ◌==◌, inl, inr, arith, Bool-cases, ap, sym, ◌∙◌,
  subst, subst₂,
}
use cho_os.Paging.Frames.{Frames, pmm_free_page}
use cho_os.Paging.Release.{pmm_free_page-Released}
use cho_os.Paging.Cache.Fresh.{IsPage, IsCached, GivenOut, Served}
use cho_os.Paging.Vmm.{Vm}
use cho_os.Paging.Vmm.Entries.{WellFormed}
use cho_os.Paging.Vmm.Create.{Unused}

-- the entries of the directory above the kernel's first page table
abbrev pub IsUpper : ℕ → Type 0
IsUpper j = (769 ≤ j) × (j < 1023)

abbrev pub IsTable : Vm → ℕ → Type 0
IsTable v j = ((v.mem v.dir j).present == 0) ≡ false

pub record Sound (v : Vm) : Type 0 where
  pub cached : IsCached v.frames
  pub tables : WellFormed v
  pub dir_given : GivenOut v.frames v.dir
  pub given : (j : ℕ) → IsTable v j → GivenOut v.frames (v.mem v.dir j).frame
  pub own :
      (i j : ℕ)
      → IsUpper i
      → i ≢ j
      → IsTable v i
      → IsTable v j
      → (v.mem v.dir i).frame ≢ (v.mem v.dir j).frame

-- A page is kept as its frame in an entry.
pub frame_of : (page : ℕ) → IsPage page → page / 2 ^ 12 % 2 ^ 20 ≡ page / 4096
frame_of page p = omega (arith, p.small)

-- A page that the allocator has just given is none of the tables.
pub Served-Unused :
    (v : Vm) (frames : Frames) (page : ℕ)
    → Sound v
    → Served v.frames (page, frames)
    → page ≢ 0
    → Unused page v
Served-Unused v frames page sound served ne =
    let frame = frame_of page (served.page ne) in
    record {
      valid = ground arith;
      not_dir = rw frame λ e. served.fresh ne (subst (GivenOut v.frames) (sym e) sound.dir_given);
      not_table =
          rw frame λ j table e. served.fresh ne (subst (GivenOut v.frames) e (sound.given j table));
    }

-- the memory with more frames given out
pub Sound-alloc :
    (v : Vm) (page : ℕ) (frames : Frames)
    → Sound v
    → Served v.frames (page, frames)
    → Sound (record v { frames = frames })
Sound-alloc v page frames s served = record {
  cached = served.sound;
  tables = record {
    recursive = record { present = s.tables.recursive.present; itself = s.tables.recursive.itself };
    apart = s.tables.apart;
  };
  dir_given = served.keeps v.dir s.dir_given;
  given = λ j table. served.keeps (v.mem v.dir j).frame (s.given j table);
  own = s.own;
}

-- The directory has not changed.
pub Sound-same :
    (v v' : Vm)
    → Sound v
    → v'.dir ≡ v.dir
    → ((j : ℕ) → v'.mem v'.dir j ≡ v.mem v.dir j)
    → v'.frames ≡ v.frames
    → WellFormed v'
    → Sound v'
Sound-same v v' s dir entries frames tables = record {
  cached = subst IsCached (sym frames) s.cached;
  tables = tables;
  dir_given = subst₂ GivenOut (sym frames) (sym dir) s.dir_given;
  given = λ j table.
      subst₂ GivenOut (sym frames) (ap (λ p. p.frame) (sym (entries j)))
        (s.given j (rw (entries j) at table));
  own = λ i j upper ne ti tj.
      rw (entries i, entries j) (s.own i j upper ne (rw (entries i) at ti) (rw (entries j) at tj));
}

-- The entry `d` of the directory has got a table in a frame that was not given out before.
pub Sound-linked :
    (v v' : Vm) (d page : ℕ) (frames : Frames)
    → Sound v
    → v'.dir ≡ v.dir
    → ((j : ℕ) → j ≢ d → v'.mem v'.dir j ≡ v.mem v.dir j)
    → (v'.mem v'.dir d).frame ≡ page / 4096
    → v'.frames ≡ frames
    → Served v.frames (page, frames)
    → page ≢ 0
    → WellFormed v'
    → Sound v'
Sound-linked v v' d page frames s dir entries new given served ne tables =
    let old =
      (λ (j : ℕ) (o : j ≢ d) (table : IsTable v' j). s.given j (rw (entries j o) at table)) in
    let apart =
      (λ (j : ℕ) (o : j ≢ d) (table : IsTable v' j) (e : (v.mem v.dir j).frame ≡ page / 4096).
        served.fresh ne (subst (GivenOut v.frames) e (old j o table))) in
    record {
      cached = subst IsCached (sym given) served.sound;
      tables = tables;
      dir_given = subst₂ GivenOut (sym given) (sym dir) (served.keeps v.dir s.dir_given);
      given = λ j table. elim (Bool-cases (j == d)) [
        | inl here ↦
            let e : j ≡ d = ground arith in
            subst₂ GivenOut (sym given) (sym new ∙ ap (λ k. (v'.mem v'.dir k).frame) (sym e))
              (served.given ne)
        | inr there ↦
            let o : j ≢ d = ground arith in
            subst₂ GivenOut (sym given) (ap (λ p. p.frame) (sym (entries j o)))
              (served.keeps (v.mem v.dir j).frame (old j o table))
      ];
      own = λ i j upper differ ti tj. elim (Bool-cases (i == d)) [
        | inl here ↦
            let e : i ≡ d = ground arith in
            let o : j ≢ d = (λ f. differ (e ∙ sym f)) in
            rw (e, new, entries j o) (λ same. apart j o tj (sym same))
        | inr there ↦
            let p : i ≢ d = ground arith in
            elim (Bool-cases (j == d)) [
              | inl here ↦ let e : j ≡ d = ground arith in rw (e, new, entries i p) (apart i p ti)
              | inr also ↦
                  let o : j ≢ d = ground arith in
                  rw (entries i p, entries j o)
                    (s.own i j upper differ (rw (entries i p) at ti) (rw (entries j o) at tj))
            ]
      ];
    }

-- the memory with a page given back that holds no table
pub Sound-free :
    (v : Vm) (page : ℕ)
    → Sound v
    → IsPage page
    → GivenOut v.frames (page / 4096)
    → v.dir ≢ page / 4096
    → ((j : ℕ) → IsTable v j → (v.mem v.dir j).frame ≢ page / 4096)
    → Sound (record v { frames = pmm_free_page page v.frames })
Sound-free v page s p g not_dir not_table =
    let released = pmm_free_page-Released v.frames page s.cached p g in
    record {
      cached = released.sound;
      tables = record {
        recursive = record {
          present = s.tables.recursive.present;
          itself = s.tables.recursive.itself;
        };
        apart = s.tables.apart;
      };
      dir_given = released.others v.dir not_dir s.dir_given;
      given =
          λ j table. released.others (v.mem v.dir j).frame (not_table j table) (s.given j table);
      own = s.own;
    }
