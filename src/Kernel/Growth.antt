-- ===== src/Kernel/Growth.antt =====
-- The loop of `increment_brk` on the allocator and the page tables.
use cho_os.Prelude.{
  ℕ, zero, suc, ◌+◌, ◌*◌, ◌/◌, ◌%◌, ◌^◌, ◌≤◌, ◌<◌, ◌≡◌, ◌≢◌, refl, Bool, true, false, Option, some,
  ltb, ◌==◌, ◌⊎◌, inl, inr, arith, Bool-cases, sym, ◌∙◌, subst, add32,
}
use cho_os.Memory.Machine.{page_size}
use cho_os.Memory.Brk.{map_pages}
use cho_os.Paging.Frames.{Frames, pmm_alloc_page, pmm_free_page}
use cho_os.Paging.Release.{pmm_free_page-Released}
use cho_os.Paging.Cache.Fresh.{GivenOut, Served, pmm_alloc_page-Served}
use cho_os.Paging.Vmm.{Vm, walk}
use cho_os.Kernel.Env.{Running, alloc_on, free_on, map_on, kernel_env}
use cho_os.Kernel.Tables.{Sound, Sound-alloc, Sound-free, frame_of}
use cho_os.Kernel.Apart.{
  NewTables, NotTable, NewTables-frames, NewTables-trans, NotTable-later, fresh-NotTable,
}
use cho_os.Kernel.Mapping.{Mapped, vmm_page_map-cases}

-- Each page from `low` to below `high` has a frame of its own, which was not given out before; what is
-- not between them, and not in the window of the tables, is as before.
pub record Backed (low high : ℕ) (v v' : Vm) : Type 0 where
  pub frame :
      (a : ℕ)
      → low ≤ a
      → a < high
      → (f : ℕ) × (walk v'.mem v'.dir a ≡ some (f, a % 2 ^ 12))
        × (GivenOut v.frames f → ⊥)
        × GivenOut v'.frames f
  pub distinct :
      (a b f x y : ℕ)
      → low ≤ a
      → a < high
      → low ≤ b
      → b < high
      → walk v'.mem v'.dir a ≡ some (f, x)
      → walk v'.mem v'.dir b ≡ some (f, y)
      → a / 2 ^ 12 ≡ b / 2 ^ 12
  pub others :
      (a : ℕ)
      → a / 2 ^ 22 ≢ 1023
      → (a < low) ⊎ (high ≤ a)
      → walk v'.mem v'.dir a ≡ walk v.mem v.dir a
  pub sound : Sound v'
  pub keeps : (b : ℕ) → GivenOut v.frames b → GivenOut v'.frames b
  pub tables : NewTables v v'
  pub apart : (a f x : ℕ) → low ≤ a → a < high → walk v'.mem v'.dir a ≡ some (f, x) → NotTable f v'

pub Backed-none : (low : ℕ) (v : Vm) → Sound v → Backed low low v v
Backed-none low v s = record {
  frame = λ a lo hi. absurd (omega arith);
  distinct = λ a b f x y lo hi. absurd (omega arith);
  others = λ a window out. refl;
  sound = s;
  keeps = λ b g. g;
  tables = NewTables-frames v v.frames;
  apart = λ a f x lo hi. absurd (omega arith);
}

pub some_frame : {f g x y : ℕ} → ◌≡◌ {A = Option (ℕ × ℕ)} (some (f, x)) (some (g, y)) → f ≡ g
some_frame e = cc

-- One page, whose frame `f` is new, and then the rest.
module _ (low high f : ℕ) (v v1 v2 v' : Vm) (aligned : low % 4096 ≡ 0) (room : low + 4096 ≤ high)
    (top : high ≤ 1023 * 2 ^ 22) (same : (a : ℕ) → walk v1.mem v1.dir a ≡ walk v.mem v.dir a)
    (alloc : (b : ℕ) → GivenOut v.frames b → GivenOut v1.frames b) (early : NewTables v v1)
    (unlisted : NotTable f v1) (new : GivenOut v.frames f → ⊥) (given : GivenOut v1.frames f)
    (first : Mapped low f v1 v2) (rest : Backed (low + 4096) high v2 v') where
  in_first : (a : ℕ) → low ≤ a → a < low + 4096 → walk v'.mem v'.dir a ≡ some (f, a % 2 ^ 12)
  in_first a lo hi = rest.others a (omega arith) (inl hi) ∙ first.here a (omega arith)

  given2 : GivenOut v2.frames f
  given2 = first.keeps f given

  keeps2 : (b : ℕ) → GivenOut v.frames b → GivenOut v2.frames b
  keeps2 b g = first.keeps b (alloc b g)

  -- The first page shares its frame with none of the others.
  apart :
      (a g x y b : ℕ)
      → low ≤ a
      → a < low + 4096
      → low + 4096 ≤ b
      → b < high
      → walk v'.mem v'.dir a ≡ some (g, x)
      → walk v'.mem v'.dir b ≡ some (g, y)
      → ⊥
  apart a g x y b lo hi lob hib ea eb =
      let (h, eh, fresh, _) = rest.frame b lob hib in
      let to : f ≡ h = some_frame (sym (in_first a lo hi) ∙ ea) ∙ some_frame (sym eb ∙ eh) in
      fresh (subst (GivenOut v2.frames) to given2)

  Backed-next : Backed low high v v'
  Backed-next = record {
    frame = λ a lo hi. elim (Bool-cases (ltb a (low + 4096))) [
      | inl near ↦ (f, in_first a lo (ground arith), new, rest.keeps f given2)
      | inr far ↦
          let (g, e, fresh, now) = rest.frame a (ground arith) hi in
          (g, e, λ old. fresh (keeps2 g old), now)
    ];
    distinct = λ a b g x y loa hia lob hib ea eb. elim (Bool-cases (ltb a (low + 4096))) [
      | inl na ↦ elim (Bool-cases (ltb b (low + 4096))) [
        | inl nb ↦
            let p : a < low + 4096 = ground arith in
            let q : b < low + 4096 = ground arith in omega arith
        | inr fb ↦ absurd (apart a g x y b loa (ground arith) (ground arith) hib ea eb)
      ]
      | inr fa ↦ elim (Bool-cases (ltb b (low + 4096))) [
        | inl nb ↦ absurd (apart b g y x a lob (ground arith) (ground arith) hia eb ea)
        | inr fb ↦ rest.distinct a b g x y (ground arith) hia (ground arith) hib ea eb
      ]
    ];
    others = λ a window out.
        let (below, page) = clear a out in
        rest.others a window below ∙ first.others a window page ∙ same a;
    sound = rest.sound;
    keeps = λ b g. rest.keeps b (keeps2 b g);
    tables =
        NewTables-trans v v2 v' keeps2 (NewTables-trans v v1 v2 alloc early first.tables)
          rest.tables;
    apart = λ a g x lo hi e. elim (Bool-cases (ltb a (low + 4096))) [
      | inl near ↦
          let is : f ≡ g = some_frame (sym (in_first a lo (ground arith)) ∙ e) in
          subst (λ k. NotTable k v') is
            (NotTable-later f v2 v' rest.tables given2
              (NotTable-later f v1 v2 first.tables given unlisted))
      | inr far ↦ rest.apart a g x (ground arith) hi e
    ];
  }
    where
      clear :
          (a : ℕ)
          → (a < low) ⊎ (high ≤ a)
          → ((a < low + 4096) ⊎ (high ≤ a)) × (a / 2 ^ 12 ≢ low / 2 ^ 12)
      clear a (inl lt) = (inl (omega arith), λ e. omega arith)
      clear a (inr ge) = (inr ge, λ e. omega arith)

-- What a loop that ran out of memory leaves: below `low` nothing is mapped otherwise.
pub record Survived (low : ℕ) (v v' : Vm) : Type 0 where
  pub others : (a : ℕ) → a / 2 ^ 22 ≢ 1023 → a < low → walk v'.mem v'.dir a ≡ walk v.mem v.dir a
  pub sound : Sound v'
  pub keeps : (b : ℕ) → GivenOut v.frames b → GivenOut v'.frames b
  pub tables : NewTables v v'

-- The page that could not be mapped is given back.
freed-Survived :
    (v : Vm) (low page : ℕ) (frames frames2 : Frames)
    → Sound v
    → Served v.frames (page, frames)
    → page ≢ 0
    → Sound (record v { frames = frames2 })
    → ((b : ℕ) → GivenOut frames b → GivenOut frames2 b)
    → Survived low v (record v { frames = pmm_free_page page frames2 })
freed-Survived v low page frames frames2 s served ne s2 keeps =
    let b = page / 4096 in
    let given = keeps b (served.given ne) in
    let fresh = served.fresh ne in
    let released = pmm_free_page-Released frames2 page s2.cached (served.page ne) given in
    record {
      others = λ a window lt. refl;
      sound =
          Sound-free (record v { frames = frames2 }) page s2 (served.page ne) given
            (λ e. fresh (subst (GivenOut v.frames) e s.dir_given))
            (λ j table e. fresh (subst (GivenOut v.frames) e (s.given j table)));
      keeps = λ c g.
          released.others c (λ e. fresh (subst (GivenOut v.frames) e g))
            (keeps c (served.keeps c g));
      tables = NewTables-frames v (pmm_free_page page frames2);
    }

-- What the loop comes to, after `pages` pages from `low` on.
pub data Grew (low pages : ℕ) (v : Vm) : Bool × Running → Type 0 where
  mapped : (v' : Vm) → Backed low (low + pages * 4096) v v' → Grew low pages v (true, some v')
  out_of_memory : (v' : Vm) → Survived low v v' → Grew low pages v (false, some v')

Grew-suc :
    (low pages f : ℕ) (v v1 v2 : Vm) {r : Bool × Running}
    → low % 4096 ≡ 0
    → low + suc pages * 4096 ≤ 1023 * 2 ^ 22
    → ((a : ℕ) → walk v1.mem v1.dir a ≡ walk v.mem v.dir a)
    → ((b : ℕ) → GivenOut v.frames b → GivenOut v1.frames b)
    → NewTables v v1
    → NotTable f v1
    → (GivenOut v.frames f → ⊥)
    → GivenOut v1.frames f
    → Mapped low f v1 v2
    → Grew (low + 4096) pages v2 r
    → Grew low (suc pages) v r
Grew-suc low pages f v v1 v2 aligned to same alloc early unlisted new given first (mapped v' rest) =
    let high : low + 4096 + pages * 4096 ≡ low + suc pages * 4096 = omega arith in
    mapped v' (
      Backed-next low (low + suc pages * 4096) f v v1 v2 v' aligned (omega arith) to same alloc
        early unlisted new given first (subst (λ h. Backed (low + 4096) h v2 v') high rest))
Grew-suc low pages f v v1 v2 aligned to same alloc early unlisted new given first
      (out_of_memory v' rest) =
    out_of_memory v' (record {
      others = λ a window lt.
          rest.others a window (omega arith) ∙ first.others a window (λ e. omega arith) ∙ same a;
      sound = rest.sound;
      keeps = λ b g. rest.keeps b (first.keeps b (alloc b g));
      tables =
          NewTables-trans v v2 v' (λ b g. first.keeps b (alloc b g))
            (NewTables-trans v v1 v2 alloc early first.tables) rest.tables;
    })

module _ (lock unlock : Running → Running) where
  pub map_pages-Grew :
      (pages low : ℕ) (v : Vm)
      → low % 4096 ≡ 0
      → 769 * 2 ^ 22 ≤ low
      → low + pages * 4096 ≤ 1023 * 2 ^ 22
      → Sound v
      → Grew low pages v (map_pages (kernel_env lock unlock) pages low (some v))
  unfolding map_pages alloc_on map_on free_on
  map_pages-Grew zero low v aligned from to s =
      mapped v (subst (λ high. Backed low high v v) (omega arith) (Backed-none low v s))
  map_pages-Grew (suc pages) low v aligned from to s =
      let (page, frames) = pmm_alloc_page v.frames in
      let v1 : Vm = record v { frames = frames } in
      let served = pmm_alloc_page-Served v.frames s.cached in
      let s1 = Sound-alloc v page frames s served in
      elim (Bool-cases (page == 0)) [
        | inl full ↦ rw full (
            out_of_memory v1 (record {
              others = λ a w lt. refl;
              sound = s1;
              keeps = served.keeps;
              tables = NewTables-frames v frames;
            }))
        | inr got ↦
            let ne : page ≢ 0 = ground arith in
            elim (vmm_page_map-cases page low 3 v1 (omega arith) (omega arith, omega arith) s1) [
              | inr e ↦
                  let again = pmm_alloc_page-Served frames s1.cached in
                  let frames2 = (pmm_alloc_page frames).1 in
                  let s2 = Sound-alloc v1 (pmm_alloc_page frames).0 frames2 s1 again in
                  rw (got, e)
                    (out_of_memory _
                      (freed-Survived v low page frames frames2 s served ne s2 again.keeps))
              | inl (v2, e, first) ↦
                  let frame = frame_of page (served.page ne) in
                  let unlisted : NotTable (page / 4096) v1 =
                    (let n = fresh-NotTable (page / 4096) v s (served.fresh ne) in
                      record { not_dir = n.not_dir; not_table = n.not_table }) in
                  let next : add32 low page_size ≡ low + 4096 = omega arith in
                  rw (got, e, next)
                    (Grew-suc low pages (page / 4096) v v1 v2 aligned to (λ a. refl) served.keeps
                      (NewTables-frames v frames) unlisted (served.fresh ne) (served.given ne)
                      (subst (λ f. Mapped low f v1 v2) frame first)
                      (map_pages-Grew pages (low + 4096) v2 (omega arith) (omega arith)
                        (omega arith) first.sound))
            ]
      ]
