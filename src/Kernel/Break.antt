-- ===== src/Kernel/Break.antt =====
-- `sbrk` on the allocator and the page tables.
use cho_os.Prelude.{
  ℕ, ◌+◌, ◌-◌, ◌*◌, ◌/◌, ◌%◌, ◌^◌, ◌≤◌, ◌<◌, ◌≡◌, refl, Bool, true, false, Option, some, ltb, ◌==◌,
  if◌then◌else◌, ◌⊎◌, inl, inr, arith, Bool-cases, sym, ◌∙◌, subst, add32,
}
use cho_os.Memory.Machine.{Machine, minus_one}
use cho_os.Memory.Brk.{map_up_to, increment_brk, sbrk, page_ceil}
use cho_os.Paging.Vmm.{Vm, walk}
use cho_os.Kernel.Env.{Running, kernel_env}
use cho_os.Kernel.Tables.{Sound}
use cho_os.Kernel.Growth.{
  Backed, Backed-none, Survived, Grew, mapped, out_of_memory, map_pages-Grew,
}

-- Every page that the heap reaches into has a frame.
pub record IsBacked (m : Machine Running) (v : Vm) : Type 0 where
  pub memory : m.env ≡ some v
  pub sound : Sound v
  pub above : 0xC040_0000 ≤ m.program_break_point
  pub pages :
      (a : ℕ)
      → m.heap_start ≤ a
      → a < page_ceil m.program_break_point
      → (f : ℕ) × (walk v.mem v.dir a ≡ some (f, a % 2 ^ 12))

page_ceil_lem : (x : ℕ) → x + 4096 < 2 ^ 32 → page_ceil x ≡ (x + 4095) / 4096 * 4096
page_ceil_lem x small = omega arith

-- What a request that is not refused has done.
pub record Extended (m : Machine Running) (increment : ℕ) (v v' : Vm) : Type 0 where
  pub new_pages :
      Backed (page_ceil m.program_break_point) (page_ceil (m.program_break_point + increment)) v v'
  pub heap :
      IsBacked
        (record m { program_break_point = m.program_break_point + increment; env = some v' })
        v'

-- How a request ends.
abbrev pub Requested : Machine Running → ℕ → Vm → Option (ℕ × Machine Running) → Type 0
Requested m increment v r =
    ((v' : Vm) × (r
        ≡ some (
          m.program_break_point,
          record m { program_break_point = m.program_break_point + increment; env = some v' },
        ))
      × Extended m increment v v')
    ⊎ ((v' : Vm) × (r ≡ some (minus_one, record m { env = some v' }))
        × IsBacked (record m { env = some v' }) v'
        × Survived (page_ceil m.program_break_point) v v')

-- from what the loop came to
Grew-Requested :
    (m : Machine Running) (increment low pages : ℕ) (v : Vm) (r : Bool × Running)
    → ((v' : Vm) → Backed low (low + pages * 4096) v v' → Extended m increment v v')
    → ((v' : Vm)
        → Survived low v v'
        → IsBacked (record m { env = some v' }) v'
          × Survived (page_ceil m.program_break_point) v v')
    → Grew low pages v r
    → Requested m increment v (
        some (
          if r.0
          then (
            m.program_break_point,
            record m { program_break_point = m.program_break_point + increment; env = r.1 },
          )
          else (minus_one, record m { env = r.1 })))
Grew-Requested m increment low pages v r extend keep (mapped v' b) = inl (v', refl, extend v' b)
Grew-Requested m increment low pages v r extend keep (out_of_memory v' b) =
    (let (heap, kept) = keep v' b in inr (v', refl, heap, kept))

module _ (lock unlock : Running → Running) where
  map_up_to-Grew :
      (low high : ℕ) (v : Vm)
      → low % 4096 ≡ 0
      → high % 4096 ≡ 0
      → low ≤ high
      → 769 * 2 ^ 22 ≤ low
      → high ≤ 1023 * 2 ^ 22
      → Sound v
      → Grew low ((high - low) / 4096) v (map_up_to (kernel_env lock unlock) low high (some v))
  unfolding map_up_to
  map_up_to-Grew low high v la ha le from to s = elim (Bool-cases (ltb low high)) [
    | inl more ↦
        rw more (map_pages-Grew lock unlock ((high - low) / 4096) low v la from (omega arith) s)
    | inr done ↦
        let pages : (high - low) / 4096 ≡ 0 = ground arith in
        rw (done, pages)
          (mapped v (subst (λ h. Backed low h v v) (omega arith) (Backed-none low v s)))
  ]

  Extended-lem :
      (m : Machine Running) (increment : ℕ) (v v' : Vm)
      → IsBacked m v
      → m.program_break_point + increment ≤ 1023 * 2 ^ 22
      → Backed
          (page_ceil m.program_break_point)
          (page_ceil (m.program_break_point + increment))
          v
          v'
      → Extended m increment v v'
  Extended-lem m increment v v' b to new = record {
    new_pages = new;
    heap = record {
      memory = refl;
      sound = new.sound;
      above = omega (arith, b.above);
      pages = λ a lo hi. elim (Bool-cases (ltb a (page_ceil m.program_break_point))) [
        | inl old ↦
            let (f, e) = b.pages a lo (ground arith) in
            let lt : a < page_ceil m.program_break_point = ground arith in
            (f, new.others a (λ w. omega arith) (inl lt) ∙ e)
        | inr fresh ↦ let (f, e, _, _) = new.frame a (ground arith) hi in (f, e)
      ];
    };
  }

  Survived-IsBacked :
      (m : Machine Running) (v v' : Vm)
      → IsBacked m v
      → m.program_break_point ≤ 1023 * 2 ^ 22
      → Survived (page_ceil m.program_break_point) v v'
      → IsBacked (record m { env = some v' }) v'
  Survived-IsBacked m v v' b to kept = record {
    memory = refl;
    sound = kept.sound;
    above = b.above;
    pages = λ a lo hi. let (f, e) = b.pages a lo hi in (f, kept.others a (λ w. omega arith) hi ∙ e);
  }

  -- A request of `sbrk` below 2^31 for a heap behind the kernel's first 4 MiB whose pages all have
  -- frames, and that leaves the break below the window of the tables, ends with no page fault. Either
  -- it is refused, and -1 is returned with the break where it was and no address below the end of the
  -- heap's last page translating otherwise; or the old break is returned, the new one is `increment` above
  -- it, every page that the heap has reached into has got a frame of its own, which was not given out
  -- before and holds no table, and no address outside the new pages and the window translates otherwise.
  -- Both ways every page of the heap has a frame afterwards, every frame that was given out still is, a
  -- table is in the frame of one of before or in a frame that was not given out, and no frame that holds a
  -- table is free or waits in the cache of the allocator.
  pub sbrk-Requested :
      (fuel increment : ℕ) (m : Machine Running) (v : Vm)
      → 0 < increment
      → increment < 2 ^ 31
      → IsBacked m v
      → m.program_break_point + increment ≤ 1023 * 2 ^ 22
      → Requested m increment v (sbrk (kernel_env lock unlock) fuel increment m)
  unfolding sbrk increment_brk
  sbrk-Requested fuel increment m v pos signed b to =
      let low = page_ceil m.program_break_point in
      let high = page_ceil (m.program_break_point + increment) in
      let zero_test : (increment == 0) ≡ false = ground arith in
      let sign_test : ltb increment (2 ^ 31) ≡ true = ground arith in
      let sum : add32 m.program_break_point increment ≡ m.program_break_point + increment =
        omega arith in
      let le : low ≤ high = omega arith in
      let pages = (high - low) / 4096 in
      let grown : Grew low pages v (map_up_to (kernel_env lock unlock) low high m.env) =
        subst (λ e. Grew low pages v (map_up_to (kernel_env lock unlock) low high e)) (sym b.memory)
          (map_up_to-Grew low high v (omega arith) (omega arith) le (omega (arith, b.above))
            (omega arith) b.sound) in
      let whole : low + pages * 4096 ≡ high = omega arith in
      rw (zero_test, sign_test, sum)
        (Grew-Requested m increment low pages v _
          (λ v' new. Extended-lem m increment v v' b to (subst (λ h. Backed low h v v') whole new))
          (λ v' kept. (Survived-IsBacked m v v' b (omega arith) kept, kept)) grown)
