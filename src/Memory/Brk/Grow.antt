-- ===== src/Memory/Brk/Grow.antt =====
-- What `increment_brk` does to the program break.
use cho_os.Prelude.{
  ℕ, ◌+◌, ◌-◌, ◌≤◌, ◌<◌, ◌≡◌, refl, ap, ◌^◌, ◌⊎◌, inl, inr, true, false, ltb, ◌==◌, arith,
  Bool-cases, add32, some,
}
use cho_os.Memory.Machine.{Env, Machine, page_size, minus_one}
use cho_os.Memory.Brk.{increment_brk, map_up_to, sbrk, page_ceil}

module _ {E : Type 0} (env : Env E) (m : Machine E) (increment : ℕ) where
  -- The break has moved by the increment, and the old one is returned.
  abbrev pub Grown : ℕ × Machine E → Type 0
  Grown (p, m') =
      (p ≡ m.program_break_point)
      × (e : E) × (m'
          ≡ record m { program_break_point = m.program_break_point + increment; env = e })

  -- The error value is returned, and only the state behind the page calls may have changed.
  abbrev pub Refused : ℕ × Machine E → Type 0
  Refused (p, m') = (p ≡ minus_one) × ((e : E) × (m' ≡ record m { env = e }))

  pub increment_brk-cases :
      m.program_break_point + increment < 2 ^ 32
      → Grown (increment_brk env increment m) ⊎ Refused (increment_brk env increment m)
  unfolding increment_brk
  increment_brk-cases small =
      let r =
        map_up_to env (page_ceil m.program_break_point)
          (page_ceil (add32 m.program_break_point increment)) m.env in
      elim (Bool-cases r.0) [
        | inl mapped ↦ rw mapped (inl (refl, r.1, ap moved (omega arith)))
        | inr failed ↦ rw failed (inr (refl, (r.1, refl)))
      ]
    where
      moved : ℕ → Machine E
      moved p = record m {
        program_break_point = p;
        env =
            (map_up_to env (page_ceil m.program_break_point)
              (page_ceil (add32 m.program_break_point increment)) m.env).1;
      }

  -- `sbrk` reads a request below 2 ^ 31 as an increment.
  pub sbrk-cases :
      (fuel : ℕ)
      → 0 < increment
      → increment < 2 ^ 31
      → m.program_break_point + increment < 2 ^ 32
      → (r : ℕ × Machine E) × (sbrk env fuel increment m ≡ some r) × (Grown r ⊎ Refused r)
  unfolding sbrk
  sbrk-cases fuel pos signed small =
      (increment_brk env increment m, ground arith, increment_brk-cases small)

  -- A request below 2^31 that takes a break at least a page below the end of the address space
  -- past that end is granted: nothing is mapped, the state behind the page calls is as before, and
  -- the break comes out below the old one.
  pub sbrk-wraps :
      (fuel : ℕ)
      → increment < 2 ^ 31
      → m.program_break_point + page_size ≤ 2 ^ 32
      → 2 ^ 32 ≤ m.program_break_point + increment
      → sbrk env fuel increment m
        ≡ some (
          m.program_break_point,
          record m { program_break_point = m.program_break_point + increment - 2 ^ 32 },
        )
  unfolding sbrk increment_brk map_up_to
  sbrk-wraps fuel signed page over =
      let still : ltb (page_ceil m.program_break_point)
            (page_ceil (add32 m.program_break_point increment))
          ≡ false =
        ground arith in
      let to : add32 m.program_break_point increment ≡ m.program_break_point + increment - 2 ^ 32 =
        omega arith in
      let small : ltb increment (2 ^ 31) ≡ true = ground arith in
      let some_more : (increment == 0) ≡ false = ground arith in rw (some_more, small, still, to)
