-- ===== src/Kernel/SelfTest/Counted.antt =====
-- What `test_all` counts.
use cho_os.Prelude.{
  ℕ, suc, ◌+◌, ◌≤◌, ◌≡◌, ◌≢◌, refl, ap, ◌∙◌, true, false, Option, some, ◌==◌, if◌then◌else◌, ◌⊎◌,
  inl, inr, arith, Bool-cases,
}
use cho_os.Memory.Machine.{◌>>=◌}
use cho_os.Kernel.SelfTest.{Counts, run_test, or_run, test_all}

-- A test that no page fault ends.
abbrev pub Ends : {S : Type 0} → (S → Option (ℕ × S)) → Type 0
Ends {S} test = (s : S) → (code : ℕ) × (s' : S) × (test s ≡ some (code, s'))

-- The result of `n` tests: all have passed, or all but one of those that ran.
abbrev pub Counted : ℕ → ℕ → Counts → Type 0
Counted n err c =
    ((err ≡ 0) × (c.passed ≡ n) × (c.total ≡ n))
    ⊎ ((err ≢ 0) × (c.total ≡ c.passed + 1) × (c.total ≤ n))

abbrev Ran : {S : Type 0} → ℕ → Option (ℕ × (Counts × S)) → Type 0
Ran {S} n o = (err : ℕ) × (c : Counts) × (s : S) × (o ≡ some (err, (c, s))) × Counted n err c

run_test-Ran :
    {S : Type 0} (test : S → Option (ℕ × S)) (n : ℕ) (c : Counts) (s : S)
    → Ends test
    → c.passed ≡ n
    → c.total ≡ n
    → Ran (suc n) (run_test test (c, s))
unfolding run_test
run_test-Ran test n c s ends p t =
    let (code, s', e) = ends s in
    (
      code,
      _,
      s',
      ap
          (λ o. o >>= λ r.
            let passed = if r.0 == 0 then c.passed + 1 else c.passed in
            some (r.0, (record { passed = passed; total = c.total + 1 }, r.1)))
          e,
      elim (Bool-cases (code == 0)) [
        | inl ok ↦ inl (ground arith, rw ok (omega (arith, p)), omega (arith, t))
        | inr failed ↦ inr (ground arith, rw failed (omega (arith, p, t)), omega (arith, t))
      ],
    )

-- the result of `||`
Counted-joined :
    (n code : ℕ) (c : Counts) → Counted n code c → Counted n (if code == 0 then 0 else 1) c
Counted-joined n code c (inl (ok, p, t)) =
    let e : (code == 0) ≡ true = ground (arith, ok) in inl (rw e refl, p, t)
Counted-joined n code c (inr (bad, p, t)) =
    let e : (code == 0) ≡ false = ground (arith, bad) in inr (rw e (λ w. omega (arith, w)), p, t)

or_run-Ran :
    {S : Type 0} (test : S → Option (ℕ × S)) (n : ℕ) (o : Option (ℕ × (Counts × S)))
    → Ends test
    → Ran n o
    → Ran (suc n) (o >>= or_run test)
unfolding or_run
or_run-Ran test n o ends (err, c, s, e, inl (ok, p, t)) =
    let (code, c', s', e', counted) = run_test-Ran test n c s ends p t in
    let pass : (err == 0) ≡ true = ground (arith, ok) in
    (
      if code == 0 then 0 else 1,
      c',
      s',
      ap (λ o. o >>= or_run test) e
          ∙ rw pass (ap (λ o. o >>= λ r. some (if r.0 == 0 then 0 else 1, r.1)) e'),
      Counted-joined (suc n) code c' counted,
    )
or_run-Ran test n o ends (err, c, s, e, inr (bad, p, t)) =
    let stop : (err == 0) ≡ false = ground (arith, bad) in
    (
      1,
      c,
      s,
      ap (λ o. o >>= or_run test) e ∙ rw stop refl,
      inr (λ w. omega (arith, w), p, omega (arith, t)),
    )

-- When none of the four tests ends in a page fault, `test_all` returns 0 with four tests passed of four,
-- or another number with one test fewer passed than have run, which are at most four.
pub test_all-Counted :
    {S : Type 0} (a b c d : S → Option (ℕ × S)) (s : S)
    → Ends a
    → Ends b
    → Ends c
    → Ends d
    → (err : ℕ) × (n : Counts) × (s' : S) × (test_all a b c d s ≡ some (err, (n, s')))
      × Counted 4 err n
unfolding test_all
test_all-Counted a b c d s ea eb ec ed = or_run-Ran d 3 _ ed (
    or_run-Ran c 2 _ ec
      (or_run-Ran b 1 _ eb (run_test-Ran a 0 (record { passed = 0; total = 0 }) s ea refl refl)))
