-- ===== src/Kernel/SbrkTest/GiveBack.antt =====
-- The parts of `test_sbrk` that give memory back.
use cho_os.Prelude.{
  ℕ, ◌+◌, ◌-◌, ◌*◌, ◌^◌, ◌≤◌, ◌<◌, ◌≡◌, refl, some, ◌==◌, arith, sym, ◌∙◌, subst, sub32,
}
use cho_os.Memory.Machine.{Machine, minus_one}
use cho_os.Memory.Brk.{sbrk}
use cho_os.Paging.Vmm.{Vm}
use cho_os.Kernel.Env.{Running, kernel_env}
use cho_os.Kernel.Shrink.{sbrk-Shrunk, sbrk-negative, decrement_brk-refused}
use cho_os.Kernel.SbrkTest.{passed, ◌>>=◌, ◌>>◌, ensure, call, give_back, underflow}
use cho_os.Kernel.SbrkTest.Rules.{
  Right, Right->>=, Ready, Moved, request-Right, call_zero-then, request_zero-then, call-then,
  ensure-then, ensure-Right,
}

-- A heap whose break is where the test found it, with what its tests still need to know.
pub record Restored (start alloc_ret : ℕ) (m : Machine Running) : Type 0 where
  pub memory : (v : Vm) × (m.env ≡ some v)
  pub break : alloc_ret ≡ m.program_break_point
  pub heap : m.heap_start ≡ start
  pub kernel : 0xC000_0000 ≤ start
  pub order : start ≤ m.program_break_point
  pub below : m.program_break_point ≤ 1023 * 2 ^ 22

module _ (lock unlock : Running → Running) (fuel : ℕ) where
  -- what follows the call that gives the page back
  after_shrink :
      (increment start old p : ℕ) (m1 m2 : Machine Running)
      → sbrk (kernel_env lock unlock) fuel increment m1 ≡ some (m1.program_break_point, m2)
      → m2.program_break_point ≡ old
      → Restored start p m2
      → Right (Restored start) (
          ◌>>=◌
            (call lock unlock fuel increment)
            (λ shrink_ret.
              ensure (shrink_ret == m1.program_break_point)
              >> (call lock unlock fuel 0 >>= λ final_break.
                  ensure (final_break == old) >> λ m. some (passed p m)))
            m1)
  unfolding Right
  after_shrink increment start old p m1 m2 e to restored =
      call-then lock unlock fuel _ _ increment m1.program_break_point m1 m2 e (
        ensure-then _ _ _ _ (ground arith) (
          call_zero-then lock unlock fuel _ _ m2
            (ensure-then _ _ _ _ (ground (arith, to)) restored)))

  -- The fuel is enough for the one page that is given back.
  pub give_back-Right :
      (start room : ℕ) (m : Machine Running)
      → 1 < fuel
      → Ready start (4096 + room) m
      → Right (Restored start) (give_back lock unlock fuel m)
  unfolding give_back
  give_back-Right start room m enough r =
      let old = m.program_break_point in
      request_zero-then lock unlock fuel _ _ start (4096 + room) m r (
        Right->>= (Moved start room old 4096) _ _ _ m
          (request-Right lock unlock fuel start room 4096 m (omega arith) (omega arith) r)
          λ p m1 (e, to, r1).
            let back : sub32 0 (sub32 m1.program_break_point old) ≡ 2 ^ 32 - 4096 =
              omega (arith, to, r.below) in
            let lower : m1.program_break_point - 4096 ≡ old = omega (arith, to) in
            let (v', e2, _) =
              sbrk-Shrunk lock unlock fuel 4096 m1 r1.memory (omega arith) (omega arith) enough
                r1.backed (omega (arith, to)) (omega (arith, to, r.order, r1.heap))
                (omega (arith, to, r.backed.above)) (omega (arith, r1.below)) in
            let m2 : Machine Running = record m1 {
              program_break_point = m1.program_break_point - 4096;
              env = some v';
            } in
            let growth : sub32 m1.program_break_point old ≡ 4096 = omega (arith, to, r.below) in
            call_zero-then lock unlock fuel _ _ m1 (
              ensure-then _ _ _ _ (ground (arith, growth)) (
                after_shrink _ start old p m1 m2
                  (subst
                    (λ k.
                      sbrk (kernel_env lock unlock) fuel k m1 ≡ some (m1.program_break_point, m2))
                    (sym back) e2)
                  lower
                  (record {
                    memory = (v', refl);
                    break = omega (arith, e, lower);
                    heap = r1.heap;
                    kernel = r1.kernel;
                    order = omega (arith, lower, r.order);
                    below = omega (arith, lower, r.below);
                  }))))

  -- A decrement of a gigabyte ends below the heap, and is refused.
  pub underflow-Right :
      (start alloc_ret : ℕ) (m : Machine Running)
      → Restored start alloc_ret m
      → Right (λ _ m'. m' ≡ m) (underflow lock unlock fuel alloc_ret m)
  unfolding underflow Right
  underflow-Right start alloc_ret m r =
      call-then lock unlock fuel _ _ _ minus_one m m
        (sbrk-negative lock unlock fuel (2 ^ 30) m (omega arith) (omega arith)
          ∙ decrement_brk-refused lock unlock fuel (2 ^ 30) m
              (omega (arith, r.heap, r.kernel, r.order, r.below)))
        (ensure-then _ _ _ _ refl (
          call_zero-then lock unlock fuel _ _ m
            (ensure-Right _ _ _ (ground (arith, r.break)) refl)))
