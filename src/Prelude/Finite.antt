-- ===== src/Prelude/Finite.antt =====
-- A property of the first numbers, checked one by one.
use Prim.Native.Nat.{ℕ, zero, suc, ◌<◌}
use mathlib.Core.Path.{◌≡◌, subst}
use mathlib.Core.Logic.{inl, inr}
use mathlib.Core.Bool.{Bool, true, ◌&&◌}
use native.Mathlib.Omega.{arith}
use cho_os.Prelude.Tests.{◌==◌, Bool-cases}

&&-left : (b c : Bool) → (b && c) ≡ true → b ≡ true
&&-left b c h = ground arith

&&-right : (b c : Bool) → (b && c) ≡ true → c ≡ true
&&-right b c h = ground arith

unfoldable pub all_below : ℕ → (ℕ → Bool) → Bool
all_below zero p = true
all_below (suc n) p = p n && all_below n p

pub all_below_lem : (n : ℕ) (p : ℕ → Bool) → all_below n p ≡ true → (k : ℕ) → k < n → p k ≡ true
unfolding all_below
all_below_lem zero p h k lt = absurd (omega arith)
all_below_lem (suc n) p h k lt = elim (Bool-cases (k == n)) [
  | inl e ↦ subst (λ x. p x ≡ true) (ground arith) (&&-left (p n) (all_below n p) h)
  | inr e ↦ all_below_lem n p (&&-right (p n) (all_below n p) h) k (ground arith)
]
