-- ===== src/Paging/Bits.antt =====
-- A bit that has been set is set.
use Prim.Native.Nat.{max, min, digits, bit_and-bitwise, bit_or-bitwise}
use native.Mathlib.Nat.{pow-suc}
use cho_os.Prelude.{
  ℕ, zero, suc, ◌+◌, ◌*◌, ◌/◌, ◌%◌, ◌^◌, ◌≤◌, ◌<◌, ◌≡◌, refl, ap, ap₂, bit_and, bit_or, arith, true,
  Bool-cases, inl, inr, ◌==◌,
}
use cho_os.Paging.Frames.{Frames, bitmap_set, bitmap_test}

-- the operations by their lowest digits
abbrev and_digits : ℕ → ℕ → ℕ → ℕ
and_digits n a b = digits (λ b. zero) min n a b

abbrev or_digits : ℕ → ℕ → ℕ → ℕ
or_digits n a b = digits (λ b. b) max n a b

and_digits-fuel : (n m a b : ℕ) → a ≤ n → a ≤ m → and_digits n a b ≡ and_digits m a b
and_digits-fuel zero zero a b p q = refl
and_digits-fuel zero (suc m) zero b p q = refl
and_digits-fuel zero (suc m) (suc a) b p q = absurd (omega arith)
and_digits-fuel (suc n) zero zero b p q = refl
and_digits-fuel (suc n) zero (suc a) b p q = absurd (omega arith)
and_digits-fuel (suc n) (suc m) zero b p q = refl
and_digits-fuel (suc n) (suc m) (suc a) b p q =
    omega (arith, and_digits-fuel n m (suc a / 2) (b / 2) (omega arith) (omega arith))

or_digits-fuel : (n m a b : ℕ) → a ≤ n → a ≤ m → or_digits n a b ≡ or_digits m a b
or_digits-fuel zero zero a b p q = refl
or_digits-fuel zero (suc m) zero b p q = refl
or_digits-fuel zero (suc m) (suc a) b p q = absurd (omega arith)
or_digits-fuel (suc n) zero zero b p q = refl
or_digits-fuel (suc n) zero (suc a) b p q = absurd (omega arith)
or_digits-fuel (suc n) (suc m) zero b p q = refl
or_digits-fuel (suc n) (suc m) (suc a) b p q =
    omega (arith, or_digits-fuel n m (suc a / 2) (b / 2) (omega arith) (omega arith))

pub bit_and_step : (a b : ℕ) → bit_and a b ≡ bit_and (a / 2) (b / 2) * 2 + min (a % 2) (b % 2)
bit_and_step zero b = omega (arith, bit_and-bitwise 0 b, bit_and-bitwise 0 (b / 2))
bit_and_step (suc a) b = omega (
  arith,
  bit_and-bitwise (suc a) b,
  bit_and-bitwise (suc a / 2) (b / 2),
  and_digits-fuel a (suc a / 2) (suc a / 2) (b / 2) (omega arith) (omega arith),
)

pub bit_or_step : (a b : ℕ) → bit_or a b ≡ bit_or (a / 2) (b / 2) * 2 + max (a % 2) (b % 2)
bit_or_step zero b = omega (arith, bit_or-bitwise 0 b, bit_or-bitwise 0 (b / 2))
bit_or_step (suc a) b = omega (
  arith,
  bit_or-bitwise (suc a) b,
  bit_or-bitwise (suc a / 2) (b / 2),
  or_digits-fuel a (suc a / 2) (suc a / 2) (b / 2) (omega arith) (omega arith),
)

-- The bit is found in the word that it was set in.
bit_and-bit_or : (w k : ℕ) → 0 < bit_and (bit_or w (2 ^ k)) (2 ^ k)
bit_and-bit_or w zero = omega (arith, bit_and_step (bit_or w 1) 1, bit_or_step w 1)
bit_and-bit_or w (suc k) =
    let double : 2 ^ suc k ≡ 2 ^ k * 2 = pow-suc 2 k in
    let half : 2 ^ suc k / 2 ≡ 2 ^ k = omega (arith, double) in
    let or = bit_or_step w (2 ^ suc k) in
    let upper : bit_or w (2 ^ suc k) / 2 ≡ bit_or (w / 2) (2 ^ k) =
      omega (arith, or, double, ap (bit_or (w / 2)) half) in
    omega (
      arith,
      bit_and_step (bit_or w (2 ^ suc k)) (2 ^ suc k),
      ap₂ bit_and upper half,
      bit_and-bit_or (w / 2) k,
    )

-- What two numbers share is no more than the second one; `limit` bounds the first.
pub shared_le : (limit : ℕ) (w mask : ℕ) → w ≤ limit → bit_and w mask ≤ mask
shared_le limit zero mask bound = omega (arith, bit_and-bitwise 0 mask)
shared_le zero (suc w) mask bound = absurd (omega arith)
shared_le (suc limit) (suc w) mask bound =
    let halves = shared_le limit (suc w / 2) (mask / 2) (omega arith) in
    omega (arith, halves, bit_and_step (suc w) mask)

pub bitmap_test-bitmap_set : (bit : ℕ) (s : Frames) → bitmap_test bit (bitmap_set bit s) ≡ true
unfolding bitmap_test bitmap_set
bitmap_test-bitmap_set bit s =
    let self : (bit / 32 == bit / 32) ≡ true = ground arith in
    let set = bit_and-bit_or (s.bitmap (bit / 32)) (bit % 32) in rw self (ground (arith, set))

-- A bit that is set stays set when others are.
bit_and-bit_or_keeps : (w x k : ℕ) → 0 < bit_and w (2 ^ k) → 0 < bit_and (bit_or w x) (2 ^ k)
bit_and-bit_or_keeps w x zero h =
    let here = bit_and_step w 1 in
    let none_above = shared_le (w / 2) (w / 2) 0 (omega arith) in
    omega (arith, here, none_above, bit_and_step (bit_or w x) 1, bit_or_step w x, h)
bit_and-bit_or_keeps w x (suc k) h =
    let double : 2 ^ suc k ≡ 2 ^ k * 2 = pow-suc 2 k in
    let half : 2 ^ suc k / 2 ≡ 2 ^ k = omega (arith, double) in
    let upper : bit_or w x / 2 ≡ bit_or (w / 2) (x / 2) = omega (arith, bit_or_step w x) in
    let below : 0 < bit_and (w / 2) (2 ^ k) =
      omega (arith, h, bit_and_step w (2 ^ suc k), ap (bit_and (w / 2)) half, double) in
    omega (
      arith,
      bit_and_step (bit_or w x) (2 ^ suc k),
      ap₂ bit_and upper half,
      bit_and-bit_or_keeps (w / 2) (x / 2) k below,
    )

pub bitmap_set-keeps :
    (b bit : ℕ) (s : Frames) → bitmap_test b s ≡ true → bitmap_test b (bitmap_set bit s) ≡ true
unfolding bitmap_test bitmap_set
bitmap_set-keeps b bit s h = elim (Bool-cases (b / 32 == bit / 32)) [
  | inr other ↦ rw other h
  | inl same ↦
      let e : b / 32 ≡ bit / 32 = ground arith in
      let was : 0 < bit_and (s.bitmap (b / 32)) (2 ^ (b % 32)) = ground (arith, h) in
      let now = bit_and-bit_or_keeps (s.bitmap (b / 32)) (2 ^ (bit % 32)) (b % 32) was in
      rw (same, ← e) (ground (arith, now))
]
