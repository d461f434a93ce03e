-- ===== src/Paging/Marks.antt =====
-- The marks of the bitmap: what setting and clearing one does to every other.
use native.Mathlib.Nat.{pow-suc, one-le-pow}
use cho_os.Prelude.{
  ℕ, zero, suc, ◌-◌, ◌*◌, ◌/◌, ◌%◌, ◌^◌, ◌≤◌, ◌<◌, ◌≡◌, ◌≢◌, refl, ap, ◌∙◌, subst, Bool, true,
  false, ◌==◌, ◌&&◌, if◌then◌else◌, bit_and, bit_or, ◌⊎◌, inl, inr, arith, Bool-cases, all_below,
  all_below_lem,
}
use cho_os.Paging.Frames.{Frames, full_word, bitmap_set, bitmap_unset, bitmap_test}
use cho_os.Paging.Bits.{bit_and_step, bit_or_step, shared_le, bitmap_test-bitmap_set}

-- the binary digit of `w` at `k`
digit : ℕ → ℕ → ℕ
digit w zero = w % 2
digit w (suc k) = digit (w / 2) k

digit-cases : (w k : ℕ) → (digit w k ≡ 0) ⊎ (digit w k ≡ 1)
unfolding digit
digit-cases w zero = elim (Bool-cases (w % 2 == 0)) [
  | inl e ↦ inl (ground arith)
  | inr e ↦ inr (ground arith)
]
digit-cases w (suc k) = digit-cases (w / 2) k

bit_and-power : (w k : ℕ) → bit_and w (2 ^ k) ≡ digit w k * 2 ^ k
unfolding digit
bit_and-power w zero = omega (arith, bit_and_step w 1, shared_le (w / 2) (w / 2) 0 (omega arith))
bit_and-power w (suc k) =
    let double : 2 ^ suc k ≡ 2 ^ k * 2 = pow-suc 2 k in
    let half : 2 ^ suc k / 2 ≡ 2 ^ k = omega (arith, double) in
    let shared = ap (bit_and (w / 2)) half ∙ bit_and-power (w / 2) k in
    let scaled : digit (w / 2) k * 2 ^ suc k ≡ digit (w / 2) k * 2 ^ k * 2 =
      ap (λ x. digit (w / 2) k * x) double ∙ omega arith in
    omega (arith, bit_and_step w (2 ^ suc k), shared, double, scaled)

digit-bit_and : (a b k : ℕ) → digit (bit_and a b) k ≡ digit a k * digit b k
unfolding digit
digit-bit_and a b zero = elim (digit-cases b zero) [
  | inl e ↦ rw e (omega (arith, bit_and_step a b, e))
  | inr e ↦ rw e (omega (arith, bit_and_step a b, e))
]
digit-bit_and a b (suc k) =
    let upper : bit_and a b / 2 ≡ bit_and (a / 2) (b / 2) = omega (arith, bit_and_step a b) in
    ap (λ x. digit x k) upper ∙ digit-bit_and (a / 2) (b / 2) k

digit-bit_or : (a b k : ℕ) → digit b k ≡ 0 → digit (bit_or a b) k ≡ digit a k
unfolding digit
digit-bit_or a b zero e = omega (arith, bit_or_step a b)
digit-bit_or a b (suc k) e =
    let upper : bit_or a b / 2 ≡ bit_or (a / 2) (b / 2) = omega (arith, bit_or_step a b) in
    ap (λ x. digit x k) upper ∙ digit-bit_or (a / 2) (b / 2) k e

-- the masks of the source, all 32 of them
abbrev mask_fits : ℕ → ℕ → Bool
mask_fits j k =
    let same = j == k in
    (digit (2 ^ j) k == (if same then 1 else 0))
    && (digit (full_word - 2 ^ j) k == (if same then 0 else 1))

masks_table : all_below 32 (λ j. all_below 32 (λ k. mask_fits j k)) ≡ true
unfolding all_below digit
masks_table = refl

mask : (j k : ℕ) → j < 32 → k < 32 → mask_fits j k ≡ true
mask j k sj sk =
    all_below_lem 32 (λ k. mask_fits j k)
      (all_below_lem 32 (λ j. all_below 32 (λ k. mask_fits j k)) masks_table j sj) k sk

-- The test of a mark is that of a digit.
bitmap_test-digit :
    (b : ℕ) (s : Frames) → bitmap_test b s ≡ (digit (s.bitmap (b / 32)) (b % 32) == 1)
unfolding bitmap_test
bitmap_test-digit b s =
    let k = b % 32 in
    let w = s.bitmap (b / 32) in
    let pos : 1 ≤ 2 ^ k = one-le-pow k 2 (omega arith) in
    elim (digit-cases w k) [
      | inl e ↦ rw (bit_and-power w k, e) (ground arith)
      | inr e ↦ rw (bit_and-power w k, e) (ground arith)
    ]

-- two marks of one word
other_digit : (b c : ℕ) → b / 32 ≡ c / 32 → c ≢ b → (b % 32 == c % 32) ≡ false
other_digit b c e ne =
    let differ : b % 32 ≢ c % 32 = (λ f. ne (omega (arith, e, f))) in ground (arith, differ)

mask_bit : (j k : ℕ) → j < 32 → k < 32 → (j == k) ≡ false → digit (2 ^ j) k ≡ 0
mask_bit j k sj sk ne = ground (arith, mask j k sj sk)

mask_rest : (j k : ℕ) → j < 32 → k < 32 → digit (full_word - 2 ^ j) k ≡ (if j == k then 0 else 1)
mask_rest j k sj sk = ground (arith, mask j k sj sk)

-- Setting a mark, and clearing one, changes that mark only.
pub bitmap_set-marks :
    (b c : ℕ) (s : Frames)
    → bitmap_test c (bitmap_set b s) ≡ (if c == b then true else bitmap_test c s)
unfolding bitmap_set
bitmap_set-marks b c s = elim (Bool-cases (c == b)) [
  | inl here ↦
      let e : b ≡ c = ground arith in
      rw here (subst (λ x. bitmap_test x (bitmap_set b s) ≡ true) e (bitmap_test-bitmap_set b s))
  | inr there ↦ elim (Bool-cases (c / 32 == b / 32)) [
    | inr apart ↦
        rw (there, bitmap_test-digit c (bitmap_set b s), bitmap_test-digit c s, apart) refl
    | inl word ↦
        let e : b / 32 ≡ c / 32 = ground arith in
        let zero_there =
          mask_bit (b % 32) (c % 32) (omega arith) (omega arith)
            (other_digit b c e (ground arith)) in
        rw
          (
            there,
            bitmap_test-digit c (bitmap_set b s),
            bitmap_test-digit c s,
            word,
            digit-bit_or (s.bitmap (b / 32)) (2 ^ (b % 32)) (c % 32) zero_there,
            e,
          )
          refl
  ]
]

pub bitmap_unset-marks :
    (b c : ℕ) (s : Frames)
    → bitmap_test c (bitmap_unset b s) ≡ (if c == b then false else bitmap_test c s)
unfolding bitmap_unset
bitmap_unset-marks b c s = elim (Bool-cases (c / 32 == b / 32)) [
  | inr apart ↦
      let there : (c == b) ≡ false = ground arith in
      rw (there, bitmap_test-digit c (bitmap_unset b s), bitmap_test-digit c s, apart) refl
  | inl word ↦
      let e : b / 32 ≡ c / 32 = ground arith in
      let w = s.bitmap (b / 32) in
      let rest = mask_rest (b % 32) (c % 32) (omega arith) (omega arith) in
      let both = digit-bit_and w (full_word - 2 ^ (b % 32)) (c % 32) in
      elim (Bool-cases (c == b)) [
        | inl here ↦
            let same : (b % 32 == c % 32) ≡ true = ground arith in
            rw (here, bitmap_test-digit c (bitmap_unset b s), word, both, rest, same) (ground arith)
        | inr there ↦
            let differ = other_digit b c e (ground arith) in
            let once : digit w (c % 32) * 1 ≡ digit w (c % 32) = omega arith in
            rw
              (
                there,
                bitmap_test-digit c (bitmap_unset b s),
                bitmap_test-digit c s,
                word,
                both,
                rest,
                differ,
              )
              (ap (λ (x : ℕ). x == 1) (once ∙ ap (λ i. digit (s.bitmap i) (c % 32)) e))
      ]
]
