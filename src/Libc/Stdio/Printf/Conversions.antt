-- ===== src/Libc/Stdio/Printf/Conversions.antt =====
-- The conversions of `vprintf` leave the digits that `render` gives.
use cho_os.Prelude.{ℕ, ◌^◌, ◌≤◌, ◌<◌, ◌≡◌, Bool, true, false, Option, some, arith, List, length}
use native.Mathlib.Nat.{pow-le-pow_left}
use cho_os.Libc.Bytes.{Bytes}
use cho_os.Libc.Stdio.Numbers.{utoa, ulltoa, lltoa, itoa}
use cho_os.Libc.Stdio.Numbers.Reversed.{Spelled}
use cho_os.Libc.Stdio.Numbers.Digits.{digits, digits-Spelled}
use cho_os.Libc.Stdio.Numbers.Signed.{is_negative, signed_text, lltoa-Spelled}
use cho_os.Libc.Stdio.Numbers.Itoa.{itoa-Spelled}
use cho_os.Libc.Stdio.Printf.Reference.{is_word, is_int, is_long, signed_digits}
use cho_os.Libc.Stdio.Printf.Text.{NoNul, digits-NoNul}

module _ (buffer : ℕ) where
  unfoldable pub Leaves : (ℕ → Bool) → (ℕ → List ℕ) → (ℕ → Bytes → Option Bytes) → Type 0
  Leaves ok text conv =
      (a : ℕ) (m : Bytes)
      → ok a ≡ true
      → (m' : Bytes) × (conv a m ≡ some m')
        × Spelled m buffer (text a) m'
        × NoNul (text a)
        × (length (text a) ≤ 64)

  unsigned-Leaves :
      (base n : ℕ) (a : ℕ) (m : Bytes)
      → 2 ≤ base
      → base ≤ 36
      → 0 < n
      → n ≤ 64
      → a < base ^ n
      → (m' : Bytes) × (ulltoa 64 a buffer base m ≡ some m')
        × Spelled m buffer (digits 64 base a) m'
        × NoNul (digits 64 base a)
        × (length (digits 64 base a) ≤ 64)
  unfolding ulltoa
  unsigned-Leaves base n a m h k pos enough small =
      let (m', e, s, r) = digits-Spelled 64 n base a buffer m h k small pos enough in
      (m', e, s, digits-NoNul 64 base a, omega (arith, r.short))

  pub utoa-Leaves :
      (base : ℕ)
      → 10 ≤ base
      → base ≤ 16
      → Leaves is_word (digits 64 base) (λ a m. utoa 64 a buffer base m)
  unfolding Leaves utoa ulltoa
  utoa-Leaves base lo hi a m ok =
      let small : a < 2 ^ 32 = ground arith in
      unsigned-Leaves base 10 a m (omega arith) (omega arith) (omega arith) (omega arith)
        (omega (arith, pow-le-pow_left lo 10))

  pub ulltoa-Leaves : Leaves is_long (digits 64 10) (λ a m. ulltoa 64 a buffer 10 m)
  unfolding Leaves
  ulltoa-Leaves a m ok =
      let small : a < 2 ^ 64 = ground arith in
      unsigned-Leaves 10 20 a m (omega arith) (omega arith) (omega arith) (omega arith)
        (omega arith)

  signed-text :
      (minus : Bool) (ds : List ℕ)
      → NoNul ds
      → length ds ≤ 20
      → NoNul (signed_text minus ds) × (length (signed_text minus ds) ≤ 64)
  signed-text true ds h short = (((λ e. ground arith), h), omega (arith, short))
  signed-text false ds h short = (h, omega (arith, short))

  pub lltoa-Leaves : Leaves is_long (signed_digits (2 ^ 63)) (λ a m. lltoa 64 a buffer 10 m)
  unfolding Leaves
  lltoa-Leaves a m ok =
      let (m', e, s, r) = lltoa-Spelled 64 a buffer m (ground arith) (omega arith) in
      let (n, l) = signed-text (is_negative (2 ^ 63) a) _ (digits-NoNul 64 10 _) r.short in
      (m', e, s, n, l)

  pub itoa-Leaves :
      0 < buffer → Leaves is_int (signed_digits (2 ^ 31)) (λ a m. itoa 65 a buffer 10 m)
  unfolding Leaves
  itoa-Leaves pos a m ok =
      let (m', e, s, r) =
        itoa-Spelled 64 a buffer m (ground arith) (ground arith) pos (omega arith) in
      let (n, l) =
        signed-text (is_negative (2 ^ 31) a) _ (digits-NoNul 64 10 _) (omega (arith, r.short)) in
      (m', e, s, n, l)
