-- ===== src/Libc/Stdio/Numbers/Digits.antt =====
-- What `__utoa`, `__ulltoa` and `__lltoa` write: the digits of the number, and no more than the
-- buffer of `vprintf` has room for.
use cho_os.Prelude.{
  ℕ, zero, suc, ◌+◌, ◌-◌, ◌*◌, ◌/◌, ◌%◌, ◌^◌, ◌≤◌, ◌<◌, ◌≡◌, refl, ap, ◌∙◌, subst, false, some, ltb,
  ◌==◌, if◌then◌else◌, arith, Bool-cases, inl, inr, List, [], ◌∷◌, ◌++◌, length,
}
use mathlib.Core.List.{reverse, reverse-cons}
use native.Mathlib.Nat.{
  div-lt_iff_lt-mul, pow-suc, pow-zero, pow-le-pow_right, mod-lt, mod-add-div',
}
use cho_os.Libc.Bytes.{Bytes, store}
use cho_os.Libc.Strings.Copy.{within}
use cho_os.Libc.Stdio.Numbers.{digit_char, put_digits, reverse_digits, utoa}
use cho_os.Libc.Stdio.Numbers.Reversed.{
  Holds, Spelled, reversed-Spelled, length-reverse, swap_ends_lem, mirrored,
}

-- The digits of a number in a base, lowest first, as characters.
unfoldable pub low_digits : ℕ → ℕ → ℕ → List ℕ
low_digits zero base value = []
low_digits (suc fuel) base value =
    let rest = low_digits fuel base (value / base) in
    digit_char (value % base) ∷ (if value / base == 0 then [] else rest)

-- what a digit stands for
unfoldable pub digit_value : ℕ → ℕ
digit_value c = if ltb c 58 then c - 48 else c - 87

-- what a list of digits stands for, the highest first
unfoldable pub numeral : ℕ → List ℕ → ℕ → ℕ
numeral base [] acc = acc
numeral base (c ∷ cs) acc = numeral base cs (acc * base + digit_value c)

numeral-snoc :
    (base : ℕ) (cs : List ℕ) (c acc : ℕ)
    → numeral base (cs ++ (c ∷ [])) acc ≡ numeral base cs acc * base + digit_value c
unfolding numeral
numeral-snoc base [] c acc = refl
numeral-snoc base (x ∷ xs) c acc = numeral-snoc base xs c (acc * base + digit_value x)

digit_value-digit_char : (d : ℕ) → d < 36 → digit_value (digit_char d) ≡ d
unfolding digit_value digit_char
digit_value-digit_char d h = ground arith

-- A quotient by the base has a digit less.
pub quotient_lt : (fuel v base : ℕ) → 2 ≤ base → v < base ^ suc fuel → v / base < base ^ fuel
quotient_lt fuel v base h small =
    (div-lt_iff_lt-mul (omega arith)).1 (subst (λ n. v < n) (pow-suc base fuel) small)

pub one_round : (fuel v base : ℕ) → v < base ^ fuel → 0 < v → 0 < fuel
one_round zero v base h pos = absurd (omega (arith, pow-zero base))
one_round (suc fuel) v base h pos = omega arith

-- Reading the digits back gives the number.
pub numeral-low_digits :
    (fuel base value : ℕ)
    → 2 ≤ base
    → base ≤ 36
    → value < base ^ fuel
    → 0 < fuel
    → numeral base (reverse (low_digits fuel base value)) 0 ≡ value
unfolding low_digits numeral
numeral-low_digits zero base value h k small pos = absurd (omega arith)
numeral-low_digits (suc fuel) base value h k small pos = elim (Bool-cases (value / base == 0)) [
  | inl stop ↦
      let none_left : value / base ≡ 0 = ground arith in
      rw (low_digits, stop)
        (omega (arith, digit, mod-add-div' value base, ap (λ (t : ℕ). t * base) none_left))
  | inr more ↦
      let some_left : 0 < value / base = ground arith in
      let half = quotient_lt fuel value base h small in
      let deeper : 0 < fuel = one_round fuel (value / base) base half some_left in
      let ih = numeral-low_digits fuel base (value / base) h k half deeper in
      let rest = low_digits fuel base (value / base) in
      let c = digit_char (value % base) in
      rw (low_digits, more)
        (ap (λ l. numeral base l 0) (reverse-cons c rest)
          ∙ numeral-snoc base (reverse rest) c 0
          ∙ omega (arith, digit, mod-add-div' value base, ap (λ (t : ℕ). t * base) ih))
]
  where
    digit : digit_value (digit_char (value % base)) ≡ value % base
    digit =
        digit_value-digit_char (value % base) (omega (arith, mod-lt value {m = base} (omega arith)))

-- what the digit loop leaves: the digits from `ptr` on, no more of them than rounds
pub record Wrote (m : Bytes) (ptr : ℕ) (cs : List ℕ) (stop : ℕ) (m' : Bytes) : Type 0 where
  pub holds : Holds m' ptr cs
  pub ends : stop ≡ ptr + length cs
  pub others : (a : ℕ) → within ptr (length cs) a ≡ false → m' a ≡ m a

pub Wrote-one : (m : Bytes) (ptr c : ℕ) → Wrote m ptr (c ∷ []) (ptr + 1) (store m ptr c)
Wrote-one m ptr c = record {
  holds = (ground arith, tt);
  ends = omega arith;
  others = λ a out. ground arith;
}

pub Wrote-cons :
    (m m' : Bytes) (ptr c stop : ℕ) (cs : List ℕ)
    → Wrote (store m ptr c) (ptr + 1) cs stop m'
    → Wrote m ptr (c ∷ cs) stop m'
Wrote-cons m m' ptr c stop cs w = record {
  holds = (w.others ptr (ground arith) ∙ (ground arith), w.holds);
  ends = omega (arith, w.ends);
  others = λ a out. w.others a (ground arith) ∙ (ground arith);
}

put_digits_lem :
    (fuel base value ptr : ℕ) (m : Bytes)
    → 2 ≤ base
    → value < base ^ fuel
    → 0 < fuel
    → (stop : ℕ) × (m' : Bytes) × (put_digits fuel base value ptr m ≡ some (stop, m'))
      × Wrote m ptr (low_digits fuel base value) stop m'
unfolding put_digits low_digits
put_digits_lem zero base value ptr m h small pos = absurd (omega arith)
put_digits_lem (suc fuel) base value ptr m h small pos = elim (Bool-cases (value / base == 0)) [
  | inl stop ↦ (
    ptr + 1,
    store m ptr (digit_char (value % base)),
    rw (put_digits, stop) refl,
    rw (low_digits, stop) (Wrote-one m ptr (digit_char (value % base))),
  )
  | inr more ↦
      let some_left : 0 < value / base = ground arith in
      let half = quotient_lt fuel value base h small in
      let deeper : 0 < fuel = one_round fuel (value / base) base half some_left in
      let c = digit_char (value % base) in
      let (stop, m', e, w) =
        put_digits_lem fuel base (value / base) (ptr + 1) (store m ptr c) h half deeper in
      (stop, m', rw (put_digits, more) e, rw (low_digits, more) (Wrote-cons m m' ptr c stop _ w))
]

pub length-low_digits : (fuel base value : ℕ) → length (low_digits fuel base value) ≤ fuel
unfolding low_digits
length-low_digits zero base value = omega arith
length-low_digits (suc fuel) base value = ground (arith, length-low_digits fuel base (value / base))

pub low_digits-pos : (fuel base value : ℕ) → 0 < fuel → 0 < length (low_digits fuel base value)
unfolding low_digits
low_digits-pos zero base value h = absurd (omega arith)
low_digits-pos (suc fuel) base value h = omega arith

-- the digits of a number, the highest first
unfoldable pub digits : ℕ → ℕ → ℕ → List ℕ
digits fuel base value = reverse (low_digits fuel base value)

digits_lem :
    (fuel base value buffer : ℕ) (m : Bytes)
    → 2 ≤ base
    → value < base ^ fuel
    → 0 < fuel
    → (m' : Bytes) × (reverse_digits fuel buffer (put_digits fuel base value buffer m) ≡ some m')
      × Spelled m buffer (digits fuel base value) m'
unfolding digits reverse_digits
digits_lem fuel base value buffer m h small pos =
    let (stop, m1, e, w) = put_digits_lem fuel base value buffer m h small pos in
    let cs = low_digits fuel base value in
    let count = low_digits-pos fuel base value pos in
    let room = length-low_digits fuel base value in
    let m2 = store m1 stop 0 in
    let (m', swaps, same) =
      swap_ends_lem fuel buffer (stop - 1) m2 (omega (arith, w.ends, count, room)) in
    (
      m',
      ap (reverse_digits fuel buffer) e ∙ swaps,
      reversed-Spelled m m1 m' buffer cs count w.holds (λ a out. w.others a (ground arith))
          (subst (λ n. (a : ℕ) → m' a ≡ store m1 n 0 (mirrored buffer (n - 1) a)) w.ends same),
    )

-- A number below a power of the base has as many digits at most.
pub low_digits-short :
    (n fuel base value : ℕ)
    → 2 ≤ base
    → value < base ^ n
    → 0 < n
    → length (low_digits fuel base value) ≤ n
unfolding low_digits
low_digits-short zero fuel base value h small pos = absurd (omega arith)
low_digits-short (suc n) zero base value h small pos = omega arith
low_digits-short (suc n) (suc fuel) base value h small pos = elim (Bool-cases (value / base == 0)) [
  | inl stop ↦ rw (low_digits, stop) (omega arith)
  | inr more ↦
      let some_left : 0 < value / base = ground arith in
      let less = quotient_lt n value base h small in
      let deeper : 0 < n = one_round n (value / base) base less some_left in
      let ih = low_digits-short n fuel base (value / base) h less deeper in
      rw (low_digits, more) (omega (arith, ih))
]

-- What the digits of a number promise: they read as the number, and are `n` at most.
pub record Stands (base value n : ℕ) (text : List ℕ) : Type 0 where
  pub reads : numeral base text 0 ≡ value
  pub short : length text ≤ n

-- both conversions without a sign
pub digits-Spelled :
    (fuel n base value buffer : ℕ) (m : Bytes)
    → 2 ≤ base
    → base ≤ 36
    → value < base ^ n
    → 0 < n
    → n ≤ fuel
    → (m' : Bytes) × (reverse_digits fuel buffer (put_digits fuel base value buffer m) ≡ some m')
      × Spelled m buffer (digits fuel base value) m'
      × Stands base value n (digits fuel base value)
unfolding digits
digits-Spelled fuel n base value buffer m h k small pos enough =
    let fits : value < base ^ fuel =
      omega (arith, small, pow-le-pow_right {n = base} (omega arith) enough) in
    let (m', e, s) = digits_lem fuel base value buffer m h fits (omega arith) in
    (
      m',
      e,
      s,
      record {
        reads = numeral-low_digits fuel base value h k fits (omega arith);
        short = omega (
          arith,
          low_digits-short n fuel base value h small pos,
          length-reverse (low_digits fuel base value),
        );
      },
    )

-- `__utoa` in a base from 2 to 36 ends, with fuel for the digits of the number; it leaves a text with
-- a NUL behind it that reads as the number in that base, of at most `n` characters where the number
-- is below the `n`-th power of the base, and changes no byte besides.
pub utoa-Spelled :
    (fuel n base value buffer : ℕ) (m : Bytes)
    → 2 ≤ base
    → base ≤ 36
    → value < base ^ n
    → 0 < n
    → n ≤ fuel
    → (m' : Bytes) × (text : List ℕ) × (utoa fuel value buffer base m ≡ some m')
      × Spelled m buffer text m'
      × Stands base value n text
unfolding utoa
utoa-Spelled fuel n base value buffer m h k small pos enough =
    let (m', e, s, r) = digits-Spelled fuel n base value buffer m h k small pos enough in
    (m', digits fuel base value, e, s, r)
