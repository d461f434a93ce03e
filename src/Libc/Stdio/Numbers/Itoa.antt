-- ===== src/Libc/Stdio/Numbers/Itoa.antt =====
-- What `__itoa` writes in base 10: a minus sign for a negative number, and the digits of its magnitude.
use native.Mathlib.Nat.{pow-le-pow_right}
use mathlib.Core.List.{reverse, reverse-append}
use cho_os.Prelude.{
  ℕ, zero, suc, ◌+◌, ◌-◌, ◌/◌, ◌%◌, ◌^◌, ◌≤◌, ◌<◌, ◌≡◌, ◌≢◌, refl, ap, ap₂, ◌∙◌, subst, true, false,
  some, ◌==◌, arith, Bool-cases, inl, inr, List, [], ◌∷◌, ◌++◌, length, length-append,
}
use cho_os.Libc.Bytes.{Bytes, store}
use cho_os.Libc.Strings.Copy.{within}
use cho_os.Libc.Stdio.Numbers.{digit_char, put_signed, finish_signed, reverse_string, itoa}
use cho_os.Libc.Stdio.Numbers.Reversed.{
  Holds, Holds-append, Holds-same, Spelled, reversed-Spelled, reverse_from-eq-swap_ends,
  swap_ends_lem, mirrored, length-reverse,
}
use cho_os.Libc.Stdio.Numbers.Digits.{
  Wrote, Wrote-one, Wrote-cons, one_round, quotient_lt, low_digits, low_digits-short,
  low_digits-pos, numeral, numeral-low_digits, digit_value, digits, Stands,
}
use cho_os.Libc.Stdio.Numbers.Signed.{is_negative, magnitude, signed_text}

put_signed_lem :
    (fuel base num str i : ℕ) (m : Bytes)
    → 2 ≤ base
    → num < base ^ fuel
    → 0 < num
    → (stop : ℕ) × (m' : Bytes) × (put_signed (suc fuel) base false num str i m ≡ some (stop, m'))
      × Wrote m (str + i) (low_digits fuel base num) (str + stop) m'
unfolding put_signed low_digits
put_signed_lem zero base num str i m h small pos =
    absurd (omega (arith, one_round zero num base small pos))
put_signed_lem (suc fuel) base num str i m h small pos =
    let going : (num == 0) ≡ false = ground arith in
    let c = digit_char (num % base) in
    elim (Bool-cases (num / base == 0)) [
      | inl stop ↦ (
        i + 1,
        store m (str + i) c,
        rw (put_signed, going, stop) refl,
        rw (low_digits, stop)
            (subst (λ q. Wrote m (str + i) (c ∷ []) q (store m (str + i) c)) (omega arith)
              (Wrote-one m (str + i) c)),
      )
      | inr more ↦
          let some_left : 0 < num / base = ground arith in
          let less = quotient_lt fuel num base h small in
          let (stop, m', e, w) =
            put_signed_lem fuel base (num / base) str (i + 1) (store m (str + i) c) h less
              some_left in
          (
            stop,
            m',
            rw (put_signed, going) e,
            rw (low_digits, more)
                (Wrote-cons m m' (str + i) c (str + stop) _ (
                  subst
                    (λ q.
                      Wrote (store m (str + i) c) q (low_digits fuel base (num / base)) (str + stop)
                        m')
                    (omega arith) w)),
          )
    ]

-- What `finish_signed` makes of the characters in front of the NUL.
finished-Spelled :
    (fuel n str : ℕ) (m m1 : Bytes) (cs : List ℕ)
    → 0 < str
    → 0 < length cs
    → length cs ≤ n + 1
    → n ≤ fuel
    → Holds m1 str cs
    → ((a : ℕ) → within str (length cs + 1) a ≡ false → m1 a ≡ m a)
    → (m' : Bytes) × (reverse_string (suc fuel) str (length cs) (store m1 (str + length cs) 0)
        ≡ some m')
      × Spelled m str (reverse cs) m'
unfolding reverse_string
finished-Spelled fuel n str m m1 cs pos some_cs short enough held out =
    let m2 = store m1 (str + length cs) 0 in
    let (m', swaps, same) =
      swap_ends_lem (suc fuel) (str + 0) (str + (length cs - 1)) m2 (omega arith) in
    (
      m',
      reverse_from-eq-swap_ends (suc fuel) str 0 (length cs - 1) m2 pos ∙ swaps,
      reversed-Spelled m m1 m' str cs some_cs held out (λ a.
          same a ∙ ap₂ (λ (low ptr : ℕ). m2 (mirrored low ptr a)) (omega arith) (omega arith)),
    )

-- the digits of a magnitude, without a sign and with one
module _ (fuel mag str : ℕ) (m : Bytes) (some_mag : 0 < mag) (small : mag < 10 ^ 10) (pos : 0 < str)
    (enough : 10 ≤ fuel) where
  low : List ℕ
  low = low_digits fuel 10 mag

  fits : mag < 10 ^ fuel
  fits = omega (arith, small, pow-le-pow_right {n = 10} (omega arith) enough)

  short : length low ≤ 10
  unfolding low
  short = low_digits-short 10 fuel 10 mag (omega arith) small (omega arith)

  pub mag-Stands : Stands 10 mag 10 (digits fuel 10 mag)
  unfolding digits low
  mag-Stands = record {
    reads = numeral-low_digits fuel 10 mag (omega arith) (omega arith) fits (omega arith);
    short = omega (arith, length-reverse (low_digits fuel 10 mag), short);
  }

  counted :
      (m1 : Bytes) × (put_signed (suc fuel) 10 false mag str 0 m ≡ some (length low, m1))
      × Wrote m str low (str + length low) m1
  unfolding low
  counted =
      let (stop, m1, e, w) = put_signed_lem fuel 10 mag str 0 m (omega arith) fits some_mag in
      let w' : Wrote m str low (str + stop) m1 =
        subst (λ q. Wrote m q low (str + stop) m1) (omega arith) w in
      let count : stop ≡ length low = omega (arith, w'.ends) in
      (
        m1,
        subst (λ k. put_signed (suc fuel) 10 false mag str 0 m ≡ some (k, m1)) count e,
        subst (λ k. Wrote m str low (str + k) m1) count w',
      )

  pub plain_text :
      (m' : Bytes) × (finish_signed
          (suc fuel)
          false
          str
          (put_signed (suc fuel) 10 false mag str 0 m)
        ≡ some m')
      × Spelled m str (digits fuel 10 mag) m'
  unfolding finish_signed digits low
  plain_text =
      let (m1, e, w) = counted in
      let (m', r, s) =
        finished-Spelled fuel 10 str m m1 low pos (low_digits-pos fuel 10 mag (omega arith))
          (omega (arith, short)) enough w.holds (λ a out. w.others a (ground arith)) in
      (m', ap (finish_signed (suc fuel) false str) e ∙ r, s)

  pub minus_text :
      (m' : Bytes) × (finish_signed (suc fuel) true str (put_signed (suc fuel) 10 false mag str 0 m)
        ≡ some m')
      × Spelled m str (45 ∷ digits fuel 10 mag) m'
  unfolding finish_signed digits low
  minus_text =
      let (m1, e, w) = counted in
      let m2 = store m1 (str + length low) 45 in
      let cs = low ++ (45 ∷ []) in
      let count : length cs ≡ length low + 1 = length-append low (45 ∷ []) in
      let held : Holds m2 str cs =
        Holds-append m2 str low (45 ∷ [])
          (Holds-same m1 m2 str low (λ a lo hi. ground arith) w.holds) (ground arith, tt) in
      let kept : (a : ℕ) → within str (length cs + 1) a ≡ false → m2 a ≡ m a = (λ a out.
        let off : within str (length low + 1 + 1) a ≡ false =
          subst (λ k. within str (k + 1) a ≡ false) count out in
        let past : m2 a ≡ m1 a = ground arith in past ∙ w.others a (ground arith)) in
      let (m', r, s) =
        finished-Spelled fuel 10 str m m2 cs pos (omega (arith, count))
          (omega (arith, count, short)) enough held kept in
      (
        m',
        ap (finish_signed (suc fuel) true str) e
            ∙ subst (λ k. reverse_string (suc fuel) str k (store m2 (str + k) 0) ≡ some m') count r,
        subst (λ text. Spelled m str text m') (reverse-append low (45 ∷ [])) s,
      )

digits-zero : (fuel : ℕ) → 0 < fuel → digits fuel 10 0 ≡ 48 ∷ []
unfolding digits low_digits digit_char
digits-zero zero h = absurd (omega arith)
digits-zero (suc fuel) h = refl

zero_text : (str : ℕ) (m : Bytes) → Spelled m str (48 ∷ []) (store (store m str 48) (str + 1) 0)
zero_text str m = record {
  holds = (ground arith, tt);
  ended = ground arith;
  others = λ a out. ground arith;
}

-- `__itoa` in base 10, to a buffer that is not NULL and with fuel for eleven rounds, ends and leaves
-- a minus sign if the number is negative, the digits of its magnitude, ten at most, and a NUL, and
-- changes no byte besides. The least number, whose negation overflows, is left out.
pub itoa-Spelled :
    (fuel num str : ℕ) (m : Bytes)
    → num < 2 ^ 32
    → num ≢ 2 ^ 31
    → 0 < str
    → 10 ≤ fuel
    → let ds = digits fuel 10 (magnitude (2 ^ 31) num) in
      (m' : Bytes) × (itoa (suc fuel) num str 10 m ≡ some m')
      × Spelled m str (signed_text (is_negative (2 ^ 31) num) ds) m'
      × Stands 10 (magnitude (2 ^ 31) num) 10 ds
unfolding itoa finish_signed numeral digit_value
itoa-Spelled fuel num str m small ne pos enough = elim (Bool-cases (num == 0)) [
  | inl none_left ↦
      let zero : num ≡ 0 = ground arith in
      rw (itoa, zero, digits-zero fuel (omega arith))
        (
          store (store m str 48) (str + 1) 0,
          refl,
          zero_text str m,
          record { reads = refl; short = omega arith },
        )
  | inr going ↦ elim (Bool-cases (is_negative (2 ^ 31) num)) [
    | inl minus ↦
        let least : (num == 2 ^ 31) ≡ false = ground arith in
        let mag = 2 ^ 32 - num in
        let some_mag : 0 < mag = omega arith in
        let fits10 : mag < 10 ^ 10 = omega arith in
        let (m', e, s) = minus_text fuel mag str m some_mag fits10 pos enough in
        (
          m',
          rw (itoa, going, minus, least) e,
          rw minus s,
          rw minus (mag-Stands fuel mag str m some_mag fits10 pos enough),
        )
    | inr plus ↦
        let some_mag : 0 < num = ground arith in
        let fits10 : num < 10 ^ 10 = omega arith in
        let (m', e, s) = plain_text fuel num str m some_mag fits10 pos enough in
        (
          m',
          rw (itoa, going, plus) e,
          rw plus s,
          rw plus (mag-Stands fuel num str m some_mag fits10 pos enough),
        )
  ]
]
