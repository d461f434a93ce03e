-- ===== src/Libc/Stdio/Printf/Text.antt =====
-- Strings in memory as lists of characters.
use cho_os.Prelude.{
  ℕ, zero, suc, ◌+◌, ◌/◌, ◌≤◌, ◌<◌, ◌≡◌, ◌≢◌, refl, ap, sym, ◌∙◌, subst, true, false, ◌||◌, some,
  ◌==◌, if◌then◌else◌, arith, Bool-cases, inl, inr, List, [], ◌∷◌, ◌++◌, length, take, drop,
}
use mathlib.Core.List.{reverse, reverse-cons}
use cho_os.Libc.Bytes.{Bytes, bytes_at}
use cho_os.Libc.Strings.{strlen, strlen_from}
use cho_os.Libc.Stdio.Numbers.{digit_char}
use cho_os.Libc.Stdio.Numbers.Reversed.{Holds}
use cho_os.Libc.Stdio.Numbers.Digits.{low_digits, digits}
use cho_os.Libc.Stdio.Printf.{literal_from}

-- A string with these characters stands at `p`.
abbrev pub IsText : Bytes → ℕ → List ℕ → Type 0
IsText m p [] = m p ≡ 0
IsText m p (c ∷ cs) = (m p ≡ c) × (c ≢ 0) × IsText m (p + 1) cs

abbrev pub NoNul : List ℕ → Type 0
NoNul [] = Unit
NoNul (c ∷ cs) = (c ≢ 0) × NoNul cs

pub IsText-of :
    (m : Bytes) (p : ℕ) (cs : List ℕ)
    → Holds m p cs
    → NoNul cs
    → m (p + length cs) ≡ 0
    → IsText m p cs
IsText-of m p [] h n e = ap m (omega arith) ∙ e
IsText-of m p (c ∷ cs) h n e = (h.0, n.0, IsText-of m (p + 1) cs h.1 n.1 (ap m (omega arith) ∙ e))

-- The text stays where the memories agree.
pub IsText-same :
    (m m' : Bytes) (p : ℕ) (cs : List ℕ)
    → ((a : ℕ) → p ≤ a → a < p + length cs + 1 → m' a ≡ m a)
    → IsText m p cs
    → IsText m' p cs
IsText-same m m' p [] same t = same p (omega arith) (omega arith) ∙ t
IsText-same m m' p (c ∷ cs) same t = (
  same p (omega arith) (omega arith) ∙ t.0,
  t.1,
  IsText-same m m' (p + 1) cs (λ a lo hi. same a (omega arith) (omega arith)) t.2,
)

strlen_from-text :
    (fuel i str : ℕ) (m : Bytes) (cs : List ℕ)
    → IsText m (str + i) cs
    → length cs < fuel
    → strlen_from fuel i str m ≡ some (i + length cs)
unfolding strlen_from
strlen_from-text zero i str m cs t h = absurd (omega arith)
strlen_from-text (suc fuel) i str m [] t h = ground (arith, t)
strlen_from-text (suc fuel) i str m (c ∷ cs) t h =
    let going : (m (str + i) == 0) ≡ false = ground (arith, t.0, t.1) in
    rw (strlen_from, going)
      (strlen_from-text fuel (i + 1) str m cs (subst (λ q. IsText m q cs) (omega arith) t.2)
          (omega arith)
        ∙ ap some (omega arith))

pub strlen-text :
    (fuel str : ℕ) (m : Bytes) (cs : List ℕ)
    → IsText m str cs
    → length cs < fuel
    → strlen fuel str m ≡ some (length cs)
unfolding strlen
strlen-text fuel str m cs t h =
    strlen_from-text fuel 0 str m cs (subst (λ q. IsText m q cs) (omega arith) t) h
    ∙ ap some (omega arith)

pub bytes_at-text :
    (p : ℕ) (m : Bytes) (cs : List ℕ) → IsText m p cs → bytes_at (length cs) p m ≡ cs
unfolding bytes_at
bytes_at-text p m [] t = refl
bytes_at-text p m (c ∷ cs) t = cc (t.0, bytes_at-text (p + 1) m cs t.2)

-- the literal text that a list begins with
abbrev pub literal_run : List ℕ → ℕ
literal_run [] = 0
literal_run (c ∷ cs) = if c == 37 then 0 else suc (literal_run cs)

pub literal_run-le : (cs : List ℕ) → literal_run cs ≤ length cs
literal_run-le [] = omega arith
literal_run-le (c ∷ cs) = ground (arith, literal_run-le cs)

pub literal_from-text :
    (fuel f amount : ℕ) (m : Bytes) (cs : List ℕ)
    → IsText m (f + amount) cs
    → length cs < fuel
    → literal_from fuel f amount m ≡ some (amount + literal_run cs)
unfolding literal_from
literal_from-text zero f amount m cs t h = absurd (omega arith)
literal_from-text (suc fuel) f amount m [] t h = ground (arith, t)
literal_from-text (suc fuel) f amount m (c ∷ cs) t h = elim (Bool-cases (c == 37)) [
  | inl percent ↦
      let stops : ((m (f + amount) == 0) || (m (f + amount) == 37)) ≡ true = ground (arith, t.0) in
      rw (literal_from, stops, percent) (ap some (omega arith))
  | inr other ↦
      let going : ((m (f + amount) == 0) || (m (f + amount) == 37)) ≡ false =
        ground (arith, t.0, t.1) in
      rw (literal_from, going, other)
        (literal_from-text fuel f (amount + 1) m cs (subst (λ q. IsText m q cs) (omega arith) t.2)
            (omega arith)
          ∙ ap some (omega arith))
]

pub bytes_at-take :
    (p n : ℕ) (m : Bytes) (cs : List ℕ) → IsText m p cs → n ≤ length cs → bytes_at n p m ≡ take n cs
unfolding bytes_at
bytes_at-take p zero m cs t h = refl
bytes_at-take p (suc n) m [] t h = absurd (omega arith)
bytes_at-take p (suc n) m (c ∷ cs) t h = cc (t.0, bytes_at-take (p + 1) n m cs t.2 (omega arith))

pub IsText-drop :
    (p n : ℕ) (m : Bytes) (cs : List ℕ)
    → IsText m p cs
    → n ≤ length cs
    → IsText m (p + n) (drop n cs)
IsText-drop p zero m cs t h = subst (λ q. IsText m q cs) (omega arith) t
IsText-drop p (suc n) m [] t h = absurd (omega arith)
IsText-drop p (suc n) m (c ∷ cs) t h =
    subst (λ q. IsText m q (drop n cs)) (omega arith) (IsText-drop (p + 1) n m cs t.2 (omega arith))

NoNul-append : (xs ys : List ℕ) → NoNul xs → NoNul ys → NoNul (xs ++ ys)
NoNul-append [] ys h k = k
NoNul-append (x ∷ xs) ys h k = (h.0, NoNul-append xs ys h.1 k)

NoNul-reverse : (xs : List ℕ) → NoNul xs → NoNul (reverse xs)
NoNul-reverse [] h = tt
NoNul-reverse (x ∷ xs) h =
    subst NoNul (sym (reverse-cons x xs))
      (NoNul-append (reverse xs) (x ∷ []) (NoNul-reverse xs h.1) (h.0, tt))

digit_char-ne-zero : (d : ℕ) → digit_char d ≢ 0
unfolding digit_char
digit_char-ne-zero d h = ground arith

low_digits-NoNul : (fuel base value : ℕ) → NoNul (low_digits fuel base value)
unfolding low_digits
low_digits-NoNul zero base value = tt
low_digits-NoNul (suc fuel) base value = elim (Bool-cases (value / base == 0)) [
  | inl stop ↦ rw (low_digits, stop) (digit_char-ne-zero _, tt)
  | inr more ↦
      rw (low_digits, more) (digit_char-ne-zero _, low_digits-NoNul fuel base (value / base))
]

pub digits-NoNul : (fuel base value : ℕ) → NoNul (digits fuel base value)
unfolding digits
digits-NoNul fuel base value =
    NoNul-reverse (low_digits fuel base value) (low_digits-NoNul fuel base value)
