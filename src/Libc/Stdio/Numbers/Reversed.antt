-- ===== src/Libc/Stdio/Numbers/Reversed.antt =====
-- What the loops that swap from both ends leave in memory.
use cho_os.Prelude.{
  ℕ, zero, suc, ◌+◌, ◌-◌, ◌≤◌, ◌<◌, ◌≡◌, refl, ap, ap₂, sym, ◌∙◌, true, false, ◌&&◌, some, ltb, leb,
  ◌==◌, if◌then◌else◌, arith, Bool-cases, inl, inr, subst, List, [], ◌∷◌, ◌++◌, length,
  length-append,
}
use mathlib.Core.List.{reverse, reverse-cons}
use cho_os.Libc.Bytes.{Bytes, store}
use cho_os.Libc.Strings.Copy.{within}
use cho_os.Libc.Stdio.Numbers.{swap_ends, swap_chars, reverse_from}

-- the place that the byte at `a` comes from
abbrev pub mirrored : ℕ → ℕ → ℕ → ℕ
mirrored low ptr a = if leb low a && leb a ptr then low + ptr - a else a

abbrev pub swapped : ℕ → ℕ → Bytes → Bytes
swapped low ptr m = store (store m low (m ptr)) ptr (m low)

-- the place in the memory before the swap of the ends that a place after it came from
abbrev pub exchanged : ℕ → ℕ → ℕ → ℕ
exchanged low ptr a = if a == ptr then low else if a == low then ptr else a

swapped_lem : (low ptr a : ℕ) (m : Bytes) → swapped low ptr m a ≡ m (exchanged low ptr a)
swapped_lem low ptr a m = ground arith

exchanged-mirrored :
    (low ptr a : ℕ)
    → low < ptr
    → exchanged low ptr (mirrored (low + 1) (ptr - 1) a) ≡ mirrored low ptr a
exchanged-mirrored low ptr a h = ground arith

mirrored_self : (low ptr a : ℕ) → ptr ≤ low → mirrored low ptr a ≡ a
mirrored_self low ptr a h = ground arith

-- With fuel for the distance of the ends, the loop reverses the bytes from `low` to `ptr`.
pub swap_ends_lem :
    (fuel low ptr : ℕ) (m : Bytes)
    → ptr - low < fuel
    → (m' : Bytes) × (swap_ends fuel low ptr m ≡ some m')
      × ((a : ℕ) → m' a ≡ m (mirrored low ptr a))
unfolding swap_ends
swap_ends_lem zero low ptr m h = absurd (omega arith)
swap_ends_lem (suc fuel) low ptr m h = elim (Bool-cases (ltb low ptr)) [
  | inl more ↦
      let lt : low < ptr = ground arith in
      let (m', ends, same) =
        swap_ends_lem fuel (low + 1) (ptr - 1) (swapped low ptr m) (omega arith) in
      (
        m',
        rw (swap_ends, more) ends,
        λ a.
            same a
            ∙ (swapped_lem low ptr (mirrored (low + 1) (ptr - 1) a) m
                ∙ ap m (exchanged-mirrored low ptr a lt)),
      )
  | inr done ↦
      (m, rw (swap_ends, done) refl, λ a. ap m (sym (mirrored_self low ptr a (ground arith))))
]

swap_chars_lem :
    (a b : ℕ) (m : Bytes) → 0 < a → 0 < b → swap_chars a b m ≡ store (store m a (m b)) b (m a)
unfolding swap_chars
swap_chars_lem a b m p q = ground arith

-- The loop of `__reverse` is that loop, on a string that is not NULL.
pub reverse_from-eq-swap_ends :
    (fuel str start last : ℕ) (m : Bytes)
    → 0 < str
    → reverse_from fuel str start last m ≡ swap_ends fuel (str + start) (str + last) m
unfolding reverse_from swap_ends
reverse_from-eq-swap_ends zero str start last m h = refl
reverse_from-eq-swap_ends (suc fuel) str start last m h = elim (Bool-cases (ltb start last)) [
  | inl more ↦
      let same : ltb (str + start) (str + last) ≡ true = ground arith in
      rw (reverse_from, swap_ends, more, same)
        (ap (reverse_from fuel str (start + 1) (last - 1))
            (swap_chars_lem (str + start) (str + last) m (omega arith) (ground arith))
          ∙ (reverse_from-eq-swap_ends fuel str (start + 1) (last - 1)
                (swapped (str + start) (str + last) m) h
              ∙ ap₂ (λ (a b : ℕ). swap_ends fuel a b (swapped (str + start) (str + last) m))
                  (omega arith) (ground arith)))
  | inr done ↦
      let same : ltb (str + start) (str + last) ≡ false = ground arith in
      rw (reverse_from, swap_ends, done, same) refl
]

-- The bytes of the list stand from `p` on.
abbrev pub Holds : Bytes → ℕ → List ℕ → Type 0
Holds m p [] = Unit
Holds m p (c ∷ cs) = (m p ≡ c) × Holds m (p + 1) cs

pub Holds-append :
    (m : Bytes) (p : ℕ) (xs ys : List ℕ)
    → Holds m p xs
    → Holds m (p + length xs) ys
    → Holds m p (xs ++ ys)
Holds-append m p [] ys h k = subst (λ q. Holds m q ys) (omega arith) k
Holds-append m p (x ∷ xs) ys h k =
    (h.0, Holds-append m (p + 1) xs ys h.1 (subst (λ q. Holds m q ys) (omega arith) k))

pub length-reverse : (xs : List ℕ) → length (reverse xs) ≡ length xs
length-reverse [] = refl
length-reverse (x ∷ xs) =
    omega
      (arith, ap length (reverse-cons x xs), length-append (reverse xs) (x ∷ []), length-reverse xs)

-- A memory that mirrors the bytes of a list holds the list reversed.
pub Holds-reverse :
    (m m' : Bytes) (p q : ℕ) (cs : List ℕ)
    → Holds m p cs
    → ((k : ℕ) → k < length cs → m' (q + k) ≡ m (p + (length cs - 1 - k)))
    → Holds m' q (reverse cs)
Holds-reverse m m' p q [] h same = tt
Holds-reverse m m' p q (c ∷ cs) h same = subst (Holds m' q) (sym (reverse-cons c cs)) (
    Holds-append m' q (reverse cs) (c ∷ [])
      (Holds-reverse m m' (p + 1) q cs h.1 (λ k lt. same k (omega arith) ∙ ap m (omega arith)))
      (subst (λ n. (m' (q + n) ≡ c) × Unit) (sym (length-reverse cs))
        ((same (length cs) (omega arith) ∙ (ap m (omega arith) ∙ h.0)), tt)))

-- Outside the bytes of the list, the memories agree.
pub Holds-same :
    (m m' : Bytes) (p : ℕ) (cs : List ℕ)
    → ((a : ℕ) → p ≤ a → a < p + length cs → m' a ≡ m a)
    → Holds m p cs
    → Holds m' p cs
Holds-same m m' p [] same h = tt
Holds-same m m' p (c ∷ cs) same h = (
  same p (omega arith) (omega arith) ∙ h.0,
  Holds-same m m' (p + 1) cs (λ a lo hi. same a (omega arith) (omega arith)) h.1,
)

-- A memory that mirrors the place of a list holds it reversed.
pub Holds-mirrored :
    (m m' : Bytes) (p : ℕ) (cs : List ℕ)
    → Holds m p cs
    → ((a : ℕ) → m' a ≡ m (mirrored p (p + length cs - 1) a))
    → Holds m' p (reverse cs)
Holds-mirrored m m' p cs h same =
    Holds-reverse m m' p p cs h (λ k lt. same (p + k) ∙ ap m (ground arith))

-- The text stands at `p` with a NUL behind it, and no byte outside of these has changed.
pub record Spelled (m : Bytes) (p : ℕ) (text : List ℕ) (m' : Bytes) : Type 0 where
  pub holds : Holds m' p text
  pub ended : m' (p + length text) ≡ 0
  pub others : (a : ℕ) → within p (length text + 1) a ≡ false → m' a ≡ m a

-- The last step of the conversions: a NUL behind the characters, and the characters reversed.
pub reversed-Spelled :
    (m m1 m' : Bytes) (p : ℕ) (cs : List ℕ)
    → 0 < length cs
    → Holds m1 p cs
    → ((a : ℕ) → within p (length cs + 1) a ≡ false → m1 a ≡ m a)
    → ((a : ℕ) → m' a ≡ store m1 (p + length cs) 0 (mirrored p (p + length cs - 1) a))
    → Spelled m p (reverse cs) m'
reversed-Spelled m m1 m' p cs pos held out same = record {
  holds = Holds-mirrored m2 m' p cs (Holds-same m1 m2 p cs (λ a lo hi. ground arith) held) same;
  ended =
      ap (λ (n : ℕ). m' (p + n)) (length-reverse cs)
      ∙ (same (p + length cs) ∙ (ap m2 outside ∙ (ground arith)));
  others = λ a off.
      let off' : within p (length cs + 1) a ≡ false =
        ap (λ (n : ℕ). within p (n + 1) a) (sym (length-reverse cs)) ∙ off in
      same a ∙ (ap m2 (still a off') ∙ (kept a off' ∙ out a off'));
}
  where
    m2 : Bytes
    m2 = store m1 (p + length cs) 0

    outside : mirrored p (p + length cs - 1) (p + length cs) ≡ p + length cs
    outside = ground arith

    still : (a : ℕ) → within p (length cs + 1) a ≡ false → mirrored p (p + length cs - 1) a ≡ a
    still a off = ground arith

    kept : (a : ℕ) → within p (length cs + 1) a ≡ false → store m1 (p + length cs) 0 a ≡ m1 a
    kept a off = ground arith
