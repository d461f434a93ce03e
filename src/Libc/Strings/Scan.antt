-- ===== src/Libc/Strings/Scan.antt =====
-- What strlen.c, strcpy.c, memchr.c and memcmp.c find.
use cho_os.Prelude.{
  ℕ, zero, suc, ◌+◌, ◌-◌, ◌≤◌, ◌<◌, ◌≡◌, ap, ◌∙◌, ◌≢◌, inl, inr, Bool-cases, ltb, ◌==◌,
  if◌then◌else◌, arith, Option, some, none,
}
use cho_os.Libc.Bytes.{Bytes, u8, store}
use cho_os.Libc.Strings.{
  Compared, below, same, above, compare_from, memcmp, memchr_from, memchr, strlen_from, strlen,
  strcpy,
}
use cho_os.Libc.Strings.Copy.{IsString, IsString-store, Apart, within}

strlen_from_lem :
    (fuel i str len : ℕ) (m : Bytes)
    → IsString m str len
    → i ≤ len
    → len < i + fuel
    → strlen_from fuel i str m ≡ some len
unfolding strlen_from
strlen_from_lem zero i str len m s le enough = absurd (omega arith)
strlen_from_lem (suc fuel) i str len m s le enough = elim (Bool-cases (m (str + i) == 0)) [
  | inl stop ↦
      let at_end : i ≡ len = ground (arith, s.filled i) in rw (stop, strlen_from) (ap some at_end)
  | inr more ↦
      let inside : i < len = ground (arith, s.ended, ap (λ (k : ℕ). m (str + k))) in
      rw (more, strlen_from) (strlen_from_lem fuel (i + 1) str len m s (omega arith) (omega arith))
]

-- `strlen` of a string that is `len` bytes long returns `len`, with any fuel above that.
pub strlen_lem :
    (fuel str len : ℕ) (m : Bytes) → IsString m str len → len < fuel → strlen fuel str m ≡ some len
unfolding strlen
strlen_lem fuel str len m s enough = strlen_from_lem fuel 0 str len m s (omega arith) (omega arith)

-- `memchr` found nothing in the `n` bytes from `p` on, or found the first place of the byte.
abbrev pub Found : Bytes → ℕ → ℕ → ℕ → Option ℕ → Type 0
Found m p n uc none = (k : ℕ) → k < n → m (p + k) ≢ uc
Found m p n uc (some q) =
    (k : ℕ) × (k < n) × (q ≡ p + k) × (m q ≡ uc) × ((j : ℕ) → j < k → m (p + j) ≢ uc)

miss-suc :
    (m : Bytes) (p n uc : ℕ)
    → m p ≢ uc
    → ((k : ℕ) → k < n → m (p + 1 + k) ≢ uc)
    → (k : ℕ) → k < suc n
    → m (p + k) ≢ uc
miss-suc m p n uc ne f zero h = ground (arith, ap m {x = p + 0} {y = p} (omega arith))
miss-suc m p n uc ne f (suc k) h =
    ground (arith, f k (omega arith), ap m {x = p + suc k} {y = p + 1 + k} (omega arith))

Found-suc :
    (m : Bytes) (p n uc : ℕ) (o : Option ℕ)
    → m p ≢ uc
    → Found m (p + 1) n uc o
    → Found m p (suc n) uc o
Found-suc m p n uc none ne f = miss-suc m p n uc ne f
Found-suc m p n uc (some q) ne (k, lt, at, is, first) =
    (suc k, omega arith, omega arith, is, miss-suc m p k uc ne first)

memchr_from-Found : (n p uc : ℕ) (m : Bytes) → Found m p n uc (memchr_from n p uc m)
unfolding memchr_from
memchr_from-Found zero p uc m = λ k h. absurd (omega arith)
memchr_from-Found (suc n) p uc m = elim (Bool-cases (m p == uc)) [
  | inl hit ↦
      rw (hit, memchr_from) (0, omega arith, omega arith, ground arith, λ j h. absurd (omega arith))
  | inr miss ↦
      rw (miss, memchr_from)
        (Found-suc m p n uc (memchr_from n (p + 1) uc m) (ground arith)
          (memchr_from-Found n (p + 1) uc m))
]

-- `memchr` returns the first place of the low byte of `c` among the `n` bytes from `s` on, and NULL
-- exactly where none of them is that byte.
pub memchr-Found : (s c n : ℕ) (m : Bytes) → Found m s n (u8 c) (memchr s c n m)
unfolding memchr
memchr-Found s c n m = memchr_from-Found n s (u8 c) m

-- the bytes at the indices from `lo` up to `hi` agree
abbrev pub Agree : Bytes → ℕ → ℕ → ℕ → ℕ → Type 0
Agree m a b lo hi = (k : ℕ) → lo ≤ k → k < hi → m (a + k) ≡ m (b + k)

-- what each result of `memcmp` says of the bytes at the indices from `lo` up to `hi`
abbrev pub Verdict : Bytes → ℕ → ℕ → ℕ → ℕ → Compared → Type 0
Verdict m a b lo hi same = Agree m a b lo hi
Verdict m a b lo hi below =
    (k : ℕ) × (lo ≤ k) × (k < hi) × Agree m a b lo k × (m (a + k) < m (b + k))
Verdict m a b lo hi above =
    (k : ℕ) × (lo ≤ k) × (k < hi) × Agree m a b lo k × (m (b + k) < m (a + k))

Agree-down :
    (m : Bytes) (a b i hi : ℕ) → m (a + i) ≡ m (b + i) → Agree m a b (i + 1) hi → Agree m a b i hi
Agree-down m a b i hi e rest k lo h = elim (Bool-cases (k == i)) [
  | inl here ↦ let at : k ≡ i = ground arith in rw at e
  | inr later ↦ rest k (ground arith) h
]

Verdict-down :
    (m : Bytes) (a b i hi : ℕ) (c : Compared)
    → m (a + i) ≡ m (b + i)
    → Verdict m a b (i + 1) hi c
    → Verdict m a b i hi c
Verdict-down m a b i hi same e v = Agree-down m a b i hi e v
Verdict-down m a b i hi below e (k, lo, h, eq, lt) =
    (k, omega arith, h, Agree-down m a b i k e eq, lt)
Verdict-down m a b i hi above e (k, lo, h, eq, lt) =
    (k, omega arith, h, Agree-down m a b i k e eq, lt)

compare_from-Verdict :
    (n i a b hi : ℕ) (m : Bytes) → i + n ≡ hi → Verdict m a b i hi (compare_from n i a b m)
unfolding compare_from
compare_from-Verdict zero i a b hi m e = λ k lo h. absurd (omega arith)
compare_from-Verdict (suc n) i a b hi m e = elim (Bool-cases (ltb (m (a + i)) (m (b + i)))) [
  | inl lt ↦
      rw (lt, compare_from)
        (i, omega arith, omega arith, λ k lo h. absurd (omega arith), ground arith)
  | inr ge ↦ elim (Bool-cases (ltb (m (b + i)) (m (a + i)))) [
    | inl gt ↦
        rw (ge, gt, compare_from)
          (i, omega arith, omega arith, λ k lo h. absurd (omega arith), ground arith)
    | inr le ↦
        rw (ge, le, compare_from)
          (Verdict-down m a b i hi (compare_from n (i + 1) a b m) (ground arith)
            (compare_from-Verdict n (i + 1) a b hi m (omega arith)))
  ]
]

-- `memcmp` compares as unsigned bytes: 0 says that all `size` bytes agree, -1 that the first
-- difference is one where `a` has the lesser byte, and 1 that it is one where `b` has it.
pub memcmp-Verdict : (a b size : ℕ) (m : Bytes) → Verdict m a b 0 size (memcmp a b size m)
unfolding memcmp
memcmp-Verdict a b size m = compare_from-Verdict size 0 a b size m (omega arith)

IsString-tail : (m : Bytes) (src len : ℕ) → IsString m src (suc len) → IsString m (src + 1) len
IsString-tail m src len s = record {
  filled = λ k h z.
      s.filled (suc k) (omega arith) (ap m {x = src + suc k} {y = src + 1 + k} (omega arith) ∙ z);
  ended = ap m {x = src + 1 + len} {y = src + suc len} (omega arith) ∙ s.ended;
}

strcpy_from_lem :
    (len fuel dst src : ℕ) (m : Bytes)
    → IsString m src len
    → Apart dst (len + 1) src (len + 1)
    → len < fuel
    → (m' : Bytes) × (strcpy fuel dst src m ≡ some m')
      × ((a : ℕ) → m' a ≡ (if within dst (len + 1) a then m (src + (a - dst)) else m a))
unfolding strcpy
strcpy_from_lem len zero dst src m s apart enough = absurd (omega arith)
strcpy_from_lem zero (suc fuel) dst src m s apart enough = (
  store m dst (m src),
  ground (arith, s.ended, ap m {x = src + 0} {y = src} (omega arith)),
  λ a. ground (arith, ap m {x = src + (dst - dst)} {y = src} (omega arith)),
)
strcpy_from_lem (suc len) (suc fuel) dst src m s apart enough =
    let go =
      strcpy_from_lem len fuel (dst + 1) (src + 1) (store m dst (m src))
        (IsString-store m (src + 1) len dst (m src) (IsString-tail m src len s) (omega arith))
        (omega arith) (omega arith) in
    let begins : m src ≢ 0 =
      (λ z. s.filled 0 (omega arith) (ap m {x = src + 0} {y = src} (omega arith) ∙ z)) in
    (
      go.0,
      ground (arith, begins, go.1),
      λ a. ground (
        arith,
        go.2 a,
        ap m {x = src + (dst - dst)} {y = src} (omega arith),
        ap (λ (t : ℕ). m (src + t)) {x = a - dst} {y = 1 + (a - (dst + 1))},
        ap m {x = src + (1 + (a - (dst + 1)))} {y = src + 1 + (a - (dst + 1))} (omega arith),
      ),
    )

-- `strcpy` of a string that is `len` bytes long, into `len + 1` bytes apart from it, returns with
-- any fuel above `len`; it copies the string with its NUL and changes no other byte.
pub strcpy_lem :
    (fuel dst src len : ℕ) (m : Bytes)
    → IsString m src len
    → Apart dst (len + 1) src (len + 1)
    → len < fuel
    → (m' : Bytes) × (strcpy fuel dst src m ≡ some m')
      × ((a : ℕ) → m' a ≡ (if within dst (len + 1) a then m (src + (a - dst)) else m a))
strcpy_lem fuel dst src len m = strcpy_from_lem len fuel dst src m
