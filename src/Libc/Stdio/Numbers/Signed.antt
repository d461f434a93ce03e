-- ===== src/Libc/Stdio/Numbers/Signed.antt =====
-- What `__lltoa` writes in base 10: a minus sign for a negative number, and the digits of
-- its magnitude.
use cho_os.Prelude.{
  ℕ, ◌+◌, ◌-◌, ◌^◌, ◌≤◌, ◌<◌, ◌≡◌, ap, ◌∙◌, Bool, true, false, some, leb, if◌then◌else◌, arith,
  Bool-cases, inl, inr, List, ◌∷◌,
}
use cho_os.Libc.Bytes.{Bytes, store}
use cho_os.Libc.Stdio.Numbers.{ulltoa, lltoa}
use cho_os.Libc.Stdio.Numbers.Reversed.{Spelled}
use cho_os.Libc.Stdio.Numbers.Digits.{digits, digits-Spelled, Stands}

-- A bit pattern of `w` bits whose highest bit stands for half of `2 ^ w` is that of a negative number.
abbrev pub is_negative : ℕ → ℕ → Bool
is_negative half value = leb half value

abbrev pub magnitude : ℕ → ℕ → ℕ
magnitude half value = if leb half value then half + half - value else value

abbrev pub signed_text : Bool → List ℕ → List ℕ
signed_text true ds = 45 ∷ ds
signed_text false ds = ds

Spelled-cons :
    (m m' : Bytes) (p c : ℕ) (ds : List ℕ)
    → Spelled (store m p c) (p + 1) ds m'
    → Spelled m p (c ∷ ds) m'
Spelled-cons m m' p c ds s = record {
  holds = (s.others p (ground arith) ∙ (ground arith), s.holds);
  ended = ap m' (omega arith) ∙ s.ended;
  others = λ a out. s.others a (ground arith) ∙ (ground arith);
}

-- `__lltoa` in base 10, with fuel for twenty digits, ends and leaves a minus sign if the number is
-- negative, the digits of its magnitude, twenty at most, and a NUL, and changes no byte besides; the
-- least number is no exception.
pub lltoa-Spelled :
    (fuel value buffer : ℕ) (m : Bytes)
    → value < 2 ^ 64
    → 20 ≤ fuel
    → let ds = digits fuel 10 (magnitude (2 ^ 63) value) in
      (m' : Bytes) × (lltoa fuel value buffer 10 m ≡ some m')
      × Spelled m buffer (signed_text (is_negative (2 ^ 63) value) ds) m'
      × Stands 10 (magnitude (2 ^ 63) value) 20 ds
unfolding lltoa ulltoa
lltoa-Spelled fuel value buffer m small enough = elim (Bool-cases (is_negative (2 ^ 63) value)) [
  | inl minus ↦
      let (m', e, s, r) =
        digits-Spelled fuel 20 10 (2 ^ 64 - value) (buffer + 1) (store m buffer 45) (omega arith)
          (omega arith) (omega arith) (omega arith) enough in
      (m', rw (lltoa, minus) e, rw minus (Spelled-cons m m' buffer 45 _ s), rw minus r)
  | inr plus ↦
      let (m', e, s, r) =
        digits-Spelled fuel 20 10 value buffer m (omega arith) (omega arith) (ground arith)
          (omega arith) enough in
      (m', rw (lltoa, plus) e, rw plus s, rw plus r)
]
