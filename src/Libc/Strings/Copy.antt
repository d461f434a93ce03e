-- ===== src/Libc/Strings/Copy.antt =====
-- What memcpy.c, memmove.c, memset.c and strncpy.c leave in memory, address by address.
use cho_os.Prelude.{
  ℕ, zero, suc, ◌+◌, ◌-◌, ◌≤◌, ◌<◌, ◌≡◌, ap, ◌≢◌, ◌⊎◌, inl, inr, Bool-cases, ltb, leb, ◌&&◌, ◌==◌,
  if◌then◌else◌, arith, tests, Bool,
}
use cho_os.Libc.Bytes.{Bytes, u8, store}
use cho_os.Libc.Strings.{
  copy_up, copy_down, memcpy, memmove, fill_up, memset, pad_zero, strncpy_from, strncpy,
}

-- `a` lies in the `n` bytes from `p` on.
abbrev pub within : ℕ → ℕ → ℕ → Bool
within p n a = leb p a && ltb a (p + n)

copy_up_lem :
    (n i dst src : ℕ) (m : Bytes)
    → dst ≤ src
    → (a : ℕ)
    → copy_up n i dst src m a ≡ (if within (dst + i) n a then m (src + (a - dst)) else m a)
unfolding copy_up
copy_up_lem zero i dst src m le a = ground arith
copy_up_lem (suc n) i dst src m le a =
    ground (arith, copy_up_lem n (i + 1) dst src (store m (dst + i) (m (src + i))) le a, ap m e)
  where
    e : src + i ≡ src + (dst + i - dst)
    e = omega arith

copy_down_lem :
    (n dst src : ℕ) (m : Bytes)
    → src ≤ dst
    → (a : ℕ) → copy_down n dst src m a ≡ (if within dst n a then m (src + (a - dst)) else m a)
unfolding copy_down
copy_down_lem zero dst src m le a = ground arith
copy_down_lem (suc i) dst src m le a =
    ground (arith, copy_down_lem i dst src (store m (dst + i) (m (src + i))) le a, ap m e)
  where
    e : src + i ≡ src + (dst + i - dst)
    e = omega arith

-- `memmove` leaves at `dst + k`, for each `k` below `size`, the byte that stood at `src + k` before
-- the call, and changes no other byte; the two regions may overlap either way.
pub memmove_lem :
    (dst src size : ℕ) (m : Bytes) (a : ℕ)
    → memmove dst src size m a ≡ (if within dst size a then m (src + (a - dst)) else m a)
unfolding memmove
memmove_lem dst src size m a = elim (Bool-cases (ltb dst src)) [
  | inl up ↦ rw up (ground (arith, copy_up_lem size 0 dst src m (omega tests) a))
  | inr down ↦ rw down (copy_down_lem size dst src m (ground arith) a)
]

-- Where the destination does not lie above the source, `memcpy` leaves every byte as `memmove`
-- does, also when the two regions overlap (the terminal scrolls by such a call).
pub memcpy-eq-memmove :
    (dst src size : ℕ) (m : Bytes)
    → dst ≤ src
    → (a : ℕ) → memcpy dst src size m a ≡ memmove dst src size m a
unfolding memcpy
memcpy-eq-memmove dst src size m le a =
    ground (arith, copy_up_lem size 0 dst src m le a, memmove_lem dst src size m a)

fill_up_lem :
    (n i buf value : ℕ) (m : Bytes) (a : ℕ)
    → fill_up n i buf value m a ≡ (if within (buf + i) n a then u8 value else m a)
unfolding fill_up
fill_up_lem zero i buf value m a = ground arith
fill_up_lem (suc n) i buf value m a =
    ground (arith, fill_up_lem n (i + 1) buf value (store m (buf + i) (u8 value)) a)

-- `memset` stores the low byte of `value` at each of the `size` addresses, and nowhere else.
pub memset_lem :
    (buf value size : ℕ) (m : Bytes) (a : ℕ)
    → memset buf value size m a ≡ (if within buf size a then u8 value else m a)
unfolding memset
memset_lem buf value size m a = ground (arith, fill_up_lem size 0 buf value m a)

pad_zero_lem :
    (n i dst : ℕ) (m : Bytes) (a : ℕ)
    → pad_zero n i dst m a ≡ (if within (dst + i) n a then 0 else m a)
unfolding pad_zero
pad_zero_lem zero i dst m a = ground arith
pad_zero_lem (suc n) i dst m a = ground (arith, pad_zero_lem n (i + 1) dst (store m (dst + i) 0) a)

-- The source string is `len` bytes long: none of them is NUL, and a NUL follows.
pub record IsString (m : Bytes) (src len : ℕ) : Type 0 where
  pub filled : (k : ℕ) → k < len → m (src + k) ≢ 0
  pub ended : m (src + len) ≡ 0

-- the two regions share no address
abbrev pub Apart : ℕ → ℕ → ℕ → ℕ → Type 0
Apart p n q k = (p + n ≤ q) ⊎ (q + k ≤ p)

-- A store outside the string and its NUL keeps it.
pub IsString-store :
    (m : Bytes) (src len p v : ℕ)
    → IsString m src len
    → (p < src) ⊎ (src + len < p)
    → IsString (store m p v) src len
IsString-store m src len p v str out = record {
  filled = λ k h. ground (arith, str.filled k h);
  ended = ground (arith, str.ended);
}

strncpy_from_lem :
    (n i dst src len size : ℕ) (m : Bytes)
    → IsString m src len
    → i + n ≡ size
    → i ≤ len
    → Apart dst size src (len + 1)
    → (a : ℕ)
    → strncpy_from n i dst src m a
      ≡ (if within (dst + i) n a then if ltb (a - dst) len then m (src + (a - dst)) else 0 else m a)
unfolding strncpy_from
strncpy_from_lem zero i dst src len size m str e le apart a = ground arith
strncpy_from_lem (suc n) i dst src len size m str e le apart a =
    elim (Bool-cases (m (src + i) == 0)) [
      | inl stop ↦
          let at_end : i ≡ len = ground (arith, str.filled i) in
          rw (stop, strncpy_from) (ground (arith, pad_zero_lem (suc n) i dst m a, str.ended))
      | inr more ↦
          let inside : i < len = ground (arith, str.ended, ap (λ (k : ℕ). m (src + k))) in
          rw (more, strncpy_from)
            (ground (
              arith,
              strncpy_from_lem n (i + 1) dst src len size (store m (dst + i) (m (src + i)))
                  (IsString-store m src len (dst + i) (m (src + i)) str (omega arith)) (omega arith)
                  (omega arith) apart a,
              ap m {x = src + i} {y = src + (dst + i - dst)} (omega arith),
            ))
    ]

-- Into `dsize` bytes apart from the source string, `strncpy` copies the string and then NUL bytes
-- up to `dsize`; where the string is `dsize` bytes or longer it is cut there, with no NUL. Nothing
-- else changes.
pub strncpy_lem :
    (dst src len dsize : ℕ) (m : Bytes)
    → IsString m src len
    → Apart dst dsize src (len + 1)
    → (a : ℕ)
    → strncpy dst src dsize m a
      ≡ (if within dst dsize a then if ltb (a - dst) len then m (src + (a - dst)) else 0 else m a)
unfolding strncpy
strncpy_lem dst src len dsize m str apart a =
    ground
      (arith, strncpy_from_lem dsize 0 dst src len dsize m str (omega arith) (omega arith) apart a)
