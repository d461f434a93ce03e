-- ===== src/Libc/Strings.antt =====
-- libc/string/*.c over a byte-addressed memory. A pointer is an address, and the objects do not
-- wrap round the address space. The loops with a count recur on the rounds left; `strlen` and
-- `strcpy` run until a NUL byte and take fuel, `none` when it runs out.
pub mod Copy
pub mod Scan
mod Tests
use cho_os.Prelude.{
  ℕ, zero, suc, ◌+◌, ◌-◌, ◌%◌, ◌≡◌, Bool, true, false, Option, none, some, ltb, ◌==◌, if◌then◌else◌,
}
use cho_os.Libc.Bytes.{Bytes, u8, store}

-- `for (i = ...; i < size; i++) dst[i] = src[i];` with `n` rounds left
pub copy_up : ℕ → ℕ → ℕ → ℕ → Bytes → Bytes
copy_up zero i dst src m = m
copy_up (suc n) i dst src m = copy_up n (i + 1) dst src (store m (dst + i) (m (src + i)))

-- `for (i = size; i != 0; i--) dst[i - 1] = src[i - 1];`
pub copy_down : ℕ → ℕ → ℕ → Bytes → Bytes
copy_down zero dst src m = m
copy_down (suc i) dst src m = copy_down i dst src (store m (dst + i) (m (src + i)))

pub memcpy : ℕ → ℕ → ℕ → Bytes → Bytes
memcpy dst src size m = copy_up size 0 dst src m

pub memmove : ℕ → ℕ → ℕ → Bytes → Bytes
memmove dst src size m = if ltb dst src then copy_up size 0 dst src m else copy_down size dst src m

-- the loop of `memset` at index `i`
pub fill_up : ℕ → ℕ → ℕ → ℕ → Bytes → Bytes
fill_up zero i buf value m = m
fill_up (suc n) i buf value m = fill_up n (i + 1) buf value (store m (buf + i) (u8 value))

pub memset : ℕ → ℕ → ℕ → Bytes → Bytes
memset buf value size m = fill_up size 0 buf value m

-- The results -1, 0 and 1 of `memcmp`.
pub data Compared : Type 0 where
  below same above : Compared

pub compare_from : ℕ → ℕ → ℕ → ℕ → Bytes → Compared
compare_from zero i a b m = same
compare_from (suc n) i a b m =
    let rest = compare_from n (i + 1) a b m in
    if ltb (m (a + i)) (m (b + i))
    then below
    else if ltb (m (b + i)) (m (a + i))
    then above
    else rest

pub memcmp : ℕ → ℕ → ℕ → Bytes → Compared
memcmp a b size m = compare_from size 0 a b m

-- `none` is the NULL of `memchr`.
pub memchr_from : ℕ → ℕ → ℕ → Bytes → Option ℕ
memchr_from zero p uc m = none
memchr_from (suc n) p uc m =
    let rest = memchr_from n (p + 1) uc m in if m p == uc then some p else rest

pub memchr : ℕ → ℕ → ℕ → Bytes → Option ℕ
memchr s c n m = memchr_from n s (u8 c) m

unfoldable pub strlen_from : ℕ → ℕ → ℕ → Bytes → Option ℕ
strlen_from zero len str m = none
strlen_from (suc fuel) len str m =
    let rest = strlen_from fuel (len + 1) str m in if m (str + len) == 0 then some len else rest

unfoldable pub strlen : ℕ → ℕ → Bytes → Option ℕ
strlen fuel str m = strlen_from fuel 0 str m

-- `while ((*dst++ = *src++)) ;`
pub strcpy : ℕ → ℕ → ℕ → Bytes → Option Bytes
strcpy zero dst src m = none
strcpy (suc fuel) dst src m =
    let rest = strcpy fuel (dst + 1) (src + 1) (store m dst (m src)) in
    if m src == 0 then some (store m dst (m src)) else rest

-- the second loop of `strncpy`, `n` rounds left at index `i`
pub pad_zero : ℕ → ℕ → ℕ → Bytes → Bytes
pad_zero zero i dst m = m
pad_zero (suc n) i dst m = pad_zero n (i + 1) dst (store m (dst + i) 0)

-- its first loop, which stops at the end of the source or of the room
pub strncpy_from : ℕ → ℕ → ℕ → ℕ → Bytes → Bytes
strncpy_from zero i dst src m = m
strncpy_from (suc n) i dst src m = elim (m (src + i) == 0) [
  | true ↦ pad_zero (suc n) i dst m
  | false ↦ strncpy_from n (i + 1) dst src (store m (dst + i) (m (src + i)))
]

pub strncpy : ℕ → ℕ → ℕ → Bytes → Bytes
strncpy dst src dsize m = strncpy_from dsize 0 dst src m
