-- ===== src/Libc/Stdio/Numbers.antt =====
-- libc/stdio/internal.c: numbers as text, over the byte-addressed memory. A `char` is stored as its
-- byte. The loops take fuel, `none` when it runs out; a number of w bits takes at most w rounds.
pub mod Reversed
pub mod Digits
pub mod Signed
pub mod Itoa
use cho_os.Prelude.{
  ℕ, zero, suc, ◌+◌, ◌-◌, ◌/◌, ◌%◌, ◌^◌, Bool, true, false, ◌&&◌, ◌||◌, not, Option, none, some,
  ltb, leb, ◌==◌, if◌then◌else◌,
}
use cho_os.Libc.Bytes.{Bytes, u8, store}

-- `(mod < 10) ? (mod + '0') : (mod - 10 + 'a')`
unfoldable pub digit_char : ℕ → ℕ
digit_char d = if ltb d 10 then d + 48 else d - 10 + 97

-- The loop that `__utoa` and `__ulltoa` begin with: the digits, lowest first, and where `ptr` ends.
unfoldable pub put_digits : ℕ → ℕ → ℕ → ℕ → Bytes → Option (ℕ × Bytes)
put_digits zero base value ptr m = none
put_digits (suc fuel) base value ptr m =
    let m1 = store m ptr (digit_char (value % base)) in
    let rest = put_digits fuel base (value / base) (ptr + 1) m1 in
    if value / base == 0 then some (ptr + 1, m1) else rest

-- The loop that they end with: it swaps from both ends inwards.
unfoldable pub swap_ends : ℕ → ℕ → ℕ → Bytes → Option Bytes
swap_ends zero low ptr m = none
swap_ends (suc fuel) low ptr m =
    let rest = swap_ends fuel (low + 1) (ptr - 1) (store (store m low (m ptr)) ptr (m low)) in
    if ltb low ptr then rest else some m

-- Between the two loops: the NUL, and `ptr` back on the last digit.
unfoldable pub reverse_digits : ℕ → ℕ → Option (ℕ × Bytes) → Option Bytes
unfolding swap_ends
reverse_digits fuel buffer none = none
reverse_digits fuel buffer (some (ptr, m)) = swap_ends fuel buffer (ptr - 1) (store m ptr 0)

-- `value` is an `unsigned int`.
unfoldable pub utoa : ℕ → ℕ → ℕ → ℕ → Bytes → Option Bytes
unfolding put_digits reverse_digits
utoa fuel value buffer base m = reverse_digits fuel buffer (put_digits fuel base value buffer m)

-- The same code on an `unsigned long long`.
unfoldable pub ulltoa : ℕ → ℕ → ℕ → ℕ → Bytes → Option Bytes
unfolding put_digits reverse_digits
ulltoa fuel value buffer base m = reverse_digits fuel buffer (put_digits fuel base value buffer m)

-- `value` is the bit pattern of a `long long`.
unfoldable pub lltoa : ℕ → ℕ → ℕ → ℕ → Bytes → Option Bytes
unfolding ulltoa
lltoa fuel value buffer base m =
    if leb (2 ^ 63) value && (base == 10)
    then ulltoa fuel (2 ^ 64 - value) (buffer + 1) base (store m buffer 45)
    else ulltoa fuel value buffer base m

pub swap_chars : ℕ → ℕ → Bytes → Bytes
swap_chars a b m = if (a == 0) || (b == 0) then m else store (store m a (m b)) b (m a)

-- the loop of `__reverse`
unfoldable pub reverse_from : ℕ → ℕ → ℕ → ℕ → Bytes → Option Bytes
unfolding swap_chars
reverse_from zero str start last m = none
reverse_from (suc fuel) str start last m =
    let rest =
      reverse_from fuel str (start + 1) (last - 1) (swap_chars (str + start) (str + last) m) in
    if ltb start last then rest else some m

-- The length is positive where it is called.
unfoldable pub reverse_string : ℕ → ℕ → ℕ → Bytes → Option Bytes
unfolding reverse_from
reverse_string fuel str length m = reverse_from fuel str 0 (length - 1) m

-- The digit loop of `__itoa`, on the magnitude of `num` and its sign. The remainder has the sign of
-- `num`, so of a negative number a negative one is added to '0'.
unfoldable pub put_signed : ℕ → ℕ → Bool → ℕ → ℕ → ℕ → Bytes → Option (ℕ × Bytes)
put_signed zero base negative num str i m = none
put_signed (suc fuel) base negative num str i m =
    let rem = num % base in
    let c = if negative then u8 (48 + 2 ^ 8 - rem) else digit_char rem in
    let rest = put_signed fuel base negative (num / base) str (i + 1) (store m (str + i) c) in
    if num == 0 then some (i, m) else rest

-- What follows that loop.
unfoldable pub finish_signed : ℕ → Bool → ℕ → Option (ℕ × Bytes) → Option Bytes
unfolding reverse_string
finish_signed fuel minus str none = none
finish_signed fuel minus str (some (i, m)) =
    if minus
    then reverse_string fuel str (i + 1) (store (store m (str + i) 45) (str + (i + 1)) 0)
    else reverse_string fuel str i (store m (str + i) 0)

-- `num` is the bit pattern of an `int`. The negation of the least `int` overflows: it stays as it is.
unfoldable pub itoa : ℕ → ℕ → ℕ → ℕ → Bytes → Option Bytes
unfolding put_signed finish_signed
itoa fuel num str base m =
    let negative = leb (2 ^ 31) num in
    let minus = negative && (base == 10) in
    let magnitude = if negative then 2 ^ 32 - num else num in
    let still = negative && (not minus || (num == 2 ^ 31)) in
    if num == 0
    then some (store (store m str 48) (str + 1) 0)
    else finish_signed fuel minus str (put_signed fuel base still magnitude str 0 m)
