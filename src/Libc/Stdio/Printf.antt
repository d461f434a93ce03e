-- ===== src/Libc/Stdio/Printf.antt =====
-- libc/stdio/vprintf.c, printf.c and puts.c, with `__append` and `__print` of internal.c. A character
-- goes to `put`, which stands for `putchar` and never reports an error, as it returns what it was
-- given, a byte. An argument is a bit pattern or a pointer. `buffer` is where the local buffer of
-- `vprintf` lies, and `limit` the fuel of its inner loops.
pub mod Reference
pub mod Text
pub mod Rendered
pub mod Directives
pub mod Conversions
pub mod Literals
pub mod Output
pub mod Correct
use cho_os.Prelude.{
  ℕ, zero, suc, ◌+◌, ◌-◌, ◌^◌, Bool, true, false, ◌&&◌, ◌||◌, not, Option, none, some, ltb, leb,
  ◌==◌, if◌then◌else◌, List, [], ◌∷◌, length,
}
use cho_os.Libc.Bytes.{Bytes, u8, bytes_at}
use cho_os.Libc.Strings.{strlen}
use cho_os.Libc.Stdio.Numbers.{utoa, ulltoa, lltoa, itoa}

abbrev pub int_max : ℕ
int_max = 2 ^ 31 - 1

-- The memory, the count of characters written, and the state behind `putchar`.
pub record Printer (S : Type 0) : Type 0 where
  pub memory : Bytes
  pub written : ℕ
  pub sink : S

-- `overflowed` is the return of EOVERFLOW; `no_argument` is a call with too few arguments, which C
-- leaves undefined.
pub data Outcome (S : Type 0) : Type 0 where
  done : Printer S → Outcome S
  overflowed : Printer S → Outcome S
  no_argument : Outcome S
  out_of_fuel : Outcome S

infixl 5 ◌>>=◌
abbrev pub ◌>>=◌ : {S : Type 0} → Outcome S → (Printer S → Outcome S) → Outcome S
done p >>= k = k p
overflowed p >>= k = overflowed p
no_argument >>= k = no_argument
out_of_fuel >>= k = out_of_fuel

-- `va_arg`
abbrev pub with_arg : {S : Type 0} → List ℕ → (ℕ → List ℕ → Outcome S) → Outcome S
with_arg [] k = no_argument
with_arg (a ∷ args) k = k a args

-- The inner loop of `vprintf`: how far the literal text goes on from `format + amount`.
unfoldable pub literal_from : ℕ → ℕ → ℕ → Bytes → Option ℕ
literal_from zero format amount m = none
literal_from (suc fuel) format amount m =
    let c = m (format + amount) in
    let rest = literal_from fuel format (amount + 1) m in
    if (c == 0) || (c == 37) then some amount else rest

-- `__print`
unfoldable pub print : {S : Type 0} → (ℕ → S → S) → List ℕ → S → S
print put [] s = s
print put (c ∷ cs) s = print put cs (put c s)

module _ {S : Type 0} (put : ℕ → S → S) (buffer limit : ℕ) where
  -- `__append`, on the bytes that it is given
  pub append : List ℕ → Printer S → Outcome S
  unfolding print
  append cs p =
      if ltb (int_max - p.written) (length cs)
      then overflowed p
      else done (record p { written = p.written + length cs; sink = print put cs p.sink })

  -- `__append(str, strlen(str), &written)`
  pub append_string : ℕ → Printer S → Outcome S
  unfolding append
  append_string str p = elim (strlen limit str p.memory) [
    | none ↦ out_of_fuel
    | some len ↦ append (bytes_at len str p.memory) p
  ]

  -- A number that a conversion has left in the buffer.
  pub append_number : Option Bytes → Printer S → Outcome S
  unfolding append_string
  append_number none p = out_of_fuel
  append_number (some m) p = append_string buffer (record p { memory = m })

  -- The rest of the format as it is, where the directive at `format` is unknown.
  pub append_rest : (ℕ → Printer S → Outcome S) → ℕ → Printer S → Outcome S
  unfolding append
  append_rest next format p = elim (strlen limit format p.memory) [
    | none ↦ out_of_fuel
    | some len ↦ append (bytes_at len format p.memory) p >>= next (format + len)
  ]

  -- `%llu` and `%lld`, with `format` behind the second `l`; another character is left to the loop.
  pub long_directive : (ℕ → List ℕ → Printer S → Outcome S) → ℕ → List ℕ → Printer S → Outcome S
  unfolding append_number
  long_directive next format args p =
      let d = p.memory format in
      if d == b'u'
      then with_arg args
          (λ a rest. append_number (ulltoa 64 a buffer 10 p.memory) p >>= next (format + 1) rest)
      else if d == b'd'
      then with_arg args
          (λ a rest. append_number (lltoa 64 a buffer 10 p.memory) p >>= next (format + 1) rest)
      else next format args p

  -- A directive, with `format` on its percent sign; `next` is the loop.
  pub directive : (ℕ → List ℕ → Printer S → Outcome S) → ℕ → List ℕ → Printer S → Outcome S
  unfolding append_number append_rest long_directive
  directive next format args p =
      let d = p.memory (format + 1) in
      if d == b'c'
      then with_arg args (λ a rest. append (u8 a ∷ []) p >>= next (format + 2) rest)
      else if d == b's'
      then with_arg args (λ a rest. append_string a p >>= next (format + 2) rest)
      else if d == b'd'
      then with_arg args
          (λ a rest. append_number (itoa 65 a buffer 10 p.memory) p >>= next (format + 2) rest)
      else if d == b'u'
      then with_arg args
          (λ a rest. append_number (utoa 64 a buffer 10 p.memory) p >>= next (format + 2) rest)
      else if d == b'x'
      then with_arg args
          (λ a rest. append_number (utoa 64 a buffer 16 p.memory) p >>= next (format + 2) rest)
      else if (d == b'l') && (p.memory (format + 2) == b'l')
      then long_directive next (format + 3) args p
      else append_rest (λ f. next f args) format p

  -- Literal text at `format`, past the first of two percent signs.
  pub literal : (ℕ → Printer S → Outcome S) → ℕ → Printer S → Outcome S
  unfolding append
  literal next format p = elim (literal_from limit format 1 p.memory) [
    | none ↦ out_of_fuel
    | some amount ↦ append (bytes_at amount format p.memory) p >>= next (format + amount)
  ]

  -- the outer loop of `vprintf`
  pub vprintf_from : ℕ → ℕ → List ℕ → Printer S → Outcome S
  unfolding directive literal
  vprintf_from zero format args p = out_of_fuel
  vprintf_from (suc fuel) format args p =
      let c = p.memory format in
      let plain = literal (λ f. vprintf_from fuel f args) in
      if c == 0
      then done p
      else if c == 37
      then (if p.memory (format + 1) == 37
          then plain (format + 1) p
          else directive (vprintf_from fuel) format args p)
      else plain format p

  -- What is returned is the count of the printer that it is done with.
  pub vprintf : ℕ → ℕ → List ℕ → Bytes → S → Outcome S
  unfolding vprintf_from
  vprintf fuel format args m s =
      vprintf_from fuel format args (record { memory = m; written = 0; sink = s })

  -- `printf("%s\n", string)`, with the format at the address `format`
  pub puts : ℕ → ℕ → ℕ → Bytes → S → Outcome S
  unfolding vprintf
  puts fuel format str m s = vprintf fuel format (str ∷ []) m s
