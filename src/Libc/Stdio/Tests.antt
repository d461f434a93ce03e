-- ===== src/Libc/Stdio/Tests.antt =====
-- Numbers as text and formatted output at concrete inputs.
use cho_os.Prelude.{
  ℕ, ◌-◌, ◌^◌, ◌≡◌, refl, some, ◌==◌, if◌then◌else◌, arith, List, [], ◌∷◌, ◌++◌, map, length,
}
use cho_os.Libc.Bytes.{Bytes}
use cho_os.Libc.Stdio.Numbers.{utoa, itoa, digit_char}
use cho_os.Libc.Stdio.Numbers.Reversed.{Spelled}
use cho_os.Libc.Stdio.Numbers.Digits.{digits, low_digits, Stands, utoa-Spelled}
use cho_os.Libc.Stdio.Numbers.Signed.{is_negative, magnitude, signed_text}
use cho_os.Libc.Stdio.Numbers.Itoa.{itoa-Spelled}
use cho_os.Libc.Stdio.Printf.{Printer, done, print, vprintf}
use cho_os.Libc.Stdio.Printf.Reference.{Arg, number, string, raw, render}
use cho_os.Libc.Stdio.Printf.Rendered.{Stage, Agrees, ArgsHeld}
use cho_os.Libc.Stdio.Printf.Correct.{vprintf-Prints}

-- nothing but zeros
abbrev blank : Bytes
blank a = 0

utoa-Spelled_example :
    (m' : Bytes) × (text : List ℕ) × (utoa 8 48879 100 16 blank ≡ some m')
    × Spelled blank 100 text m'
    × Stands 16 48879 8 text
utoa-Spelled_example =
    utoa-Spelled 8 8 16 48879 100 blank (omega arith) (omega arith) (omega arith) (omega arith)
      (omega arith)

-- -42 as a `long long`
-- -42 as an `int`
itoa-Spelled_example :
    (m' : Bytes) × (itoa 65 (2 ^ 32 - 42) 100 10 blank ≡ some m')
    × Spelled blank 100
        (signed_text
          (is_negative (2 ^ 31) (2 ^ 32 - 42))
          (digits 64 10 (magnitude (2 ^ 31) (2 ^ 32 - 42))))
        m'
    × Stands 10
        (magnitude (2 ^ 31) (2 ^ 32 - 42))
        10
        (digits 64 10 (magnitude (2 ^ 31) (2 ^ 32 - 42)))
itoa-Spelled_example =
    itoa-Spelled 64 (2 ^ 32 - 42) 100 blank (omega arith) (λ e. ground arith) (omega arith)
      (omega arith)

-- "a%d%s" at 100 and "ok" at 200
abbrev page : Bytes
page a =
    if a == 100
    then 97
    else if a == 101
    then 37
    else if a == 102
    then 100
    else if a == 103
    then 37
    else if a == 104
    then 115
    else if a == 200
    then 111
    else if a == 201
    then 107
    else 0

abbrev wanted : List Arg
wanted = number (2 ^ 32 - 42) ∷ string 200 (111 ∷ 107 ∷ []) ∷ []

abbrev collect : ℕ → List ℕ → List ℕ
collect c s = s ++ (c ∷ [])

abbrev shown : List ℕ
shown = 97 ∷ 45 ∷ 52 ∷ 50 ∷ 111 ∷ 107 ∷ []

page-Stage : Stage collect 1000 65 page 100 (97 ∷ 37 ∷ 100 ∷ 37 ∷ 115 ∷ []) wanted
unfolding ArgsHeld
page-Stage = record {
  text = (
    refl,
    (λ e. ground arith),
    (
      refl,
      (λ e. ground arith),
      (refl, (λ e. ground arith), (refl, (λ e. ground arith), (refl, (λ e. ground arith), refl))),
    ),
  );
  apart = ground arith;
  short = omega arith;
  held = (
    (refl, (λ e. ground arith), (refl, (λ e. ground arith), refl)),
    ground arith,
    omega arith,
    tt,
  );
}

vprintf-Prints_example :
    (p : Printer (List ℕ)) × (vprintf collect 1000 65 6 100 (map raw wanted) page [] ≡ done p)
    × (p.sink ≡ print collect shown [])
    × (p.written ≡ length shown)
    × Agrees collect 1000 65 page p.memory
unfolding render digits low_digits digit_char
vprintf-Prints_example =
    vprintf-Prints collect 1000 65 6 100 (97 ∷ 37 ∷ 100 ∷ 37 ∷ 115 ∷ []) wanted page [] shown
      (omega arith) (omega arith) (omega arith) page-Stage refl (omega arith)

-- The least `int` comes out with a character below '0' for each digit.
least : (m' : Bytes) × (itoa 65 (2 ^ 31) 100 10 blank ≡ some m') × (m' 110 ≡ 40)
unfolding itoa
least = (_, refl, refl)
