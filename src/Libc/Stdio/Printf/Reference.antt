-- ===== src/Libc/Stdio/Printf/Reference.antt =====
-- What a format and its arguments ask for, read one character after the other.
use cho_os.Prelude.{
  ℕ, ◌^◌, Bool, ◌&&◌, not, Option, none, some, ltb, ◌==◌, if◌then◌else◌, List, [], ◌∷◌, ◌++◌,
}
use cho_os.Libc.Bytes.{u8}
use cho_os.Libc.Stdio.Numbers.Digits.{digits}
use cho_os.Libc.Stdio.Numbers.Signed.{is_negative, magnitude, signed_text}

-- An argument: a number, or a pointer to a string and its characters.
pub data Arg : Type 0 where
  number : ℕ → Arg
  string : ℕ → List ℕ → Arg

-- what is passed for it
abbrev pub raw : Arg → ℕ
raw (number a) = a
raw (string p cs) = p

pub data Mode : Type 0 where
  plain percent long long_long : Mode

abbrev pub prefixed : List ℕ → Option (List ℕ) → Option (List ℕ)
prefixed xs none = none
prefixed xs (some ys) = some (xs ++ ys)

-- A number in the range of its type, and the text that it becomes.
abbrev pub with_number :
    (ℕ → Bool) → (ℕ → List ℕ) → (List Arg → Option (List ℕ)) → List Arg → Option (List ℕ)
with_number ok text rest [] = none
with_number ok text rest (string p cs ∷ args) = none
with_number ok text rest (number a ∷ args) = if ok a then prefixed (text a) (rest args) else none

abbrev pub with_string : (List Arg → Option (List ℕ)) → List Arg → Option (List ℕ)
with_string rest [] = none
with_string rest (number a ∷ args) = none
with_string rest (string p cs ∷ args) = prefixed cs (rest args)

abbrev pub is_word : ℕ → Bool
is_word a = ltb a (2 ^ 32)

-- The least number is left out, which `__itoa` does not print.
abbrev pub is_int : ℕ → Bool
is_int a = ltb a (2 ^ 32) && not (a == 2 ^ 31)

abbrev pub is_long : ℕ → Bool
is_long a = ltb a (2 ^ 64)

abbrev pub signed_digits : ℕ → ℕ → List ℕ
signed_digits half a = signed_text (is_negative half a) (digits 64 10 (magnitude half a))

-- The output; `none` where the arguments do not suit the format.
unfoldable pub render : Mode → List ℕ → List Arg → Option (List ℕ)
render plain [] args = some []
render percent [] args = some (37 ∷ [])
render long [] args = some (37 ∷ b'l' ∷ [])
render long_long [] args = some []
render plain (c ∷ cs) args =
    if c == 37 then render percent cs args else prefixed (c ∷ []) (render plain cs args)
render percent (c ∷ cs) args =
    let rest = render plain cs in
    if c == 37
    then prefixed (37 ∷ []) (rest args)
    else if c == b'c'
    then with_number is_word (λ a. u8 a ∷ []) rest args
    else if c == b's'
    then with_string rest args
    else if c == b'd'
    then with_number is_int (signed_digits (2 ^ 31)) rest args
    else if c == b'u'
    then with_number is_word (digits 64 10) rest args
    else if c == b'x'
    then with_number is_word (digits 64 16) rest args
    else if c == b'l'
    then render long cs args
    else some (37 ∷ c ∷ cs)
render long (c ∷ cs) args =
    if c == b'l' then render long_long cs args else some (37 ∷ b'l' ∷ c ∷ cs)
render long_long (c ∷ cs) args =
    let rest = render plain cs in
    if c == b'u'
    then with_number is_long (digits 64 10) rest args
    else if c == b'd'
    then with_number is_long (signed_digits (2 ^ 63)) rest args
    else if c == 37
    then render percent cs args
    else prefixed (c ∷ []) (rest args)
